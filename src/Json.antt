-- ===== src/Json.antt =====
-- src/out_json.c: the export of the cache to the uplinks. Formatting and the calendar are the C
-- library's, which is a parameter; the transfer by libcurl is the list of what is posted.
pub mod Pieces
pub mod Messages
pub mod Export
use gnuais.Common.{
  ℕ, ◌+◌, ◌-◌, ◌*◌, Bool, true, false, ◌&&◌, ◌||◌, not, Option, none, some, List, [], ◌∷◌, ◌++◌, ℤ,
  pos, negsuc, ◌+ℤ◌, ltb, ◌==◌, if◌then◌else◌, ◌>>=◌, length, take, codes,
}
use gnuais.Protodec.Types.{Scaled, over}
use gnuais.Splay.{SpTree, Node}
use gnuais.Splay.Drain.{drain}
use gnuais.Cache.{CacheEnt, Cache, cache_rotate}
use gnuais.Hlog.{str_append}

-- The members of struct tm that are printed.
pub record Tm : Type 0 where
  pub tm_year : ℕ
  pub tm_mon : ℕ
  pub tm_mday : ℕ
  pub tm_hour : ℕ
  pub tm_min : ℕ
  pub tm_sec : ℕ

-- "%d", "%.<decimals>f", "%0<width>d" and gmtime_r of the C library.
pub record Libc : Type 0 where
  pub print_int : ℤ → List ℕ
  pub print_float : (decimals : ℕ) → Scaled → List ℕ
  pub print_padded : (width n : ℕ) → List ℕ
  pub gmtime : ℕ → Option Tm

-- struct uplink_config_t
pub record Uplink : Type 0 where
  pub proto : ℕ
  pub name : List ℕ
  pub url : List ℕ

abbrev pub uplink_json : ℕ
uplink_json = 1

abbrev pub tbuf_len : ℕ
tbuf_len = 15

-- `json`, `exported` and `tbuf` of `jsonout_export`.
pub record Exporter : Type 0 where
  pub json : List ℕ
  pub exported : ℕ
  pub tbuf : List ℕ

-- x > 0.0001 || x < -0.0001
unfoldable pub off_zero : Scaled → Bool
off_zero (over (pos n) d) = ltb d (n * 10000)
off_zero (over (negsuc n) d) = ltb d ((n + 1) * 10000)

-- x >= 0
unfoldable pub nonneg : ℤ → Bool
nonneg (pos n) = true
nonneg (negsuc n) = false

unfoldable pub nonneg_float : Scaled → Bool
unfolding nonneg
nonneg_float (over n d) = nonneg n

-- The pieces of the text that only some entries have.
unfoldable pub append_if : Bool → (formatted json : List ℕ) → List ℕ
unfolding str_append
append_if true formatted json = str_append (some json) formatted
append_if false formatted json = json

-- `if (e->callsign)` and its like, with the name of the member.
unfoldable pub append_string : (member : List ℕ) → Option (List ℕ) → (json : List ℕ) → List ℕ
unfolding str_append
append_string member none json = json
append_string member (some s) json =
    str_append (some json) (codes ", \"" ++ member ++ codes "\": \"" ++ s ++ codes "\"")

-- `(exported == 0) ? "" : ",\n"`
unfoldable pub separator : (exported : ℕ) → List ℕ
separator exported = if exported == 0 then [] else codes ",\n"

module _ (lib : Libc) where
  open lib use {print_int, print_float, print_padded, gmtime}

  -- `time_jsonais`: its result, and the buffer after it.
  unfoldable pub time_jsonais : (t : ℕ) (buf : List ℕ) (buflen : ℕ) → ℤ × List ℕ
  time_jsonais t buf buflen =
      let formatted : ℤ × List ℕ = elim (gmtime t) [
        | none ↦ (negsuc 0, buf)
        | some dt ↦
            let s =
              print_padded 4 (dt.tm_year + 1900)
              ++ print_padded 2 (dt.tm_mon + 1)
              ++ print_padded 2 dt.tm_mday
              ++ print_padded 2 dt.tm_hour
              ++ print_padded 2 dt.tm_min
              ++ print_padded 2 dt.tm_sec in
            (pos (length s), take (buflen - 1) s)
      ] in
      if ltb buflen 15 then (negsuc 0, buf) else formatted

  -- What `if ((e->mmsi) && (got_pos)) { ... }` appends to `json`.
  unfoldable pub append_position :
      CacheEnt → (tbuf : List ℕ) (exported : ℕ) (json : List ℕ) → List ℕ
  unfolding nonneg nonneg_float append_if separator str_append
  append_position e tbuf exported json =
      let json = str_append (some json) (
        separator exported
        ++ codes "{\"msgtype\": 3, \"mmsi\": "
        ++ print_int (pos e.mmsi)
        ++ codes ", \"rxtime\": \""
        ++ tbuf
        ++ codes "\"") in
      let json = str_append (some json) (
        codes ", \"lat\": " ++ print_float 7 e.lat ++ codes ", \"lon\": " ++ print_float 7 e.lon) in
      let json =
        append_if (nonneg_float e.course) (codes ", \"course\": " ++ print_float 1 e.course) json in
      let json = append_if (nonneg e.hdg) (codes ", \"heading\": " ++ print_int e.hdg) json in
      let json =
        append_if (nonneg_float e.sog) (codes ", \"speed\": " ++ print_float 1 e.sog) json in
      let json =
        append_if (nonneg e.navstat) (codes ", \"status\": " ++ print_int e.navstat) json in
      str_append (some json) (codes "}")

  -- `if ((e->mmsi) && (got_pos)) { ... }`
  unfoldable pub export_position : CacheEnt → Exporter → Exporter
  unfolding time_jsonais off_zero append_position
  export_position e st =
      let tbuf = (time_jsonais e.received_pos st.tbuf tbuf_len).1 in
      let json = append_position e tbuf st.exported st.json in
      if not (e.mmsi == 0) && (off_zero e.lat && off_zero e.lon)
      then record { json = json; exported = st.exported + 1; tbuf = tbuf }
      else st

  -- What `if ((e->mmsi) && (e->name)) { ... }` appends to `json`.
  unfoldable pub append_named :
      (name : List ℕ) → CacheEnt → (tbuf : List ℕ) (exported : ℕ) (json : List ℕ) → List ℕ
  unfolding nonneg nonneg_float append_if append_string separator str_append
  append_named name e tbuf exported json =
      let json = str_append (some json) (
        separator exported
        ++ codes "{\"msgtype\": 5, \"mmsi\": "
        ++ print_int (pos e.mmsi)
        ++ codes ", \"rxtime\": \""
        ++ tbuf
        ++ codes "\"") in
      let json = append_if (nonneg e.imo) (codes ", \"imo\": " ++ print_int e.imo) json in
      let json =
        append_if (nonneg e.shiptype) (codes ", \"shiptype\": " ++ print_int e.shiptype) json in
      let json = append_string (codes "callsign") e.callsign json in
      let json = append_string (codes "shipname") (some name) json in
      let json = append_string (codes "destination") e.destination json in
      let sized = nonneg e.a && nonneg e.b in
      let json = append_if sized (codes ", \"length\": " ++ print_int (e.a +ℤ e.b)) json in
      let json = append_if sized (codes ", \"ref_front\": " ++ print_int e.a) json in
      let json =
        append_if (nonneg_float e.draught) (codes ", \"draught\": " ++ print_float 1 e.draught)
          json in
      let wide = nonneg e.c && nonneg e.d in
      let json = append_if wide (codes ", \"width\": " ++ print_int (e.c +ℤ e.d)) json in
      let json = append_if wide (codes ", \"ref_left\": " ++ print_int e.c) json in
      str_append (some json) (codes "}")

  -- `if ((e->mmsi) && (e->name)) { ... }`
  unfoldable pub export_data : Option (List ℕ) → CacheEnt → Exporter → Exporter
  unfolding time_jsonais append_named
  export_data none e st = st
  export_data (some name) e st =
      let tbuf = (time_jsonais e.received_data st.tbuf tbuf_len).1 in
      let json = append_named name e tbuf st.exported st.json in
      if not (e.mmsi == 0)
      then record { json = json; exported = st.exported + 1; tbuf = tbuf }
      else st

  -- What `if (e->persons_on_board >= 0) { ... }` appends to `json`.
  unfoldable pub append_persons : CacheEnt → (tbuf : List ℕ) (exported : ℕ) (json : List ℕ) → List ℕ
  unfolding separator str_append
  append_persons e tbuf exported json = str_append (some json) (
      separator exported
      ++ codes "{\"msgtype\": 8, \"mmsi\": "
      ++ print_int (pos e.mmsi)
      ++ codes ", \"persons_on_board\": "
      ++ print_int e.persons_on_board
      ++ codes ", \"rxtime\": \""
      ++ tbuf
      ++ codes "\"}")

  -- `if (e->persons_on_board >= 0) { ... }`
  unfoldable pub export_persons : CacheEnt → Exporter → Exporter
  unfolding time_jsonais nonneg append_persons
  export_persons e st =
      let tbuf = (time_jsonais e.received_persons_on_board st.tbuf tbuf_len).1 in
      let json = append_persons e tbuf st.exported st.json in
      if nonneg e.persons_on_board
      then record { json = json; exported = st.exported + 1; tbuf = tbuf }
      else st

  -- The body of the loop, for the entries that it visits in turn.
  unfoldable pub export_entries : List (Node CacheEnt) → Exporter → Exporter
  unfolding export_position export_data export_persons
  export_entries [] st = st
  export_entries ((key, e) ∷ entries) st =
      export_entries entries (export_persons e (export_data e.name e (export_position e st)))

-- The text before the messages.
unfoldable pub opening : (tbuf mycall : List ℕ) → List ℕ
unfolding str_append
opening tbuf mycall = str_append none (
    codes "{\n\t\"protocol\": \"jsonais\",\n\t\"encodetime\": \""
    ++ tbuf
    ++ codes "\",\n\t\"groups\": [\n\t\t{\n\t\t\t\"path\": [ { \"name\": \""
    ++ mycall
    ++ codes "\" } ],\n\t\t\t\"msgs\": [\n")

-- The text behind the messages.
abbrev pub closing : List ℕ
closing = codes "\n\n\t\t\t]\n\t\t}\n\t]\n}\n"

-- A POST request to an uplink.
pub record Post : Type 0 where
  pub url : List ℕ
  pub body : List ℕ

-- `jsonout_post_all`
unfoldable pub jsonout_post_all : List Uplink → (json : List ℕ) → List Post
jsonout_post_all [] json = []
jsonout_post_all (up ∷ uplinks) json =
    let rest = jsonout_post_all uplinks json in
    if up.proto == uplink_json then record { url = up.url; body = json } ∷ rest else rest

-- `jsonout_export`: the new cache, and what is posted. `tbuf` is the buffer on the stack.
unfoldable pub jsonout_export :
    Libc → (now : ℕ) (tbuf mycall : List ℕ) → List Uplink → Cache → Option (Cache × List Post)
unfolding time_jsonais export_entries opening str_append jsonout_post_all cache_rotate drain
jsonout_export lib now tbuf mycall uplinks cache_spt =
    let tbuf' = (time_jsonais lib now tbuf tbuf_len).1 in
    let (sp, fresh) = cache_rotate cache_spt in
    do
      (visited, left) ← drain sp
      let start : Exporter = record { json = opening tbuf' mycall; exported = 0; tbuf = tbuf' }
      let st = export_entries lib visited start
      let json = str_append (some st.json) closing
      some (fresh, if st.exported == 0 then [] else jsonout_post_all uplinks json)
