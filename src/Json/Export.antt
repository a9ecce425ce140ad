-- ===== src/Json/Export.antt =====
-- `jsonout_export` of src/out_json.c on a whole cache: the document that it posts.
use gnuais.Common.{
  ℕ, ◌+◌, ◌≤◌, ◌≡◌, refl, sym, ap, ◌∙◌, Bool, true, false, ◌&&◌, not, Option, none, some, List, [],
  ◌∷◌, ◌++◌, append_assoc, append-nil, arith, ◌==◌, if◌then◌else◌, length, codes, length-append,
  map, inl, inr, Bool-cases,
}
use gnuais.Splay.{Node, sp_init}
use gnuais.Splay.Order.{inorder}
use gnuais.Splay.Refinement.{IsValid}
use gnuais.Splay.Drain.{drain-inorder}
use gnuais.Hlog.{str_append}
use gnuais.Cache.{CacheEnt, Cache, cache_rotate}
use gnuais.Json.{
  Libc, Uplink, Post, Exporter, off_zero, nonneg, separator, export_position, export_data,
  export_persons, export_entries, append_position, append_named, append_persons, opening, closing,
  uplink_json, jsonout_post_all, jsonout_export,
}
use gnuais.Json.Messages.{
  stamp, stamp_short, time_jsonais-stamp, message, persons_message, position_members, data_members,
  append_position-message, append_named-message, append_persons-message,
}
use gnuais.Json.Pieces.{Prints, Emits, Emits-nothing, Emits-both, glue, take-all}

-- Texts with a text between each two.
unfoldable join : (between : List ℕ) → List (List ℕ) → List ℕ
join between [] = []
join between (m ∷ []) = m
join between (m ∷ n ∷ ms) = m ++ (between ++ join between (n ∷ ms))

separator-later : (k : ℕ) → separator (k + 1) ≡ codes ",\n"
unfolding separator
separator-later k = grind arith

glue-join :
    (k : ℕ) (m : List ℕ) (ms : List (List ℕ))
    → glue k (m ∷ ms) ≡ separator k ++ join (codes ",\n") (m ∷ ms)
unfolding glue join
glue-join k m [] = ap (λ s. separator k ++ s) (append-nil m)
glue-join k m (n ∷ ms) =
    ap (λ s. separator k ++ (m ++ s))
      (glue-join (k + 1) n ms ∙ ap (λ s. s ++ join (codes ",\n") (n ∷ ms)) (separator-later k))

Emits-one :
    (m : List ℕ) (st : Exporter) (tbuf : List ℕ)
    → Emits (m ∷ []) st (record {
      json = st.json ++ (separator st.exported ++ m);
      exported = st.exported + 1;
      tbuf = tbuf;
    })
unfolding glue
Emits-one m st tbuf = record {
  json = ap (λ s. st.json ++ (separator st.exported ++ s)) (sym (append-nil m));
  exported = refl;
}

unfoldable only_if : Bool → List ℕ → List (List ℕ)
only_if true m = m ∷ []
only_if false m = []

-- A message that is appended on a condition.
unfoldable append_message : Bool → (tbuf json : List ℕ) → Exporter → Exporter
append_message b tbuf json st =
    if b then record { json = json; exported = st.exported + 1; tbuf = tbuf } else st

append_message-Emits :
    (b : Bool) (m : List ℕ) (st : Exporter) {tbuf tbuf' : List ℕ} (json : List ℕ → List ℕ)
    → tbuf ≡ tbuf'
    → json tbuf' ≡ st.json ++ (separator st.exported ++ m)
    → Emits (only_if b m) st (append_message b tbuf (json tbuf) st)
unfolding only_if append_message
append_message-Emits b m st json timed written = rw (timed, written) (by_cases b _)
  where
    by_cases :
        (b : Bool) (tb : List ℕ)
        → Emits (only_if b m) st (
            if b
            then record {
              json = st.json ++ (separator st.exported ++ m);
              exported = st.exported + 1;
              tbuf = tb;
            }
            else st)
    by_cases true tb = Emits-one m st tb
    by_cases false tb = Emits-nothing st

module _ (lib : Libc) (prints : Prints lib) where
  -- The messages about a ship: its position, its static data and the persons on board.
  unfoldable position_messages : CacheEnt → List (List ℕ)
  unfolding only_if message position_members
  position_messages e =
      only_if (not (e.mmsi == 0) && (off_zero e.lat && off_zero e.lon))
        (message lib prints (codes "3") e.mmsi e.received_pos (position_members lib prints e))

  unfoldable data_messages : Option (List ℕ) → CacheEnt → List (List ℕ)
  unfolding only_if message data_members
  data_messages none e = []
  data_messages (some name) e =
      only_if (not (e.mmsi == 0))
        (message lib prints (codes "5") e.mmsi e.received_data (data_members lib prints name e))

  unfoldable persons_messages : CacheEnt → List (List ℕ)
  unfolding only_if persons_message
  persons_messages e = only_if (nonneg e.persons_on_board) (persons_message lib prints e)

  unfoldable pub ship_messages : List (Node CacheEnt) → List (List ℕ)
  unfolding position_messages data_messages persons_messages
  ship_messages [] = []
  ship_messages ((key, e) ∷ ships) =
      (position_messages e ++ (data_messages e.name e ++ persons_messages e)) ++ ship_messages ships

  export_position-Emits :
      (e : CacheEnt) (st : Exporter) → Emits (position_messages e) st (export_position lib e st)
  unfolding export_position position_messages append_message
  export_position-Emits e st =
      append_message-Emits _ _ st (λ tbuf. append_position lib e tbuf st.exported st.json)
        (time_jsonais-stamp lib prints e.received_pos st.tbuf)
        (append_position-message lib prints e st.exported st.json)

  export_data-Emits :
      (o : Option (List ℕ)) (e : CacheEnt) (st : Exporter)
      → Emits (data_messages o e) st (export_data lib o e st)
  unfolding export_data data_messages append_message
  export_data-Emits none e st = Emits-nothing st
  export_data-Emits (some name) e st =
      append_message-Emits _ _ st (λ tbuf. append_named lib name e tbuf st.exported st.json)
        (time_jsonais-stamp lib prints e.received_data st.tbuf)
        (append_named-message lib prints name e st.exported st.json)

  export_persons-Emits :
      (e : CacheEnt) (st : Exporter) → Emits (persons_messages e) st (export_persons lib e st)
  unfolding export_persons persons_messages append_message
  export_persons-Emits e st =
      append_message-Emits _ _ st (λ tbuf. append_persons lib e tbuf st.exported st.json)
        (time_jsonais-stamp lib prints e.received_persons_on_board st.tbuf)
        (append_persons-message lib prints e st.exported st.json)

  export_entries-Emits :
      (ships : List (Node CacheEnt)) (st : Exporter)
      → Emits (ship_messages ships) st (export_entries lib ships st)
  unfolding export_entries ship_messages
  export_entries-Emits [] st = Emits-nothing st
  export_entries-Emits ((key, e) ∷ ships) st =
      let a = export_position-Emits e st in
      let b = export_data-Emits e.name e _ in
      let c = export_persons-Emits e _ in
      Emits-both (Emits-both a (Emits-both b c)) (export_entries-Emits ships _)

  unfoldable document_head : (now : ℕ) (mycall : List ℕ) → List ℕ
  unfolding stamp
  document_head now mycall =
      codes "{\n\t\"protocol\": \"jsonais\",\n\t\"encodetime\": \""
      ++ stamp lib prints now
      ++ codes "\",\n\t\"groups\": [\n\t\t{\n\t\t\t\"path\": [ { \"name\": \""
      ++ mycall
      ++ codes "\" } ],\n\t\t\t\"msgs\": [\n"

  -- The document with some messages.
  unfoldable document : (now : ℕ) (mycall : List ℕ) → List (List ℕ) → List ℕ
  unfolding document_head join
  document now mycall ms =
      document_head now mycall ++ (join (codes ",\n") ms ++ codes "\n\n\t\t\t]\n\t\t}\n\t]\n}\n")

  -- A post of a text to each uplink that speaks jsonais.
  sends_json : Uplink → Bool
  sends_json up = up.proto == uplink_json

  json_uplinks : List Uplink → List Uplink
  unfolding sends_json
  json_uplinks [] = []
  json_uplinks (up ∷ ups) = if sends_json up then up ∷ json_uplinks ups else json_uplinks ups

  unfoldable to_each : List Uplink → (text : List ℕ) → List Post
  unfolding json_uplinks
  to_each ups text = map (λ up. record { url = up.url; body = text }) (json_uplinks ups)

  jsonout_post_all-to_each :
      (ups : List Uplink) (text : List ℕ) → jsonout_post_all ups text ≡ to_each ups text
  unfolding jsonout_post_all to_each json_uplinks sends_json
  jsonout_post_all-to_each [] text = refl
  jsonout_post_all-to_each (up ∷ ups) text = elim (Bool-cases (up.proto == uplink_json)) [
    | inl json ↦
        rw json
          (ap (λ ps. record { url = up.url; body = text } ∷ ps) (jsonout_post_all-to_each ups text))
    | inr other ↦ rw other (jsonout_post_all-to_each ups text)
  ]

  -- No document is posted when there is nothing to tell.
  unfoldable pub documents : (now : ℕ) (mycall : List ℕ) → List Uplink → List (List ℕ) → List Post
  unfolding document to_each
  documents now mycall uplinks [] = []
  documents now mycall uplinks (m ∷ ms) = to_each uplinks (document now mycall (m ∷ ms))

  opening-clip :
      (now : ℕ) (mycall : List ℕ)
      → length mycall ≤ 1000
      → opening (stamp lib prints now) mycall ≡ document_head now mycall
  unfolding opening str_append document_head
  opening-clip now mycall h =
      take-all 8191 _ (simp length-append (omega (arith, stamp_short lib prints now, h)))

  -- What is posted after the messages `ms`.
  posts-documents :
      (now : ℕ) (mycall : List ℕ) (uplinks : List Uplink) (ms : List (List ℕ)) (st : Exporter)
      → length mycall ≤ 1000
      → st.json ≡ opening (stamp lib prints now) mycall ++ glue 0 ms
      → st.exported ≡ 0 + length ms
      → (if st.exported == 0
          then []
          else jsonout_post_all uplinks (str_append (some st.json) closing))
        ≡ documents now mycall uplinks ms
  unfolding documents document str_append
  posts-documents now mycall uplinks [] st h j n = rw n refl
  posts-documents now mycall uplinks (m ∷ ms) st h j n =
      let some_message : (st.exported == 0) ≡ false = grind (arith, n) in
      let text : st.json ≡ opening (stamp lib prints now) mycall ++ join (codes ",\n") (m ∷ ms) =
        j
        ∙ ap (λ s. opening (stamp lib prints now) mycall ++ s)
            (unfold separator in glue-join 0 m ms) in
      rw (some_message, text)
        (jsonout_post_all-to_each uplinks _
          ∙ ap (to_each uplinks) (
              ap (λ s. s ++ join (codes ",\n") (m ∷ ms) ++ closing) (opening-clip now mycall h)
              ∙ append_assoc (document_head now mycall) (join (codes ",\n") (m ∷ ms)) closing))

  pub jsonout_export-documents :
      (now : ℕ) (tbuf mycall : List ℕ) (uplinks : List Uplink) (cache_spt : Cache)
      → IsValid cache_spt
      → length mycall ≤ 1000
      → jsonout_export lib now tbuf mycall uplinks cache_spt
        ≡ some (sp_init, documents now mycall uplinks (ship_messages (inorder cache_spt.root)))
  unfolding jsonout_export cache_rotate
  jsonout_export-documents now tbuf mycall uplinks cache_spt v h =
      let start : Exporter = record {
        json = opening (stamp lib prints now) mycall;
        exported = 0;
        tbuf = stamp lib prints now;
      } in
      let all = export_entries-Emits (inorder cache_spt.root) start in
      rw (drain-inorder cache_spt v, time_jsonais-stamp lib prints now tbuf)
        (ap (λ posts. some (sp_init, posts))
          (posts-documents now mycall uplinks (ship_messages (inorder cache_spt.root))
            (export_entries lib (inorder cache_spt.root) start) h all.json all.exported))
