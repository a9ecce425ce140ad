-- ===== src/Json/Messages.antt =====
-- The messages of one entry of the cache, written out as texts, against what `jsonout_export`
-- appends for it.
use gnuais.Common.{
  ℕ, ◌+◌, ◌≤◌, ◌≡◌, refl, ap, ◌∙◌, true, ◌&&◌, some, List, [], ◌∷◌, ◌++◌, append_assoc, arith, ℤ,
  pos, ◌+ℤ◌, length, take, codes, length-append,
}
use gnuais.Cache.{CacheEnt}
use gnuais.Json.{
  Libc, tbuf_len, nonneg, nonneg_float, separator, time_jsonais, append_position, append_named,
  append_persons,
}
use gnuais.Json.Pieces.{
  Member, Prints, append_members, append_members-members_text, clip, in_order, length-take_le,
  member, members_text, quoted, separator_short, take-all, on, string,
}

module _ (lib : Libc) (prints : Prints lib) where
  open lib use {print_int, print_float, print_padded}

  unfoldable pub stamp : ℕ → List ℕ
  stamp t =
      let dt = prints.tm t in
      take 14 (
        print_padded 4 (dt.tm_year + 1900)
        ++ print_padded 2 (dt.tm_mon + 1)
        ++ print_padded 2 dt.tm_mday
        ++ print_padded 2 dt.tm_hour
        ++ print_padded 2 dt.tm_min
        ++ print_padded 2 dt.tm_sec)

  pub time_jsonais-stamp : (t : ℕ) (buf : List ℕ) → (time_jsonais lib t buf tbuf_len).1 ≡ stamp t
  unfolding time_jsonais stamp
  time_jsonais-stamp t buf = rw (prints.knows t)

  -- The first bytes of a message, its members and its end.
  unfoldable pub message : (kind : List ℕ) (mmsi : ℕ) (rxtime : ℕ) → List Member → List ℕ
  unfolding stamp members_text
  message kind mmsi rxtime members =
      codes "{\"msgtype\": "
      ++ kind
      ++ codes ", \"mmsi\": "
      ++ print_int (pos mmsi)
      ++ member (codes "rxtime") (quoted (stamp rxtime))
      ++ members_text members
      ++ codes "}"

  -- The message with the persons on board, whose time stands last.
  unfoldable pub persons_message : CacheEnt → List ℕ
  unfolding stamp
  persons_message e =
      codes "{\"msgtype\": 8, \"mmsi\": "
      ++ print_int (pos e.mmsi)
      ++ member (codes "persons_on_board") (print_int e.persons_on_board)
      ++ member (codes "rxtime") (quoted (stamp e.received_persons_on_board))
      ++ codes "}"

  pub stamp_short : (t : ℕ) → length (stamp t) ≤ 14
  unfolding stamp
  stamp_short t = length-take_le 14 _

  unfoldable pub position_members : CacheEnt → List Member
  unfolding nonneg nonneg_float
  position_members e =
      on true
        (member (codes "lat") (print_float 7 e.lat) ++ codes ", \"lon\": " ++ print_float 7 e.lon)
      ∷ on (nonneg_float e.course) (member (codes "course") (print_float 1 e.course))
      ∷ on (nonneg e.hdg) (member (codes "heading") (print_int e.hdg))
      ∷ on (nonneg_float e.sog) (member (codes "speed") (print_float 1 e.sog))
      ∷ on (nonneg e.navstat) (member (codes "status") (print_int e.navstat))
      ∷ []

  unfoldable pub data_members : (name : List ℕ) → CacheEnt → List Member
  unfolding nonneg nonneg_float
  data_members name e =
      on (nonneg e.imo) (member (codes "imo") (print_int e.imo))
      ∷ on (nonneg e.shiptype) (member (codes "shiptype") (print_int e.shiptype))
      ∷ string (codes "callsign") e.callsign
      ∷ string (codes "shipname") (some name)
      ∷ string (codes "destination") e.destination
      ∷ on (nonneg e.a && nonneg e.b) (member (codes "length") (print_int (e.a +ℤ e.b)))
      ∷ on (nonneg e.a && nonneg e.b) (member (codes "ref_front") (print_int e.a))
      ∷ on (nonneg_float e.draught) (member (codes "draught") (print_float 1 e.draught))
      ∷ on (nonneg e.c && nonneg e.d) (member (codes "width") (print_int (e.c +ℤ e.d)))
      ∷ on (nonneg e.c && nonneg e.d) (member (codes "ref_left") (print_int e.c))
      ∷ []

  -- The first text of a message is not cut.
  head-clip :
      (k : ℕ) (n : ℤ) (t : ℕ) (a b c : List ℕ)
      → length a + length b + length c ≤ 100
      → clip (separator k ++ a ++ print_int n ++ b ++ stamp t ++ c)
        ≡ separator k ++ a ++ print_int n ++ b ++ stamp t ++ c
  head-clip k n t a b c h =
      take-all 8191 _
        (simp length-append (omega (arith, separator_short k, prints.int_short n, stamp_short t)))

  persons-clip :
      (k : ℕ) (m n : ℤ) (t : ℕ) (a b c d : List ℕ)
      → length a + length b + length c + length d ≤ 100
      → clip (separator k ++ a ++ print_int m ++ b ++ print_int n ++ c ++ stamp t ++ d)
        ≡ separator k ++ a ++ print_int m ++ b ++ print_int n ++ c ++ stamp t ++ d
  persons-clip k m n t a b c d h = take-all 8191 _ (
      simp length-append
        (omega (arith, separator_short k, prints.int_short m, prints.int_short n, stamp_short t)))

  -- What follows the head of a message.
  members-message :
      (kind : List ℕ) (mmsi t k : ℕ) (json : List ℕ) (members : List Member)
      → length kind ≤ 1
      → append_members members (
            json
            ++ clip (
                separator k
                ++ (codes "{\"msgtype\": " ++ kind ++ codes ", \"mmsi\": ")
                ++ print_int (pos mmsi)
                ++ codes ", \"rxtime\": \""
                ++ stamp t
                ++ codes "\""))
          ++ codes "}"
        ≡ json ++ (separator k ++ message kind mmsi t members)
  unfolding message
  members-message kind mmsi t k json members h =
      let a = codes "{\"msgtype\": " ++ kind ++ codes ", \"mmsi\": " in
      let b = codes ", \"rxtime\": \"" in
      let c = codes "\"" in
      ap (λ s. append_members members (json ++ s) ++ codes "}")
        (head-clip k (pos mmsi) t a b c (simp length-append (omega arith)))
      ∙ (ap (λ s. s ++ codes "}") (append_members-members_text members _)
          ∙ (in_order json (separator k) a (print_int (pos mmsi)) b (stamp t) c
                (members_text members) (codes "}")
              ∙ simp append_assoc refl))

  pub append_position-message :
      (e : CacheEnt) (k : ℕ) (json : List ℕ)
      → append_position lib e (stamp e.received_pos) k json
        ≡ json ++ (separator k ++ message (codes "3") e.mmsi e.received_pos (position_members e))
  unfolding append_position append_members position_members
  append_position-message e k json =
      members-message (codes "3") e.mmsi e.received_pos k json (position_members e) (omega arith)

  pub append_named-message :
      (name : List ℕ) (e : CacheEnt) (k : ℕ) (json : List ℕ)
      → append_named lib name e (stamp e.received_data) k json
        ≡ json ++ (separator k ++ message (codes "5") e.mmsi e.received_data (data_members name e))
  unfolding append_named append_members data_members
  append_named-message name e k json =
      members-message (codes "5") e.mmsi e.received_data k json (data_members name e) (omega arith)

  pub append_persons-message :
      (e : CacheEnt) (k : ℕ) (json : List ℕ)
      → append_persons lib e (stamp e.received_persons_on_board) k json
        ≡ json ++ (separator k ++ persons_message e)
  unfolding append_persons persons_message
  append_persons-message e k json =
      ap (λ s. json ++ s)
        (persons-clip k (pos e.mmsi) e.persons_on_board e.received_persons_on_board
            (codes "{\"msgtype\": 8, \"mmsi\": ") (codes ", \"persons_on_board\": ")
            (codes ", \"rxtime\": \"") (codes "\"}") (omega arith)
          ∙ simp append_assoc refl)
