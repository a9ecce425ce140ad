-- ===== src/Protodec/Nmea/Receive.antt =====
-- A reader of NMEA sentences, written from the sentence format alone, and that it gets back from
-- the sentences of `protodec_generate_nmea` the bits of the frame.
use gnuais.Common.{
  ℕ, zero, suc, ◌+◌, ◌-◌, ◌*◌, ◌≤◌, ◌<◌, ◌≡◌, refl, ap, ◌≢◌, Option, none, some, List, [], ◌∷◌,
  ◌++◌, map, append-nil, Bool, true, false, inl, inr, Bool-cases, arith, ltb, ◌==◌, if◌then◌else◌,
  ◌>>=◌, length, take, drop, All, All-append, length-append, bit_xor, bit_xor-lt,
}
use native.Mathlib.Decide.{dec_lt}
use native.Mathlib.Nat.{suc-add, zero-add}
use gnuais.Protodec.Henten.{IsBit, field-lt}
use gnuais.Protodec.Nmea.{armor, header, checksum_digits, generate_nmea}
use gnuais.Protodec.Nmea.Sentences.{
  sixbits, xor_all, fields, fields-ne_star, sentence, armored, armored-ne_star,
  generate_nmea-single, generate_nmea-double,
}

-- The value of a payload character.
unfoldable pub dearmor : ℕ → ℕ
dearmor c = if ltb 40 (c - 48) then c - 56 else c - 48

-- The text before the first '*', and the text after it.
unfoldable pub split_star : List ℕ → Option (List ℕ × List ℕ)
split_star [] = none
split_star (c ∷ cs) =
    if c == b'*'
    then some ([], cs)
    else (do (before, after) ← split_star cs; some (c ∷ before, after))

hex_value : ℕ → ℕ
hex_value c = if ltb c 58 then c - 48 else c - 55

-- Two hexadecimal digits that are the number `n`.
unfoldable pub is_checksum : ℕ → List ℕ → Bool
unfolding hex_value
is_checksum n [] = false
is_checksum n (a ∷ []) = false
is_checksum n (a ∷ b ∷ []) = 16 * hex_value a + hex_value b == n
is_checksum n (a ∷ b ∷ c ∷ cs) = false

-- The groups of six bits of a sentence: its payload stands behind thirteen characters, and before
-- a comma and the fill digit.
unfoldable pub read_sentence : List ℕ → Option (List ℕ)
unfolding dearmor split_star is_checksum
read_sentence s = do
  (body, digits) ← split_star s
  let rest = drop 13 body
  if is_checksum (xor_all 0 body) digits
      then some (map dearmor (take (length rest - 2) rest))
      else none

unfoldable pub receive : List (List ℕ) → Option (List ℕ)
unfolding read_sentence
receive [] = some []
receive (s ∷ ss) = do part ← read_sentence s; rest ← receive ss; some (part ++ rest)

dearmor-armor : (x : ℕ) → x < 64 → dearmor (armor x) ≡ x
unfolding dearmor armor
dearmor-armor x h = ground arith

digits-is_checksum : (n : ℕ) → n < 256 → is_checksum n (checksum_digits n) ≡ true
unfolding is_checksum checksum_digits hex_value
digits-is_checksum n h = ground arith

split_star_first :
    (body rest : List ℕ)
    → All (λ c. c ≢ b'*') body
    → split_star (body ++ b'*' ∷ rest) ≡ some (body, rest)
unfolding split_star
split_star_first [] rest p = refl
split_star_first (c ∷ body) rest p =
    let other : (c == b'*') ≡ false = ground (arith, p.0) in
    rw (other, split_star_first body rest p.1)

xor_all-lt : (acc : ℕ) (cs : List ℕ) → acc < 256 → All (λ c. c < 256) cs → xor_all acc cs < 256
unfolding xor_all
xor_all-lt acc [] h p = h
xor_all-lt acc (c ∷ cs) h p = xor_all-lt (bit_xor acc c) cs (bit_xor-lt 8 acc c h p.0) p.1

header-lt :
    (sentences num seqnr : ℕ)
    → sentences ≤ 9
    → num ≤ 9
    → seqnr ≤ 9
    → All (λ c. c < 256) (header sentences num seqnr)
unfolding header
header-lt sentences num seqnr p q r = elim (Bool-cases (ltb 1 sentences)) [
  | inl many ↦ rw many (omega arith)
  | inr one ↦ rw one (omega arith)
]

take-length : (xs ys : List ℕ) → take (length xs) (xs ++ ys) ≡ xs
take-length [] ys = refl
take-length (x ∷ xs) ys = rw (take-length xs ys)

drop-header :
    (sentences num seqnr : ℕ) (rest : List ℕ) → drop 13 (header sentences num seqnr ++ rest) ≡ rest
unfolding header
drop-header sentences num seqnr rest = elim (Bool-cases (ltb 1 sentences)) [
  | inl many ↦ rw many
  | inr one ↦ rw one
]

pub sixbits-append :
    (n k pos : ℕ) (frame : List ℕ)
    → sixbits n pos frame ++ sixbits k (pos + 6 * n) frame ≡ sixbits (n + k) pos frame
unfolding sixbits
sixbits-append zero k pos frame =
    let same : pos + 6 * 0 ≡ pos = omega arith in rw (same, zero-add k)
sixbits-append (suc n) k pos frame =
    let same : pos + 6 * suc n ≡ pos + 6 + 6 * n = omega arith in
    rw (same, suc-add n k, sixbits-append n k (pos + 6) frame)

module _ (frame : List ℕ) (bits : All IsBit frame) where
  armored-lt : (n pos : ℕ) → pos + 6 * n ≤ length frame → All (λ c. c < 256) (armored n pos frame)
  unfolding sixbits armor
  armored-lt zero pos h = tt
  armored-lt (suc n) pos h = (
    ground (arith, field-lt pos 6 frame bits (omega arith)),
    armored-lt n (pos + 6) (omega arith),
  )

  dearmor-armored :
      (n pos : ℕ)
      → pos + 6 * n ≤ length frame
      → map dearmor (armored n pos frame) ≡ sixbits n pos frame
  unfolding sixbits
  dearmor-armored zero pos h = refl
  dearmor-armored (suc n) pos h = rw (
    dearmor-armor _ (field-lt pos 6 frame bits (omega arith)),
    dearmor-armored n (pos + 6) (omega arith),
  )

  read_sentence-sentence :
      (sentences num seqnr digit n pos : ℕ)
      → sentences ≤ 9
      → num ≤ 9
      → seqnr ≤ 9
      → 48 ≤ digit
      → digit < 256
      → pos + 6 * n ≤ length frame
      → read_sentence (sentence sentences num seqnr digit (armored n pos frame))
        ≡ some (sixbits n pos frame)
  unfolding read_sentence sentence
  read_sentence-sentence sentences num seqnr digit n pos p q r d d' h =
      let chars = armored n pos frame in
      let body : List ℕ = fields sentences num seqnr digit chars in
      let tail = b',' ∷ digit ∷ [] in
      let plain =
        fields-ne_star sentences num seqnr digit chars (omega arith)
          (armored-ne_star n pos frame) in
      let bytes : All (λ c. c < 256) body =
        unfold fields in
        All-append (λ c. c < 256) (header sentences num seqnr) (chars ++ tail)
          (header-lt sentences num seqnr p q r)
          (All-append (λ c. c < 256) chars tail (armored-lt n pos h) (omega arith)) in
      let sum = digits-is_checksum (xor_all 0 body) (xor_all-lt 0 body (omega arith) bytes) in
      let behind : drop 13 body ≡ chars ++ tail =
        unfold fields in drop-header sentences num seqnr (chars ++ tail) in
      let size : length (chars ++ tail) - 2 ≡ length chars =
        omega (arith, length-append chars tail) in
      rw (split_star_first body (checksum_digits (xor_all 0 body)) plain, sum, behind, size)
        (rw (take-length chars tail, dearmor-armored n pos h))

  -- For 1 to 75 groups of six bits at the start of a frame of bits that holds them, with fewer than
  -- six fill bits and a digit as sequence number, `protodec_generate_nmea` faults nowhere, and
  -- whoever reads its sentences, checking each checksum, gets back all groups in order.
  pub receive-generate_nmea :
      (fillbits seqnr m : ℕ)
      → fillbits < 6
      → seqnr ≤ 9
      → 0 < m
      → m ≤ 75
      → 6 * m ≤ length frame
      → (generate_nmea (6 * m) fillbits seqnr frame >>= receive) ≡ some (sixbits m 0 frame)
  unfolding receive
  receive-generate_nmea fillbits seqnr m small seq some_groups few fits = elim (dec_lt 61 m) [
    | no one ↦ rw (
      generate_nmea-single frame bits fillbits seqnr m small fits some_groups (omega arith),
      read_sentence-sentence 1 1 seqnr 48 m 0 (omega arith) (omega arith) seq (omega arith)
          (omega arith) (omega arith),
      append-nil,
    )
    | yes two ↦
        let whole : 61 + (m - 61) ≡ m = omega arith in
        rw
          (
            generate_nmea-double frame bits fillbits seqnr m small fits two few,
            read_sentence-sentence 2 1 seqnr 48 61 0 (omega arith) (omega arith) seq (omega arith)
                (omega arith) (omega arith),
            read_sentence-sentence 2 2 seqnr (48 + fillbits) (m - 61) 366 (omega arith)
                (omega arith) seq (omega arith) (omega arith) (omega arith),
            append-nil,
          )
          (ap some (rw whole at (sixbits-append 61 (m - 61) 0 frame)))
  ]
