-- ===== src/Protodec/Nmea/Sentences.antt =====
-- The sentences of `protodec_generate_nmea`, against their description: how many there are, what
-- each of them holds, and its checksum.
use gnuais.Common.{
  ◌∙◌, ℕ, zero, suc, ◌+◌, ◌-◌, ◌*◌, ◌≤◌, ◌<◌, min, bit_xor, ◌≡◌, refl, ap, ◌≢◌, some, List, [], ◌∷◌,
  ◌++◌, map, true, false, inl, inr, Bool-cases, arith, ltb, ◌==◌, length, All, All-append,
  zero-bit_xor,
}
use gnuais.Protodec.Henten.{IsBit, field, henten-field}
use gnuais.Protodec.Nmea.{
  senlen, armor, fill, sentences_of, header, fill_digit, checksum, checksum_digits, finish,
  sentence_loop, fits, generate_nmea,
}

-- The `n` groups of six bits from `pos` on.
unfoldable pub sixbits : (n pos : ℕ) → List ℕ → List ℕ
sixbits zero pos frame = []
sixbits (suc n) pos frame = field pos 6 frame ∷ sixbits n (pos + 6) frame

-- The exclusive or of all characters of a text.
unfoldable pub xor_all : ℕ → List ℕ → ℕ
xor_all acc [] = acc
xor_all acc (c ∷ cs) = xor_all (bit_xor acc c) cs

-- The fields of a sentence, and the sentence: '*' and the checksum of the fields follow them.
unfoldable pub fields : (sentences num seqnr fill : ℕ) → List ℕ → List ℕ
fields sentences num seqnr fill data_part =
    header sentences num seqnr ++ (data_part ++ b',' ∷ fill ∷ [])

unfoldable pub sentence : (sentences num seqnr fill : ℕ) → List ℕ → List ℕ
unfolding fields
sentence sentences num seqnr fill data_part =
    let body = fields sentences num seqnr fill data_part in
    body ++ b'*' ∷ checksum_digits (xor_all 0 body)

checksum-xor_all :
    (acc : ℕ) (cs rest : List ℕ)
    → All (λ c. c ≢ b'*') cs
    → checksum acc (cs ++ b'*' ∷ rest) ≡ some (xor_all acc cs)
unfolding checksum xor_all
checksum-xor_all acc [] rest p = refl
checksum-xor_all acc (c ∷ cs) rest p =
    let other : (c == b'*') ≡ false = ground (arith, p.0) in
    rw other (checksum-xor_all (bit_xor acc c) cs rest p.1)

pub armor-ge : (x : ℕ) → 48 ≤ armor x
unfolding armor
armor-ge x = ground arith

module _ (frame : List ℕ) (bits : All IsBit frame) where
  fill-sixbits :
      (left m pos bufferlen : ℕ)
      → bufferlen ≡ pos + 6 * m
      → bufferlen ≤ length frame
      → fill bufferlen frame left pos
        ≡ some (map armor (sixbits (min left m) pos frame), pos + 6 * min left m)
  unfolding fill sixbits
  fill-sixbits zero m pos bufferlen e h =
      let none_left : min 0 m ≡ 0 = omega arith in
      rw none_left (ap (λ (n : ℕ). some ([], n)) (omega arith))
  fill-sixbits (suc left) zero pos bufferlen e h =
      let stop : ltb pos bufferlen ≡ false = ground arith in
      let none_left : min (suc left) 0 ≡ 0 = omega arith in
      rw (stop, none_left) (ap (λ (n : ℕ). some ([], n)) (omega arith))
  fill-sixbits (suc left) (suc m) pos bufferlen e h =
      let go : ltb pos bufferlen ≡ true = ground arith in
      let both : min (suc left) (suc m) ≡ suc (min left m) = omega arith in
      let end : pos + 6 + 6 * min left m ≡ pos + 6 * suc (min left m) = omega arith in
      rw (
        go,
        both,
        henten-field pos 6 frame bits (omega arith) (omega arith),
        fill-sixbits left m (pos + 6) bufferlen (omega arith) h,
        end,
      )

header-ne_star : (sentences num seqnr : ℕ) → All (λ c. c ≢ b'*') (header sentences num seqnr)
unfolding header
header-ne_star sentences num seqnr = elim (Bool-cases (ltb 1 sentences)) [
  | inl many ↦ rw many (omega arith)
  | inr one ↦ rw one (omega arith)
]

pub fields-ne_star :
    (sentences num seqnr digit : ℕ) (data_part : List ℕ)
    → digit ≢ b'*'
    → All (λ c. c ≢ b'*') data_part
    → All (λ c. c ≢ b'*') (fields sentences num seqnr digit data_part)
unfolding fields
fields-ne_star sentences num seqnr digit data_part f p =
    All-append (λ c. c ≢ b'*') (header sentences num seqnr) (data_part ++ b',' ∷ digit ∷ [])
      (header-ne_star sentences num seqnr)
      (All-append (λ c. c ≢ b'*') data_part (b',' ∷ digit ∷ []) p (omega arith, (f, tt)))

finish-xor_all :
    (l : List ℕ)
    → l ≢ []
    → All (λ c. c ≢ b'*') l
    → finish l ≡ some (l ++ b'*' ∷ checksum_digits (xor_all 0 l))
unfolding finish xor_all
finish-xor_all [] ne p = absurd (ne refl)
finish-xor_all (c ∷ body) ne p = rw (checksum-xor_all c body (48 ∷ 48 ∷ []) p.1, zero-bit_xor c)

finish-sentence :
    (sentences num seqnr digit : ℕ) (data_part : List ℕ)
    → digit ≢ b'*'
    → All (λ c. c ≢ b'*') data_part
    → finish (header sentences num seqnr ++ (data_part ++ b',' ∷ digit ∷ []))
      ≡ some (sentence sentences num seqnr digit data_part)
unfolding sentence
finish-sentence sentences num seqnr digit data_part f p =
    unfold fields in
    finish-xor_all (fields sentences num seqnr digit data_part) (unfold header in (λ e. cc))
      (fields-ne_star sentences num seqnr digit data_part f p)

pub armored-ne_star :
    (n pos : ℕ) (frame : List ℕ) → All (λ c. c ≢ b'*') (map armor (sixbits n pos frame))
unfolding sixbits
armored-ne_star zero pos frame = tt
armored-ne_star (suc n) pos frame =
    (omega (arith, armor-ge (field pos 6 frame)), armored-ne_star n (pos + 6) frame)

-- The characters of `n` groups from `pos` on.
abbrev pub armored : (n pos : ℕ) → List ℕ → List ℕ
armored n pos frame = map armor (sixbits n pos frame)

length-sixbits : (n pos : ℕ) (frame : List ℕ) → length (map armor (sixbits n pos frame)) ≡ n
unfolding sixbits
length-sixbits zero pos frame = refl
length-sixbits (suc n) pos frame = ap suc (length-sixbits n (pos + 6) frame)

room-senlen : (n : ℕ) → n ≤ 61 → fits (13 + n) ≡ true
unfolding fits
room-senlen n h = ground arith

armored-fits :
    (n pos : ℕ) (frame : List ℕ) → n ≤ 61 → fits (13 + length (armored n pos frame)) ≡ true
armored-fits n pos frame h = ap (λ k. fits (13 + k)) (length-sixbits n pos frame) ∙ room-senlen n h

module _ (frame : List ℕ) (bits : All IsBit frame) (fillbits seqnr m : ℕ) (small : fillbits < 6)
    (whole : 6 * m ≤ length frame) where
  -- Up to 61 groups of six bits go out as one sentence on "channel A".
  pub generate_nmea-single :
      0 < m
      → m ≤ 61
      → generate_nmea (6 * m) fillbits seqnr frame
        ≡ some (sentence 1 1 seqnr 48 (armored m 0 frame) ∷ [])
  unfolding generate_nmea sentence_loop
  generate_nmea-single p q =
      let room = armored-fits m 0 frame q in
      let count : sentences_of (6 * m) ≡ 1 = unfold sentences_of in ground arith in
      let all : min senlen m ≡ m = omega arith in
      let filled = fill-sixbits frame bits senlen m 0 (6 * m) (omega arith) whole in
      rw (
        count,
        filled,
        all,
        room,
        finish-sentence 1 1 seqnr 48 (armored m 0 frame) (omega arith) (armored-ne_star m 0 frame),
      )

  -- More than 61 groups go out as two sentences with the sequence number; the second one carries
  -- the rest, and the number of fill bits.
  pub generate_nmea-double :
      61 < m
      → m ≤ 75
      → generate_nmea (6 * m) fillbits seqnr frame
        ≡ some (
            sentence 2 1 seqnr 48 (armored 61 0 frame)
            ∷ sentence 2 2 seqnr (48 + fillbits) (armored (m - 61) 366 frame)
            ∷ [])
  unfolding generate_nmea sentence_loop fill_digit
  generate_nmea-double p q =
      let room = armored-fits 61 0 frame (omega arith) in
      let room' = armored-fits (m - 61) 366 frame (omega arith) in
      let count : sentences_of (6 * m) ≡ 2 = unfold sentences_of in ground arith in
      let full : min senlen m ≡ 61 = omega arith in
      let rest : min senlen (m - 61) ≡ m - 61 = omega arith in
      let first = fill-sixbits frame bits senlen m 0 (6 * m) (omega arith) whole in
      let second = fill-sixbits frame bits senlen (m - 61) 366 (6 * m) (omega arith) whole in
      rw (
        count,
        first,
        full,
        room,
        finish-sentence 2 1 seqnr 48 (armored 61 0 frame) (omega arith)
            (armored-ne_star 61 0 frame),
        second,
        rest,
        room',
        finish-sentence 2 2 seqnr (48 + fillbits) (armored (m - 61) 366 frame) (omega arith)
            (armored-ne_star (m - 61) 366 frame),
      )
