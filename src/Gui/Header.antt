-- ===== src/Gui/Header.antt =====
-- The front of a sentence, as `threaden` of src/gui/gui.c reads it.
use gnuais.Common.{
  ℕ, suc, ◌+◌, ◌≤◌, ◌≡◌, refl, some, List, ◌∷◌, ◌++◌, append_assoc, pos, negsuc, ◌+ℤ◌, get_elem?,
  true, arith, ltb, inl, inr, Bool-cases, length, drop, length-append,
}
use gnuais.Protodec.Types.{to_char}
use gnuais.Protodec.Nmea.{header, checksum_digits}
use gnuais.Protodec.Nmea.Sentences.{xor_all, fields, sentence}
use gnuais.Gui.Reader.{fifth_comma, is_ais}

pub digit-to_char : (n : ℕ) → n ≤ 9 → to_char (48 + n) +ℤ negsuc 47 ≡ pos n
unfolding to_char
digit-to_char n h = ground arith

-- The bytes of a sentence behind its payload.
abbrev pub tail_of : (sentences num seqnr digit : ℕ) → List ℕ → List ℕ
tail_of sentences num seqnr digit chars =
    b',' ∷ digit ∷ b'*' ∷ checksum_digits (xor_all 0 (fields sentences num seqnr digit chars))

sentence-parts :
    (sentences num seqnr digit : ℕ) (chars : List ℕ)
    → sentence sentences num seqnr digit chars
      ≡ header sentences num seqnr ++ (chars ++ tail_of sentences num seqnr digit chars)
unfolding sentence
sentence-parts sentences num seqnr digit chars =
    rw (append_assoc (header sentences num seqnr), append_assoc chars)

-- The bytes of a read: the sentence and what stands behind it.
pub sentence-behind :
    (sentences num seqnr digit : ℕ) (chars behind : List ℕ)
    → sentence sentences num seqnr digit chars ++ behind
      ≡ header sentences num seqnr ++ (chars ++ (tail_of sentences num seqnr digit chars ++ behind))
sentence-behind sentences num seqnr digit chars behind = rw (
  sentence-parts sentences num seqnr digit chars,
  append_assoc (header sentences num seqnr),
  append_assoc chars,
)

length-header : (sentences num seqnr : ℕ) → length (header sentences num seqnr) ≡ 13
unfolding header
length-header sentences num seqnr = elim (Bool-cases (ltb 1 sentences)) [
  | inl many ↦ rw many refl
  | inr one ↦ rw one refl
]

length-checksum_digits : (n : ℕ) → length (checksum_digits n) ≡ 2
unfolding checksum_digits
length-checksum_digits n = ground arith

pub length-sentence :
    (sentences num seqnr digit : ℕ) (chars : List ℕ)
    → length (sentence sentences num seqnr digit chars) ≡ length chars + 18
length-sentence sentences num seqnr digit chars =
    let head : List ℕ = header sentences num seqnr in
    let tail : List ℕ = tail_of sentences num seqnr digit chars in
    rw (sentence-parts sentences num seqnr digit chars) (
      omega (
        arith,
        length-append head (chars ++ tail),
        length-append chars tail,
        length-header sentences num seqnr,
        length-checksum_digits (xor_all 0 (fields sentences num seqnr digit chars)),
      ))

-- The loop over "!AIVDM,", over a digit and a comma, and over the third field of a sentence.
fifth_comma-prefix :
    (bytes : List ℕ)
    → fifth_comma 20 0 0 (b'!' ∷ b'A' ∷ b'I' ∷ b'V' ∷ b'D' ∷ b'M' ∷ b',' ∷ bytes)
      ≡ fifth_comma 13 7 1 bytes
unfolding fifth_comma
fifth_comma-prefix bytes = refl

fifth_comma-digit :
    (left k kommas n : ℕ) (bytes : List ℕ)
    → kommas ≤ 3
    → n ≤ 9
    → fifth_comma (suc (suc left)) k kommas ((48 + n) ∷ b',' ∷ bytes)
      ≡ fifth_comma left (k + 1 + 1) (kommas + 1) bytes
unfolding fifth_comma
fifth_comma-digit left k kommas n bytes p q = ground arith

fifth_comma-seqnr :
    (seqnr : ℕ) (bytes : List ℕ)
    → seqnr ≤ 9
    → fifth_comma 9 11 3 ((seqnr + 48) ∷ b',' ∷ b',' ∷ bytes) ≡ some 13
unfolding fifth_comma
fifth_comma-seqnr seqnr bytes p = ground arith

fifth_comma-channel : (bytes : List ℕ) → fifth_comma 9 11 3 (b',' ∷ b'A' ∷ b',' ∷ bytes) ≡ some 13
unfolding fifth_comma
fifth_comma-channel bytes = refl

pub fifth_comma-header :
    (sentences num seqnr : ℕ) (rest : List ℕ)
    → sentences ≤ 9
    → num ≤ 9
    → seqnr ≤ 9
    → fifth_comma 20 0 0 (b'!' ∷ header sentences num seqnr ++ rest) ≡ some 13
unfolding header
fifth_comma-header sentences num seqnr rest p q r = elim (Bool-cases (ltb 1 sentences)) [
  | inl many ↦ rw (
    many,
    fifth_comma-prefix _,
    fifth_comma-digit 11 7 1 sentences _ (omega arith) p,
    fifth_comma-digit 9 9 2 num _ (omega arith) q,
    fifth_comma-seqnr seqnr rest r,
  )
  | inr one ↦ rw (
    one,
    fifth_comma-prefix _,
    fifth_comma-digit 11 7 1 sentences _ (omega arith) p,
    fifth_comma-digit 9 9 2 num _ (omega arith) q,
    fifth_comma-channel rest,
  )
]

-- What the loop reads of the bytes in front of the payload.
pub header_chars :
    (sentences num seqnr : ℕ) (rest : List ℕ)
    → let bytes = b'!' ∷ header sentences num seqnr ++ rest in
      (get_elem? bytes 7 ≡ some (48 + sentences))
      × (get_elem? bytes 9 ≡ some (48 + num))
      × (is_ais bytes ≡ some true)
      × (drop 14 bytes ≡ rest)
unfolding header is_ais
header_chars sentences num seqnr rest = elim (Bool-cases (ltb 1 sentences)) [
  | inl many ↦ (refl, refl, refl, rw many refl)
  | inr one ↦ (refl, refl, refl, rw one refl)
]
