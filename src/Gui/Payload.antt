-- ===== src/Gui/Payload.antt =====
-- The payload of the sentences in the map program: what `aisdecode` of src/gui/gui.c unpacks from
-- the characters of `protodec_generate_nmea`, and what `pickone` reads there.
use gnuais.Common.{
  none, leb, if◌then◌else◌, ℕ, zero, suc, ◌+◌, ◌-◌, ◌*◌, ◌≤◌, ◌<◌, ◌≡◌, refl, ap, ◌≢◌, some, List,
  [], ◌∷◌, ◌++◌, append_assoc, false, arith, ◌==◌, length, take, drop, All, All-append, All-take,
  All-drop, length-take, length-drop, length-append, store_after, get_elem?, bit_or, ◌^◌, ◌>>=◌,
}
use native.Mathlib.Nat.{suc-add}
use gnuais.Protodec.Henten.{IsBit, henten_loop, henten, be_value, field, henten-field, field-lt}
use gnuais.Protodec.Nmea.{armor}
use gnuais.Protodec.Nmea.Sentences.{sixbits, armored, armor-ge}
use gnuais.Protodec.Text.{c_string}
use gnuais.Gui.{pickone_loop, pickone, letter_value, six_bits, store_from, unpack}

letter_value-armor : (x : ℕ) → x < 64 → letter_value (armor x) ≡ x
unfolding letter_value armor
letter_value-armor x h = ground arith

-- Six bits, packed into a number and unpacked again.
six_bits-be_value : (l : List ℕ) → length l ≡ 6 → All IsBit l → six_bits (be_value 0 l) ≡ l
unfolding six_bits be_value
six_bits-be_value (a ∷ b ∷ c ∷ d ∷ e ∷ f ∷ []) h (p, (q, (r, (s, (t, (u, _)))))) = grind arith
six_bits-be_value [] h p = absurd (omega arith)
six_bits-be_value (a ∷ []) h p = absurd (omega arith)
six_bits-be_value (a ∷ b ∷ []) h p = absurd (omega arith)
six_bits-be_value (a ∷ b ∷ c ∷ []) h p = absurd (omega arith)
six_bits-be_value (a ∷ b ∷ c ∷ d ∷ []) h p = absurd (omega arith)
six_bits-be_value (a ∷ b ∷ c ∷ d ∷ e ∷ []) h p = absurd (omega arith)
six_bits-be_value (a ∷ b ∷ c ∷ d ∷ e ∷ f ∷ g ∷ l) h p = absurd (omega arith)

pub store_from-append :
    (got vs rest : List ℕ)
    → length vs ≤ length rest
    → store_from (got ++ rest) (length got) vs ≡ some (got ++ (vs ++ drop (length vs) rest))
unfolding store_from
store_from-append got [] rest h = refl
store_from-append got (v ∷ vs) [] h = absurd (omega arith)
store_from-append got (v ∷ vs) (r ∷ rest) h =
    let next = store_from-append (got ++ v ∷ []) vs rest (omega arith) in
    let size : length (got ++ v ∷ []) ≡ length got + 1 = length-append got (v ∷ []) in
    rw (store_after got rest r v) (rw (size, append_assoc, append_assoc) at next)

take-nil : (n : ℕ) → take {A = ℕ} n [] ≡ []
take-nil zero = refl
take-nil (suc n) = refl

drop-nil : (n : ℕ) → drop {A = ℕ} n [] ≡ []
drop-nil zero = refl
drop-nil (suc n) = refl

drop_more : (n k : ℕ) (xs : List ℕ) → drop k (drop n xs) ≡ drop (n + k) xs
drop_more zero k xs = ap (λ (m : ℕ). drop m xs) (omega arith)
drop_more (suc n) k [] = rw (drop-nil k, drop-nil (suc n + k)) refl
drop_more (suc n) k (x ∷ xs) = rw (suc-add n k) (drop_more n k xs)

take_more : (n k : ℕ) (xs : List ℕ) → take n xs ++ take k (drop n xs) ≡ take (n + k) xs
take_more zero k xs = ap (λ (n : ℕ). take n xs) (omega arith)
take_more (suc n) k [] = rw (take-nil k, take-nil (suc n + k)) refl
take_more (suc n) k (x ∷ xs) = rw (suc-add n k) (ap (λ t. x ∷ t) (take_more n k xs))

pub c_string-stop : (s rest : List ℕ) → All (λ c. c ≢ 0) s → c_string (s ++ 0 ∷ rest) ≡ s
unfolding c_string
c_string-stop [] rest p = refl
c_string-stop (c ∷ s) rest p =
    let other : (c == 0) ≡ false = ground (arith, p.0) in rw (other, c_string-stop s rest p.1)

take_front :
    (size k : ℕ) (xs rest : List ℕ)
    → size ≤ k
    → k ≤ length xs
    → take size (take k xs ++ rest) ≡ take size xs
take_front zero k xs rest h l = refl
take_front (suc size) zero xs rest h l = absurd (omega arith)
take_front (suc size) (suc k) [] rest h l = absurd (omega arith)
take_front (suc size) (suc k) (x ∷ xs) rest h l =
    ap (λ t. x ∷ t) (take_front size k xs rest (omega arith) (omega arith))

-- A field in the front of a list is a field of the list.
slice_front :
    (from size k : ℕ) (xs rest : List ℕ)
    → from + size ≤ k
    → k ≤ length xs
    → take size (drop from (take k xs ++ rest)) ≡ take size (drop from xs)
slice_front zero size k xs rest h l = take_front size k xs rest (omega arith) l
slice_front (suc from) size zero xs rest h l = absurd (omega arith)
slice_front (suc from) size (suc k) [] rest h l = absurd (omega arith)
slice_front (suc from) size (suc k) (x ∷ xs) rest h l =
    slice_front from size k xs rest (omega arith) (omega arith)

pickone_loop-eq :
    (b : List ℕ) (from size left i tmp : ℕ)
    → pickone_loop b from size left i tmp ≡ henten_loop from size b left i tmp
unfolding pickone_loop henten_loop
pickone_loop-eq b from size zero i tmp = refl
pickone_loop-eq b from size (suc left) i tmp =
    ap (λ f. get_elem? b (from + i) >>= f)
      (λ t b'. pickone_loop-eq b from size left (i + 1) (bit_or tmp (b' * 2 ^ (size - 1 - i))) t)

pickone-henten : (b : List ℕ) (from size : ℕ) → pickone b from size ≡ henten from size b
unfolding pickone henten
pickone-henten b from size =
    ap (λ o. if leb size 31 then o else none) (pickone_loop-eq b from size size 0 0)

-- On an array of bits that holds the whole field, `pickone` returns the field.
pub pickone-bits :
    (b : List ℕ) (from size : ℕ)
    → All IsBit b
    → from + size ≤ length b
    → size ≤ 31
    → pickone b from size ≡ some (field from size b)
pickone-bits b from size p h small = rw pickone-henten (henten-field from size b p h small)

module _ (frame : List ℕ) (bits : All IsBit frame) where
  -- One character of the encoder, unpacked.
  six_bits-field :
      (pos : ℕ)
      → pos + 6 ≤ length frame
      → six_bits (letter_value (armor (field pos 6 frame))) ≡ take 6 (drop pos frame)
  six_bits-field pos h =
      let slice : List ℕ = take 6 (drop pos frame) in
      let count : length slice ≡ 6 =
        omega (arith, length-take 6 (drop pos frame), length-drop pos frame) in
      let plain = All-take IsBit 6 (drop pos frame) (All-drop IsBit pos frame bits) in
      rw (letter_value-armor _ (field-lt pos 6 frame bits h))
        (unfold field in six_bits-be_value slice count plain)

  store_six :
      (pos : ℕ) (rest : List ℕ)
      → pos + 6 ≤ length frame
      → 6 ≤ length rest
      → store_from
          (take pos frame ++ rest)
          pos
          (six_bits (letter_value (armor (field pos 6 frame))))
        ≡ some (take (pos + 6) frame ++ drop 6 rest)
  store_six pos rest h l =
      let slice : List ℕ = take 6 (drop pos frame) in
      let count : length slice ≡ 6 =
        omega (arith, length-take 6 (drop pos frame), length-drop pos frame) in
      let front : length (take pos frame) ≡ pos = omega (arith, length-take pos frame) in
      let stored = store_from-append (take pos frame) slice rest (omega arith) in
      rw (six_bits-field pos h) (rw (front, count, ← append_assoc, take_more pos 6 frame) at stored)

  pub unpack-armored :
      (n pos : ℕ) (rest : List ℕ)
      → pos + 6 * n ≤ length frame
      → 6 * n ≤ length rest
      → unpack (take pos frame ++ rest) pos (armored n pos frame)
        ≡ some (take (pos + 6 * n) frame ++ drop (6 * n) rest)
  unfolding unpack sixbits
  unpack-armored zero pos rest h l = ap (λ (n : ℕ). some (take n frame ++ rest)) (omega arith)
  unpack-armored (suc n) pos rest h l =
      let plain : (armor (field pos 6 frame) == b',') ≡ false =
        ground (arith, armor-ge (field pos 6 frame)) in
      let ih =
        unpack-armored n (pos + 6) (drop 6 rest) (omega arith)
          (omega (arith, length-drop 6 rest)) in
      let whole : pos + 6 + 6 * n ≡ pos + 6 * suc n = omega arith in
      let gone : 6 + 6 * n ≡ 6 * suc n = omega arith in
      rw (plain, store_six pos rest (omega arith) (omega arith))
        (rw (whole, drop_more 6 (6 * n) rest, gone) at ih)

  -- What `pickone` reads of a field in the front of the frame.
  pub pickone-field :
      (from size k : ℕ) (rest : List ℕ)
      → All IsBit rest
      → from + size ≤ k
      → k ≤ length frame
      → size ≤ 31
      → pickone (take k frame ++ rest) from size ≡ some (field from size frame)
  pickone-field from size k rest p h l small =
      let all = All-append IsBit (take k frame) rest (All-take IsBit k frame bits) p in
      let fits : from + size ≤ length (take k frame ++ rest) =
        omega (arith, length-append (take k frame) rest, length-take k frame) in
      let same : field from size (take k frame ++ rest) ≡ field from size frame =
        unfold field in ap (be_value 0) (slice_front from size k frame rest h l) in
      rw (pickone-bits (take k frame ++ rest) from size all fits small, same)
