-- ===== src/Protodec/Text/Trim.antt =====
-- What `remove_trailing_spaces` leaves of a text field.
use mathlib.Core.List.{reverse-append, reverse-cons, reverse-reverse}
use gnuais.Common.{
  subst, Bool, true, ltb, ◌<◌, ◌&&◌, codes, get_or, ==_iff, ℕ, zero, suc, ◌+◌, ◌*◌, ◌≤◌, ◌≡◌, ◌≢◌,
  refl, sym, ap, ap₂, ◌∙◌, false, inl, inr, Bool-cases, some, List, [], ◌∷◌, ◌++◌, map,
  append_assoc, reverse, arith, ◌==◌, length, replicate, All, All-reverse,
}
use gnuais.Protodec.Henten.{IsBit, field, henten-field, field-lt}
use gnuais.Protodec.Nmea.Sentences.{sixbits}
use gnuais.Protodec.Text.{
  decode_sixbit_ascii, letters, blank_front, remove_trailing_spaces, c_string, text,
}

-- A list that does not start with a space.
abbrev pub NoSpaceFirst : List ℕ → Type 0
NoSpaceFirst [] = Unit
NoSpaceFirst (c ∷ cs) = c ≢ 32

-- The spaces at the front of a list, blanked.
record Blanked (l : List ℕ) : Type 0 where
  spaces : ℕ
  rest : List ℕ
  is_front : l ≡ replicate spaces 32 ++ rest
  blanked : blank_front l ≡ replicate spaces 0 ++ rest
  stops : NoSpaceFirst rest

blank_front-Blanked : (l : List ℕ) → All (λ c. c ≢ 0) l → Blanked l
unfolding blank_front
blank_front-Blanked [] p = record {
  spaces = 0;
  rest = [];
  is_front = refl;
  blanked = refl;
  stops = tt;
}
blank_front-Blanked (c ∷ cs) p = elim (Bool-cases (c == 32)) [
  | inl space ↦
      let more = blank_front-Blanked cs p.1 in
      let e : c ≡ 32 = ground arith in
      record {
        spaces = suc more.spaces;
        rest = more.rest;
        is_front = ap₂ (λ x xs. x ∷ xs) e more.is_front;
        blanked = rw space (ap (λ xs. 0 ∷ xs) more.blanked);
        stops = more.stops;
      }
  | inr letter ↦
      let zero_no : (c == 0) ≡ false = ground (arith, p.0) in
      record {
        spaces = 0;
        rest = c ∷ cs;
        is_front = refl;
        blanked = rw (letter, zero_no);
        stops = ground arith;
      }
]

c_string-end : (s t : List ℕ) → All (λ c. c ≢ 0) s → c_string (s ++ 0 ∷ t) ≡ s
unfolding c_string
c_string-end [] t p = refl
c_string-end (c ∷ s) t p =
    let letter : (c == 0) ≡ false = ground (arith, p.0) in
    rw letter (ap (λ xs. c ∷ xs) (c_string-end s t p.1))

replicate-last : (n a : ℕ) → replicate n a ++ a ∷ [] ≡ a ∷ replicate n a
replicate-last zero a = refl
replicate-last (suc n) a = ap (λ xs. a ∷ xs) (replicate-last n a)

reverse-replicate : (n a : ℕ) → reverse (replicate n a) ≡ replicate n a
reverse-replicate zero a = refl
reverse-replicate (suc n) a =
    reverse-cons a (replicate n a)
    ∙ (ap (λ xs. xs ++ a ∷ []) (reverse-replicate n a) ∙ replicate-last n a)

All-rest : (P : ℕ → Type 0) (xs ys : List ℕ) → All P (xs ++ ys) → All P ys
All-rest P [] ys p = p
All-rest P (x ∷ xs) ys p = All-rest P xs ys p.1

-- `t` is `l` without the spaces at its end.
pub record Trims (l t : List ℕ) : Type 0 where
  pub spaces : ℕ
  pub padded : l ≡ t ++ replicate spaces 32
  pub ends : NoSpaceFirst (reverse t)

remove_trailing_spaces-Trims :
    (l : List ℕ) → All (λ c. c ≢ 0) l → Trims l (c_string (remove_trailing_spaces l))
unfolding remove_trailing_spaces
remove_trailing_spaces-Trims l p =
    let back = blank_front-Blanked (reverse l) (All-reverse (λ c. c ≢ 0) l p) in
    let k = back.spaces in
    let t : List ℕ = reverse back.rest in
    let plain : All (λ c. c ≢ 0) t =
      All-reverse (λ c. c ≢ 0) back.rest
        (All-rest (λ c. c ≢ 0) (replicate k 32) back.rest
          (rw back.is_front at (All-reverse (λ c. c ≢ 0) l p))) in
    let blanks : reverse (blank_front (reverse l)) ≡ t ++ replicate k 0 =
      ap reverse back.blanked
      ∙ (reverse-append (replicate k 0) back.rest ∙ ap (λ xs. t ++ xs) (reverse-replicate k 0)) in
    let left : c_string (reverse (blank_front (reverse l)) ++ 0 ∷ []) ≡ t =
      ap (λ xs. c_string (xs ++ 0 ∷ [])) blanks
      ∙ (ap c_string
            (append_assoc t (replicate k 0) (0 ∷ []) ∙ ap (λ xs. t ++ xs) (replicate-last k 0))
          ∙ c_string-end t (replicate k 0) plain) in
    let whole : l ≡ t ++ replicate k 32 =
      sym (reverse-reverse l)
      ∙ (ap reverse back.is_front
          ∙ (reverse-append (replicate k 32) back.rest
              ∙ ap (λ xs. t ++ xs) (reverse-replicate k 32))) in
    rw left
      (record { spaces = k; padded = whole; ends = rw (reverse-reverse back.rest) back.stops })

decode_sixbit_ascii-ne : (x : ℕ) → decode_sixbit_ascii x ≢ 0
unfolding decode_sixbit_ascii
decode_sixbit_ascii-ne x = ground arith

letters-ne :
    (n pos : ℕ) (frame : List ℕ) → All (λ c. c ≢ 0) (map decode_sixbit_ascii (sixbits n pos frame))
unfolding sixbits
letters-ne zero pos frame = tt
letters-ne (suc n) pos frame =
    (decode_sixbit_ascii-ne (field pos 6 frame), letters-ne n (pos + 6) frame)

letters-sixbits :
    (frame : List ℕ) (room n pos : ℕ)
    → All IsBit frame
    → n ≤ room
    → pos + 6 * n ≤ length frame
    → letters room n pos frame ≡ some (map decode_sixbit_ascii (sixbits n pos frame))
unfolding letters sixbits
letters-sixbits frame room zero pos p q h = refl
letters-sixbits frame zero (suc n) pos p q h = absurd (omega arith)
letters-sixbits frame (suc room) (suc n) pos p q h = rw (
  henten-field pos 6 frame p (omega arith) (omega arith),
  letters-sixbits frame room n (pos + 6) p (omega arith) (omega arith),
)

-- The six-bit letters of AIS, with a space for the "@" that fills a field.
abbrev pub alphabet : List ℕ
alphabet = codes " ABCDEFGHIJKLMNOPQRSTUVWXYZ[\\]^_ !\"#$%&'()*+,-./0123456789:;<=>?"

-- The decoder agrees with the alphabet below `n`.
agrees : ℕ → Bool
unfolding decode_sixbit_ascii
agrees zero = true
agrees (suc n) = let rest = agrees n in decode_sixbit_ascii n == get_or alphabet n 0 && rest

below_other : (n x : ℕ) → x < suc n → (x == n) ≡ false → x < n
below_other n x h other = ground arith

agrees-below : (n x : ℕ) → agrees n ≡ true → x < n → decode_sixbit_ascii x ≡ get_or alphabet x 0
unfolding agrees
agrees-below zero x e h = absurd (omega arith)
agrees-below (suc n) x e h = elim (Bool-cases (decode_sixbit_ascii n == get_or alphabet n 0)) [
  | inl here ↦ elim (Bool-cases (x == n)) [
    | inl same ↦ rw ((==_iff x n).0 same) ((==_iff _ _).0 here)
    | inr other ↦ agrees-below n x (rw here at e) (below_other n x h other)
  ]
  | inr never ↦ absurd (grind (arith, e, never))
]

agrees-all : agrees 64 ≡ true
unfolding agrees decode_sixbit_ascii
agrees-all = refl

-- The letters that `n` groups from `pos` on stand for.
unfoldable pub spelled : (n pos : ℕ) → List ℕ → List ℕ
spelled n pos frame = map (λ x. get_or alphabet x 0) (sixbits n pos frame)

letters-spelled :
    (frame : List ℕ) (n pos : ℕ)
    → All IsBit frame
    → pos + 6 * n ≤ length frame
    → map decode_sixbit_ascii (sixbits n pos frame) ≡ spelled n pos frame
unfolding sixbits spelled
letters-spelled frame zero pos p h = refl
letters-spelled frame (suc n) pos p h =
    ap₂ (λ x xs. x ∷ xs)
      (agrees-below 64 (field pos 6 frame) agrees-all (field-lt pos 6 frame p (omega arith)))
      (letters-spelled frame n (pos + 6) p (omega arith))

-- A text field that is read without a fault: its letters without the spaces at their end.
pub record ReadsField (frame : List ℕ) (size n pos : ℕ) : Type 0 where
  pub name : List ℕ
  pub reads : text size n pos frame ≡ some name
  pub trims : Trims (spelled n pos frame) name

-- On a frame of bits that holds the field, a text field of a message is read without a fault into an
-- array that has an element more than the field has letters, and is what its six-bit letters stand
-- for in the alphabet of AIS, without the spaces at its end and with those inside.
pub text-ReadsField :
    (frame : List ℕ) (size n pos : ℕ)
    → All IsBit frame
    → n < size
    → pos + 6 * n ≤ length frame
    → ReadsField frame size n pos
unfolding text
text-ReadsField frame size n pos p q h =
    let l = map decode_sixbit_ascii (sixbits n pos frame) in
    let inside : ltb n size ≡ true = ground arith in
    record {
      name = c_string (remove_trailing_spaces l);
      reads = rw (letters-sixbits frame size n pos p (omega arith) h, inside);
      trims =
          subst (λ k. Trims k (c_string (remove_trailing_spaces l)))
            (letters-spelled frame n pos p h)
            (remove_trailing_spaces-Trims l (letters-ne n pos frame));
    }
