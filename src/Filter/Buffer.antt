-- ===== src/Filter/Buffer.antt =====
-- The buffer of src/filter.c with a window of samples before its pointer, and how it moves.
use gnuais.Common.{
  ℕ, suc, ◌+◌, ◌-◌, ◌≤◌, ◌≡◌, refl, sym, ap, ◌∙◌, true, false, Option, none, some, List, [], ◌∷◌,
  ◌++◌, append_assoc, arith, leb, ◌==◌, length, length-append, length-drop, take, drop, store,
}
use gnuais.Filter.{Filter, buffer_len, read, turn}

drop-length {ℓ} : {A : Type ℓ} (xs ys : List A) → drop (length xs) (xs ++ ys) ≡ ys
drop-length [] ys = refl
drop-length (x ∷ xs) ys = drop-length xs ys

take-length {ℓ} : {A : Type ℓ} (xs ys : List A) → take (length xs) (xs ++ ys) ≡ xs
take-length [] ys = refl
take-length (x ∷ xs) ys = ap (λ zs. x ∷ zs) (take-length xs ys)

pub store-length {ℓ} :
    {A : Type ℓ} (xs : List A) (y : A) (ys : List A) (v : A)
    → store (xs ++ y ∷ ys) (length xs) v ≡ some (xs ++ v ∷ ys)
store-length [] y ys v = refl
store-length {A} (x ∷ xs) y ys v =
    ap (λ o. elim o as (λ o. Option (List A)) [ none ↦ none | some zs ↦ some (x ∷ zs) ])
      (store-length xs y ys v)

-- A part of an array in its place.
pub read-part :
    {F : Type 0} (before part behind : List F) (from size : ℕ)
    → from ≡ length before
    → size ≡ length part
    → read from size (before ++ (part ++ behind)) ≡ some part
unfolding read
read-part before part behind from size f s =
    let inside : leb (from + size) (length (before ++ (part ++ behind))) ≡ true =
      grind (arith, length-append before (part ++ behind), length-append part behind, f, s) in
    rw inside (ap some (rw (f, s, drop-length before (part ++ behind)) (take-length part behind)))

-- A filter whose buffer has a window before the pointer.
abbrev pub filter_at : {F : Type 0} → (before window behind taps : List F) → Filter F
filter_at before window behind taps = record {
  length_f = length window;
  taps = taps;
  buffer = before ++ (window ++ behind);
  pointer = length before + length window;
}

-- The same, with the pointer one further.
abbrev stored_at : {F : Type 0} → (before window behind taps : List F) → Filter F
stored_at before window behind taps = record {
  length_f = length window;
  taps = taps;
  buffer = before ++ (window ++ behind);
  pointer = length before + length window + 1;
}

-- The samples that the next output is made of, in their place in the buffer. There is room for
-- another sample behind them, and twice the window fits into the buffer.
pub data HasWindow {F : Type 0} : Filter F → (window taps : List F) → Type 0 where
  has_window :
      (before window behind taps : List F)
      → length before + (length window + length behind) ≡ buffer_len
      → 1 ≤ length behind
      → length taps ≡ length window
      → 1 ≤ length window
      → length window + length window ≤ buffer_len
      → HasWindow (filter_at before window behind taps) window taps

-- The window one sample later.
unfoldable pub shift : {F : Type 0} → (window : List F) (x : F) → List F
shift [] x = []
shift (w ∷ ws) x = ws ++ x ∷ []

length-shift : {F : Type 0} (w : List F) (x : F) → length (shift w x) ≡ length w
unfolding shift
length-shift [] x = refl
length-shift (w ∷ ws) x = omega (arith, length-append ws (x ∷ []))

-- The window moves on by a sample where it is.
moved :
    {F : Type 0} (before : List F) (v : F) (vs : List F) (x : F) (behind : List F)
    → before ++ (v ∷ vs ++ x ∷ behind) ≡ (before ++ v ∷ []) ++ ((vs ++ x ∷ []) ++ behind)
moved before v vs x behind = simp append_assoc refl

-- A filter with other sizes that are the same.
pub same_filter :
    {F : Type 0} (taps : List F) {l l' p p' : ℕ} {b b' : List F}
    → l ≡ l'
    → p ≡ p'
    → b ≡ b'
    → ◌≡◌ {A = Option (Filter F)}
        (some (record { length_f = l; taps = taps; buffer = b; pointer = p }))
        (some (record { length_f = l'; taps = taps; buffer = b'; pointer = p' }))
same_filter taps el ep eb = rw (el, ep, eb) refl

-- The end of the buffer behind a sample that has been stored.
pub turn-HasWindow :
    {F : Type 0} (before : List F) (v : F) (vs : List F) (x : F) (behind taps : List F)
    → length before + (length (v ∷ vs) + suc (length behind)) ≡ buffer_len
    → length taps ≡ length (v ∷ vs)
    → length (v ∷ vs) + length (v ∷ vs) ≤ buffer_len
    → (f' : Filter F) × (turn (stored_at before (v ∷ vs) (x ∷ behind) taps) ≡ some f')
      × HasWindow f' (vs ++ x ∷ []) taps
unfolding turn
turn-HasWindow before v vs x [] taps whole t fits =
    let L = length (v ∷ vs) in
    let window = vs ++ x ∷ [] in
    let width : length window ≡ L = omega (arith, length-append vs (x ∷ [])) in
    let at_end : (length before + L + 1 == buffer_len) ≡ true = grind arith in
    let apart : leb (L + L) buffer_len ≡ true = grind arith in
    let start : buffer_len - L ≡ length (before ++ v ∷ []) =
      omega (arith, length-append before (v ∷ []), whole) in
    let front : read (buffer_len - L) L (before ++ (v ∷ vs ++ x ∷ [])) ≡ some window =
      ap (read (buffer_len - L) L) (moved before v vs x [])
      ∙ read-part (before ++ v ∷ []) window [] (buffer_len - L) L start (sym width) in
    let rest = drop L (before ++ (v ∷ vs ++ x ∷ [])) in
    let room : length rest ≡ length (before ++ (v ∷ vs ++ x ∷ [])) - L =
      length-drop L (before ++ (v ∷ vs ++ x ∷ [])) in
    let all = length-append before (v ∷ vs ++ x ∷ []) in
    let tail = length-append vs (x ∷ []) in
    (
      filter_at [] window rest taps,
      rw (at_end, apart, front) (same_filter taps (sym width) (omega (arith, width)) refl),
      has_window [] window rest taps (omega (arith, room, all, tail, whole, width))
          (omega (arith, room, all, tail, whole, fits)) (t ∙ sym width) (omega (arith, width))
          (omega (arith, width, fits)),
    )
turn-HasWindow before v vs x (free ∷ behind) taps whole t fits =
    let L = length (v ∷ vs) in
    let window = vs ++ x ∷ [] in
    let width : length window ≡ L = omega (arith, length-append vs (x ∷ [])) in
    let inside : (length before + L + 1 == buffer_len) ≡ false = grind arith in
    let one_more = length-append before (v ∷ []) in
    (
      filter_at (before ++ v ∷ []) window (free ∷ behind) taps,
      rw inside (
          same_filter taps (sym width) (omega (arith, width, one_more))
            (moved before v vs x (free ∷ behind))),
      has_window (before ++ v ∷ []) window (free ∷ behind) taps
          (omega (arith, one_more, width, whole)) (omega arith) (t ∙ sym width)
          (omega (arith, width)) (omega (arith, width, fits)),
    )
