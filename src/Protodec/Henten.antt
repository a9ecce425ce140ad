-- ===== src/Protodec/Henten.antt =====
-- `protodec_henten` of src/protodec.c: a field of a frame as a number, against the big-endian
-- value of the bits of that field.
use gnuais.Common.{
  ℕ, zero, suc, ◌+◌, ◌-◌, ◌*◌, ◌^◌, ◌≤◌, ◌<◌, bit_or, ◌≡◌, refl, ap, ◌∙◌, Option, none, some, leb,
  true, if◌then◌else◌, List, [], ◌∷◌, arith, ◌>>=◌, length, get_elem?, get_or, take, drop, All,
  get_elem?-eq-get_or, All-get_or, length-take, length-drop, All-take, All-drop, bit_or_high,
  bit_shift-lt,
}
use native.Mathlib.Nat.{add-zero, one-mul, zero-add, pow-suc, zero-mul}

-- The bits of a frame are bytes that hold 0 or 1.
abbrev pub IsBit : ℕ → Type 0
IsBit b = b < 2

-- The loop of `protodec_henten` at index `i`, with `left` rounds to go. `none` is a read outside
-- of the frame.
unfoldable pub henten_loop : (from size : ℕ) → List ℕ → (left i tmp : ℕ) → Option ℕ
henten_loop from size frame zero i tmp = some tmp
henten_loop from size frame (suc left) i tmp = do
  b ← get_elem? frame (from + i)
  henten_loop from size frame left (i + 1) (bit_or tmp (b * 2 ^ (size - 1 - i)))

-- `protodec_henten`. A bit is shifted as an int of 32 bits, so a field of more than 31 is `none`.
unfoldable pub henten : (from size : ℕ) → List ℕ → Option ℕ
unfolding henten_loop
henten from size frame = if leb size 31 then henten_loop from size frame size 0 0 else none

-- The number that a string of bits stands for, most significant bit first.
unfoldable pub be_value : ℕ → List ℕ → ℕ
be_value acc [] = acc
be_value acc (b ∷ bs) = be_value (2 * acc + b) bs

-- The value of the field of `size` bits at `from`.
unfoldable pub field : (from size : ℕ) → List ℕ → ℕ
field from size frame = be_value 0 (take size (drop from frame))

drop-get_or :
    (frame : List ℕ) (n : ℕ)
    → n < length frame
    → drop n frame ≡ get_or frame n 0 ∷ drop (suc n) frame
drop-get_or [] n h = absurd (omega arith)
drop-get_or (x ∷ xs) zero h = refl
drop-get_or (x ∷ xs) (suc n) h = drop-get_or xs n (omega arith)

henten_loop-be_value :
    (from size : ℕ) (frame : List ℕ) (left i v : ℕ)
    → All IsBit frame
    → i + left ≡ size
    → from + size ≤ length frame
    → henten_loop from size frame left i (v * 2 ^ left)
      ≡ some (be_value v (take left (drop (from + i) frame)))
unfolding henten_loop be_value
henten_loop-be_value from size frame zero i v bits e h = ap some (omega arith)
henten_loop-be_value from size frame (suc left) i v bits e h =
    let b : ℕ = get_or frame (from + i) 0 in
    let bit : b < 2 = All-get_or IsBit frame (from + i) 0 (omega arith) bits in
    let shift : size - 1 - i ≡ left = omega arith in
    let next : from + (i + 1) ≡ suc (from + i) = omega arith in
    let fits : b * 2 ^ left < 2 ^ suc left = bit_shift-lt left b bit in
    let joined : bit_or (v * 2 ^ suc left) (b * 2 ^ left) ≡ (2 * v + b) * 2 ^ left =
      bit_or_high (suc left) v (b * 2 ^ left) fits
      ∙ omega (arith, ap (λ (t : ℕ). v * t) (pow-suc 2 left)) in
    let ih = henten_loop-be_value from size frame left (i + 1) (2 * v + b) bits (omega arith) h in
    rw
      (
        get_elem?-eq-get_or frame (from + i) 0 (omega arith),
        shift,
        joined,
        drop-get_or frame (from + i) (omega arith),
        ← next,
      )
      ih

-- On a frame of bits that holds the whole field, of at most 31 bits, `protodec_henten` reads nothing outside of it
-- and returns the big-endian value of the field.
pub henten-field :
    (from size : ℕ) (frame : List ℕ)
    → All IsBit frame
    → from + size ≤ length frame
    → size ≤ 31
    → henten from size frame ≡ some (field from size frame)
unfolding henten field
henten-field from size frame bits h small =
    let enough : leb size 31 ≡ true = ground arith in
    rw enough (
      simp (add-zero, zero-mul) at
        (henten_loop-be_value from size frame size 0 0 bits (omega arith) h))

be_value-lt : (bs : List ℕ) (acc : ℕ) → All IsBit bs → be_value acc bs < (acc + 1) * 2 ^ length bs
unfolding be_value
be_value-lt [] acc p = omega arith
be_value-lt (b ∷ bs) acc p =
    let ih = be_value-lt bs (2 * acc + b) p.1 in
    let w : ℕ = 2 ^ length bs in grind (arith, pow-suc 2 (length bs))

-- A field of `size` bits is below 2 ^ size.
pub field-lt :
    (from size : ℕ) (frame : List ℕ)
    → All IsBit frame
    → from + size ≤ length frame
    → field from size frame < 2 ^ size
unfolding field
field-lt from size frame bits h =
    let slice : List ℕ = take size (drop from frame) in
    let count : length slice ≡ size =
      omega (arith, length-take size (drop from frame), length-drop from frame) in
    let bound =
      be_value-lt slice 0
        (All-take IsBit size (drop from frame) (All-drop IsBit from frame bits)) in
    rw count at (rw (zero-add, one-mul) at bound)
