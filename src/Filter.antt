-- ===== src/Filter.antt =====
-- src/filter.c: the low-pass filter of a receiver, over any arithmetic in place of the floats. An
-- access outside of an array is `none`, and so is a memcpy of regions that overlap.
pub mod Buffer
pub mod Window
use gnuais.Common.{
  ℕ, zero, suc, ◌+◌, ◌-◌, Bool, true, false, Option, none, some, List, [], ◌∷◌, ◌++◌, ltb, leb,
  ◌==◌, if◌then◌else◌, ◌>>=◌, length, take, drop, replicate, get_elem?, store, ℤ, pos, negsuc,
}

-- float: its zero, addition, multiplication, and the conversion of a short.
pub record Arithmetic (F : Type 0) : Type 0 where
  pub nought : F
  pub plus : F → F → F
  pub times : F → F → F
  pub of_short : ℤ → F

-- struct filter
pub record Filter (F : Type 0) : Type 0 where
  pub length_f : ℕ
  pub taps : List F
  pub buffer : List F
  pub pointer : ℕ

-- BufferLen
abbrev pub buffer_len : ℕ
buffer_len = 1024

-- `size` elements of an array from `from` on.
unfoldable pub read : {F : Type 0} → (from size : ℕ) → List F → Option (List F)
read from size xs = if leb (from + size) (length xs) then some (take size (drop from xs)) else none

-- `x > y`
unfoldable pub above : ℤ → ℤ → Bool
above (pos m) (pos n) = ltb n m
above (pos m) (negsuc n) = true
above (negsuc m) (pos n) = false
above (negsuc m) (negsuc n) = ltb m n

-- The end of the buffer is copied to its front when it is full.
unfoldable pub turn : {F : Type 0} → Filter F → Option (Filter F)
unfolding read
turn f =
    let copied =
      (if leb (f.length_f + f.length_f) buffer_len
        then read (buffer_len - f.length_f) f.length_f f.buffer
        else none) in
    if f.pointer == buffer_len
    then copied >>= (λ front.
      some (record f { buffer = front ++ drop f.length_f f.buffer; pointer = f.length_f }))
    else some f

module _ {F : Type 0} (arithmetic : Arithmetic F) where
  open arithmetic use {nought, plus, times, of_short}

  -- The loop of `filter_mac` over two arrays of the same size.
  unfoldable pub mac_from : (sum : F) (a b : List F) → F
  mac_from sum [] b = sum
  mac_from sum (x ∷ a) [] = sum
  mac_from sum (x ∷ a) (y ∷ b) = mac_from (plus sum (times x y)) a b

  unfoldable pub filter_mac : (a b : List F) → F
  unfolding mac_from
  filter_mac a b = mac_from nought a b

  unfoldable pub filter_init : (len : ℕ) (taps : List F) → Option (Filter F)
  unfolding read
  filter_init len taps = do
    own ← read 0 len taps
    some
        (record { length_f = len; taps = own; buffer = replicate buffer_len nought; pointer = len })

  -- `filter_run`: the filter behind it, and `*out`.
  unfoldable pub filter_run : Filter F → (in_f : F) → Option (Filter F × F)
  unfolding filter_mac turn read
  filter_run f in_f = do
    buffer ← store f.buffer f.pointer in_f
    window ←
        (if leb f.length_f f.pointer then read (f.pointer - f.length_f) f.length_f buffer else none)
    taps ← read 0 f.length_f f.taps
    f' ← turn (record f { buffer = buffer; pointer = f.pointer + 1 })
    some (f', filter_mac window taps)

  -- The loop of `filter_run_buf`, for the rounds that are left, with `room` elements of the array
  -- behind `out` left: the filter, `out`, and `maxval`. A round does what `filter_run` does.
  unfoldable pub run_buf :
      (room rounds id step : ℕ) (in_buf : List ℤ) (maxval : ℤ)
      → Filter F
      → Option (Filter F × List F × ℤ)
  unfolding filter_run above
  run_buf room zero id step in_buf maxval f = some (f, [], maxval)
  run_buf zero (suc rounds) id step in_buf maxval f = none
  run_buf (suc room) (suc rounds) id step in_buf maxval f = do
    x ← get_elem? in_buf id
    let louder = if above x maxval then x else maxval
    (f', y) ← filter_run f (of_short x)
    (f'', out, loudest) ← run_buf room rounds (id + step) step in_buf louder f'
    some (f'', y ∷ out, loudest)

  unfoldable pub filter_run_buf :
      Filter F → (in_buf : List ℤ) (out_size step len : ℕ) → Option (Filter F × List F × ℤ)
  unfolding run_buf
  filter_run_buf f in_buf out_size step len = run_buf out_size len 0 step in_buf (pos 0) f
