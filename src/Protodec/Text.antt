-- ===== src/Protodec/Text.antt =====
-- The text fields of a message: `protodec_decode_sixbit_ascii` and `remove_trailing_spaces` of
-- src/protodec.c, with the loop over the letters that the decoders of types 5, 19 and 24 repeat.
pub mod Trim
use gnuais.Common.{
  ℕ, zero, suc, ◌+◌, ◌&&◌, ◌||◌, Option, none, some, ltb, List, [], ◌∷◌, ◌++◌, reverse, leb, ◌==◌,
  if◌then◌else◌, ◌>>=◌,
}
use gnuais.Protodec.Henten.{henten}

-- What `protodec_decode_sixbit_ascii` stores.
unfoldable pub decode_sixbit_ascii : ℕ → ℕ
decode_sixbit_ascii sixbit =
    if leb 1 sixbit && leb sixbit 31
    then sixbit + 64
    else if leb 32 sixbit && leb sixbit 63
    then sixbit
    else b' '

-- The loop `for (k = 0; k < n; k++)` that fills a char array from the letters at `pos`, with `room`
-- elements of the array left. `none` is an access outside of an array.
unfoldable pub letters : (room left pos : ℕ) → List ℕ → Option (List ℕ)
letters room zero pos frame = some []
letters zero (suc left) pos frame = none
letters (suc room) (suc left) pos frame = do
  letter ← henten pos 6 frame
  rest ← letters room left (pos + 6) frame
  some (decode_sixbit_ascii letter ∷ rest)

-- The loop of `remove_trailing_spaces`, over the array read from its end.
unfoldable pub blank_front : List ℕ → List ℕ
blank_front [] = []
blank_front (c ∷ cs) = if c == b' ' || c == 0 then 0 ∷ blank_front cs else c ∷ cs

-- `s[len] = 0` and the loop.
unfoldable pub remove_trailing_spaces : List ℕ → List ℕ
unfolding blank_front
remove_trailing_spaces s = reverse (blank_front (reverse s)) ++ 0 ∷ []

-- The string that a char array holds, up to its first NUL.
unfoldable pub c_string : List ℕ → List ℕ
c_string [] = []
c_string (c ∷ cs) = if c == 0 then [] else c ∷ c_string cs

-- A text field of `n` letters at `pos`, in a char array of `size` elements; `s[n] = 0` is within it.
unfoldable pub text : (size n pos : ℕ) → List ℕ → Option (List ℕ)
unfolding decode_sixbit_ascii letters remove_trailing_spaces c_string
text size n pos frame = do
  name ← letters size n pos frame
  if ltb n size then some (c_string (remove_trailing_spaces name)) else none
