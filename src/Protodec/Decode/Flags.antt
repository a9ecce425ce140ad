-- ===== src/Protodec/Decode/Flags.antt =====
-- The training sequence and the flags around a frame.
use gnuais.Common.{
  ℕ, zero, suc, ◌+◌, ◌-◌, ◌<◌, ◌≡◌, refl, ap, ◌∙◌, Option, none, some, List, [], ◌∷◌, ◌++◌,
  append-nil, true, false, arith, ltb, ◌>>=◌, length, set, length-set, replicate,
}
use gnuais.Protodec.Henten.{IsBit}
use gnuais.Protodec.Types.{stopsign, Call, Env, Demod}
use gnuais.Protodec.Crc.{demod_buffer_len}
use gnuais.Protodec.Decode.{reset, on_frame, decode, count_ones}
use gnuais.Protodec.Decode.Safety.{closing}
use gnuais.Protodec.Decode.Stuffing.{write, taking, zero_stored, one_stored, fifth_stored}
use gnuais.Protodec.Decode.Pieces.{decode_silent}

-- `n` alternating bits that end in `last`.
unfoldable pub alternating : (n last : ℕ) → List ℕ
alternating zero last = []
alternating (suc n) last = alternating n (1 - last) ++ last ∷ []

abbrev pub flag : List ℕ
flag = 0 ∷ 1 ∷ 1 ∷ 1 ∷ 1 ∷ 1 ∷ 1 ∷ 0 ∷ []

-- The decoder after a start flag.
unfoldable pub opened : Demod → Demod
unfolding reset
opened d =
    taking (record (reset d) { nskurr = 1; npreamble = 1; nstartsign = 1 })
      (replicate demod_buffer_len 0) 0 0 0

pub opens :
    (env : Env) (d : Demod) (last : ℕ)
    → IsBit last
    → decode env (alternating 24 last ++ flag) (reset d) ≡ some (opened d, [])
unfolding decode reset count_ones alternating opened
opens env d zero b = refl
opens env d (suc zero) b = refl
opens env d (suc (suc last)) b = absurd (omega arith)

-- The decoder at the last zero of an end flag.
abbrev pub closed : Demod → (buffer : List ℕ) → (bufferpos : ℕ) → Demod
closed d buffer bufferpos = record d {
  state = stopsign;
  ndata = 0;
  antallenner = 0;
  buffer = buffer;
  bufferpos = bufferpos;
  last = 1;
  bitstuff = false;
}

-- The zero of the end flag and five of its ones are stored.
pub flag_stored :
    (env : Env) (d : Demod) (buffer : List ℕ) (p n ones : ℕ)
    → ones < 5
    → length buffer ≡ 450
    → p < 442
    → decode env (0 ∷ 1 ∷ 1 ∷ 1 ∷ 1 ∷ 1 ∷ 1 ∷ []) (taking d buffer p n ones)
      ≡ some (closed d (write buffer p (0 ∷ 1 ∷ 1 ∷ 1 ∷ 1 ∷ 1 ∷ [])) (p + 6), [])
unfolding decode write
flag_stored env d buffer p n ones few full short =
    let b0 = set buffer p 0 in
    let b1 = set b0 (p + 1) 1 in
    let b2 = set b1 (p + 1 + 1) 1 in
    let b3 = set b2 (p + 1 + 1 + 1) 1 in
    let b4 = set b3 (p + 1 + 1 + 1 + 1) 1 in
    let l0 = length-set buffer p 0 in
    let l1 = length-set b0 (p + 1) 1 in
    let l2 = length-set b1 (p + 1 + 1) 1 in
    let l3 = length-set b2 (p + 1 + 1 + 1) 1 in
    let l4 = length-set b3 (p + 1 + 1 + 1 + 1) 1 in
    let six : p + 1 + 1 + 1 + 1 + 1 + 1 ≡ p + 6 = omega arith in
    rw (
      zero_stored env d buffer p n (omega arith) (omega arith) ones few,
      one_stored env d b0 (p + 1) (n + 1) (omega arith) (omega arith) 0 (omega arith),
      one_stored env d b1 (p + 1 + 1) (n + 1 + 1) (omega arith) (omega arith) 1 (omega arith),
      one_stored env d b2 (p + 1 + 1 + 1) (n + 1 + 1 + 1) (omega arith) (omega arith) 2
          (omega arith),
      one_stored env d b3 (p + 1 + 1 + 1 + 1) (n + 1 + 1 + 1 + 1) (omega arith) (omega arith) 3
          (omega arith),
      fifth_stored env d b4 (p + 1 + 1 + 1 + 1 + 1) (n + 1 + 1 + 1 + 1 + 1) (omega arith)
          (omega arith),
      six,
    )

pub joining_end :
    (o : Option (Demod × List Call))
    → (o >>= closing >>= (λ (d, c). some (record d { last = 0 }, c)) >>= λ (d, c).
        some (d, c ++ []))
      ≡ (o >>= closing)
unfolding reset
joining_end none = refl
joining_end (some (d, calls)) = ap (λ (c : List Call). some (reset d, c)) (append-nil calls)

pub frame_ends :
    (env : Env) (d : Demod) (buffer : List ℕ) (q : ℕ)
    → 22 < q
    → decode env (0 ∷ []) (closed d buffer q)
      ≡ (on_frame env (q - 22) (closed d buffer q) >>= closing)
unfolding decode
frame_ends env d buffer q long =
    let enough : ltb 22 q ≡ true = ground arith in
    rw enough (joining_end (on_frame env (q - 22) (closed d buffer q)))

abbrev pub flag_part : List ℕ
flag_part = 0 ∷ 1 ∷ 1 ∷ 1 ∷ 1 ∷ 1 ∷ []

pub flag_ends :
    (env : Env) (d : Demod) (buffer : List ℕ) (p n ones : ℕ)
    → ones < 5
    → length buffer ≡ 450
    → 16 < p
    → p < 442
    → decode env flag (taking d buffer p n ones)
      ≡ (on_frame env (p - 16) (closed d (write buffer p flag_part) (p + 6)) >>= closing)
flag_ends env d buffer p n ones few full long short =
    let same : p + 6 - 22 ≡ p - 16 = omega arith in
    decode_silent env (0 ∷ 1 ∷ 1 ∷ 1 ∷ 1 ∷ 1 ∷ 1 ∷ []) (0 ∷ []) _ _
      (flag_stored env d buffer p n ones few full short)
    ∙ rw same at (frame_ends env d (write buffer p flag_part) (p + 6) (omega arith))
