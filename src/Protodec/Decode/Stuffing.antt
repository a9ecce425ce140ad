-- ===== src/Protodec/Decode/Stuffing.antt =====
-- ST_DATA of `protodec_decode` against the sender's side of HDLC: bit stuffing.
use gnuais.Common.{
  ℕ, zero, suc, ◌+◌, ◌-◌, ◌<◌, ◌≡◌, refl, ◌∙◌, ap₂, inl, inr, Bool-cases, Option, some, List, [],
  ◌∷◌, true, false, arith, leb, ◌==◌, if◌then◌else◌, length, set, store-eq-set, length-set, All,
}
use gnuais.Protodec.Henten.{IsBit}
use gnuais.Protodec.Types.{payload, Call, Env, Demod}
use gnuais.Protodec.Decode.{count_ones, decode_bit, decode}

-- A zero follows five ones in a row. The first argument counts the ones sent just before.
unfoldable pub stuff : (ones : ℕ) → List ℕ → List ℕ
stuff ones [] = []
stuff ones (zero ∷ bits) = 0 ∷ stuff 0 bits
stuff ones (suc b ∷ bits) =
    let fifth = stuff 0 bits in
    let more = stuff (suc ones) bits in if ones == 4 then 1 ∷ 0 ∷ fifth else 1 ∷ more

-- The ones at the end of what `stuff` sends.
unfoldable pub ones_after : (ones : ℕ) → List ℕ → ℕ
ones_after ones [] = ones
ones_after ones (zero ∷ bits) = ones_after 0 bits
ones_after ones (suc b ∷ bits) =
    let fifth = ones_after 0 bits in
    let more = ones_after (suc ones) bits in if ones == 4 then fifth else more

-- The buffer after bits were stored from a position on.
unfoldable pub write : List ℕ → ℕ → List ℕ → List ℕ
write buffer p [] = buffer
write buffer p (b ∷ bits) = write (set buffer p b) (p + 1) bits

-- `d` while it takes in a frame, with `ones` ones just before. The code counts pairs of ones.
abbrev pub taking : Demod → (buffer : List ℕ) → (bufferpos ndata ones : ℕ) → Demod
taking d buffer bufferpos ndata ones = record d {
  state = payload;
  buffer = buffer;
  bufferpos = bufferpos;
  ndata = ndata;
  antallenner = ones - 1;
  last = if ones == 0 then 0 else 1;
  bitstuff = false;
}

-- The same, after the fifth one.
abbrev pub stuffed : Demod → (buffer : List ℕ) → (bufferpos ndata : ℕ) → Demod
stuffed d buffer bufferpos ndata = record d {
  state = payload;
  buffer = buffer;
  bufferpos = bufferpos;
  ndata = ndata;
  antallenner = 0;
  last = 1;
  bitstuff = true;
}

module _ (env : Env) (d : Demod) (buffer : List ℕ) (p n : ℕ) (room : p < length buffer)
    (short : p < 448) where
  under_limit : leb 449 (p + 1) ≡ false
  under_limit = ground arith

  pub zero_stored :
      (ones : ℕ)
      → ones < 5
      → decode_bit env 0 (taking d buffer p n ones)
        ≡ some (taking d (set buffer p 0) (p + 1) (n + 1) 0, [])
  unfolding decode_bit count_ones
  zero_stored zero few = rw (store-eq-set buffer p 0 room, under_limit)
  zero_stored (suc ones) few =
      let after_one : (suc ones == 0) ≡ false = ground arith in
      rw (store-eq-set buffer p 0 room, after_one, under_limit)

  pub one_stored :
      (ones : ℕ)
      → ones < 4
      → decode_bit env 1 (taking d buffer p n ones)
        ≡ some (taking d (set buffer p 1) (p + 1) (n + 1) (suc ones), [])
  unfolding decode_bit count_ones
  one_stored zero few = rw (store-eq-set buffer p 1 room, under_limit)
  one_stored (suc zero) few = rw (store-eq-set buffer p 1 room, under_limit)
  one_stored (suc (suc zero)) few = rw (store-eq-set buffer p 1 room, under_limit)
  one_stored (suc (suc (suc zero))) few = rw (store-eq-set buffer p 1 room, under_limit)
  one_stored (suc (suc (suc (suc ones)))) few = absurd (omega arith)

  pub fifth_stored :
      decode_bit env 1 (taking d buffer p n 4)
      ≡ some (stuffed d (set buffer p 1) (p + 1) (n + 1), [])
  unfolding decode_bit count_ones
  fifth_stored = rw (store-eq-set buffer p 1 room, under_limit)

moved :
    (d : Demod) (buffer : List ℕ) (ones : ℕ) {p p' n n' : ℕ}
    → p ≡ p'
    → n ≡ n'
    → Path
        (Option (Demod × List Call))
        (some (taking d buffer p n ones, []))
        (some (taking d buffer p' n' ones, []))
moved d buffer ones e f = ap₂ (λ a b. some (taking d buffer a b ones, [])) e f

-- The bits of a frame, stuffed by the sender, end up in the buffer as they were, one after the
-- other from `bufferpos` on, and nothing is called: for bits after fewer than five ones, a buffer
-- of its declared size, and as long as `bufferpos` stays under the limit of 449.
pub decode-stuff :
    (env : Env) (d : Demod) (bits buffer : List ℕ) (p n ones : ℕ)
    → ones < 5
    → All IsBit bits
    → length buffer ≡ 450
    → p + length bits < 449
    → decode env (stuff ones bits) (taking d buffer p n ones)
      ≡ some (
        taking d
            (write buffer p bits)
            (p + length bits)
            (n + length (stuff ones bits))
            (ones_after ones bits),
        [],
      )
unfolding decode stuff ones_after write
decode-stuff env d [] buffer p n ones few b full short =
    moved d buffer ones (omega arith) (omega arith)
decode-stuff env d (zero ∷ bits) buffer p n ones few b full short =
    let rest =
      decode-stuff env d bits (set buffer p 0) (p + 1) (n + 1) 0 (omega arith) b.1
        (omega (arith, length-set buffer p 0)) (omega arith) in
    rw (zero_stored env d buffer p n (omega arith) (omega arith) ones few, rest)
      (moved d _ _ (omega arith) (omega arith))
decode-stuff env d (suc (suc b) ∷ bits) buffer p n ones few h full short = absurd (omega arith)
decode-stuff env d (suc zero ∷ bits) buffer p n ones few b full short =
    let size : length (set buffer p 1) ≡ 450 = omega (arith, length-set buffer p 1) in
    elim (Bool-cases (ones == 4)) [
      | inl fifth ↦
          let four : ones ≡ 4 = ground arith in
          rw
            (
              four,
              fifth_stored env d buffer p n (omega arith) (omega arith),
              decode-stuff env d bits (set buffer p 1) (p + 1) (n + 1 + 1) 0 (omega arith) b.1 size
                  (omega arith),
            )
            (moved d _ _ (omega arith) (omega arith))
      | inr other ↦
          rw
            (
              other,
              one_stored env d buffer p n (omega arith) (omega arith) ones (ground arith),
              decode-stuff env d bits (set buffer p 1) (p + 1) (n + 1) (suc ones) (ground arith) b.1
                  size (omega arith),
            )
            (moved d _ _ (omega arith) (omega arith))
    ]

pub ones_after-lt : (ones : ℕ) (bits : List ℕ) → ones < 5 → ones_after ones bits < 5
unfolding ones_after
ones_after-lt ones [] few = few
ones_after-lt ones (zero ∷ bits) few = ones_after-lt 0 bits (omega arith)
ones_after-lt ones (suc b ∷ bits) few = elim (Bool-cases (ones == 4)) [
  | inl fifth ↦ rw fifth (ones_after-lt 0 bits (omega arith))
  | inr other ↦ rw other (ones_after-lt (suc ones) bits (ground arith))
]

pub length-write :
    (buffer : List ℕ) (p : ℕ) (bits : List ℕ) → length (write buffer p bits) ≡ length buffer
unfolding write
length-write buffer p [] = refl
length-write buffer p (b ∷ bits) =
    length-write (set buffer p b) (p + 1) bits ∙ length-set buffer p b
