-- ===== src/Receiver.antt =====
-- src/receiver.c: the loop of `receiver_run` that recovers the bits of a channel from its samples.
-- The loop starts from the signs of the filtered samples, 1 for `filtered[i] > 0` and 0 for any
-- other; Channel has the whole function with the filter of src/filter.c.
pub mod Slicing
pub mod Clock
pub mod Channel
use gnuais.Common.{
  ℕ, ◌+◌, ◌-◌, ◌/◌, ◌%◌, ◌^◌, bit_xor, Option, some, List, [], ◌∷◌, ◌++◌, ltb, ◌==◌, if◌then◌else◌,
  ◌>>=◌,
}
use gnuais.Protodec.Types.{Call, Env, Demod}
use gnuais.Protodec.Decode.{decode, initialize}

-- struct receiver, without the filter, the name and the layout of the channels, and the time of
-- the last report of the level.
pub record Receiver : Type 0 where
  pub decoder : Demod
  pub lastbit : ℕ
  pub prev : ℕ
  pub pll : ℕ
  pub pllinc : ℕ

-- `init_receiver`, with the contents of the decoder's buffers.
unfoldable pub init_receiver : (buffer rbuffer : List ℕ) → Receiver
unfolding initialize
init_receiver buffer rbuffer = record {
  decoder = initialize buffer rbuffer;
  lastbit = 0;
  prev = 0;
  pll = 0;
  pllinc = 0x10000 / 5;
}

-- INC
abbrev pub inc : ℕ
inc = 16

-- The clock at a sample: it is pulled to the transitions, and goes on by a fifth of a bit. `pll` is
-- an unsigned int.
unfoldable pub advance_pll : (curr prev pll pllinc : ℕ) → ℕ
advance_pll curr prev pll pllinc =
    let pulled =
      (if bit_xor curr prev == 1
        then (if ltb pll (0x10000 / 2)
            then (pll + pllinc / inc) % 2 ^ 32
            else (2 ^ 32 + pll - pllinc / inc) % 2 ^ 32)
        else pll) in
    (pulled + pllinc) % 2 ^ 32

unfoldable pub advance : (curr : ℕ) → Receiver → Receiver
unfolding advance_pll
advance curr rx = record rx { prev = curr; pll = advance_pll curr rx.prev rx.pll rx.pllinc }

-- `!(bit ^ rx->lastbit)`
unfoldable pub nrzi_bit : (lastbit bit : ℕ) → ℕ
nrzi_bit lastbit bit = if bit_xor bit lastbit == 0 then 1 else 0

-- The bit at the end of the clock's period, decoded.
unfoldable pub slice : Env → (bit : ℕ) → Receiver → Option (Receiver × List Call)
unfolding nrzi_bit
slice env bit rx = do
  (decoder, calls) ← decode env (nrzi_bit rx.lastbit bit ∷ []) rx.decoder
  some (record rx { decoder = decoder; lastbit = bit; pll = rx.pll % 0x10000 }, calls)

-- One round of the loop.
unfoldable pub sample : Env → (curr : ℕ) → Receiver → Option (Receiver × List Call)
unfolding advance slice
sample env curr rx =
    let rx' = advance curr rx in
    let sliced = slice env curr rx' in if ltb 0xffff rx'.pll then sliced else some (rx', [])

-- The loop over the samples of a buffer.
unfoldable pub receiver_run : Env → List ℕ → Receiver → Option (Receiver × List Call)
unfolding sample
receiver_run env [] rx = some (rx, [])
receiver_run env (curr ∷ samples) rx = do
  (rx', calls) ← sample env curr rx
  (rx'', more) ← receiver_run env samples rx'
  some (rx'', calls ++ more)
