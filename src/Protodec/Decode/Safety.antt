-- ===== src/Protodec/Decode/Safety.antt =====
-- The decoder's invariant, and that no sequence of bits makes it access anything outside of its
-- arrays.
use gnuais.Common.{
  ℕ, zero, suc, ◌+◌, ◌-◌, ◌*◌, ◌/◌, ◌≤◌, ◌<◌, ◌≡◌, refl, ◌&&◌, Option, some, List, [], ◌∷◌, Bool,
  true, false, inl, inr, Bool-cases, arith, ltb, ◌==◌, if◌then◌else◌, ◌>>=◌, length, take, drop,
  replicate, store-eq-set, length-set, length-append, length-replicate, All, All-set, All-append,
  All-take, All-drop, All-replicate, All-reverse, length-reverse, reverse, length-take, length-drop,
}
use gnuais.Protodec.Henten.{IsBit}
use gnuais.Protodec.Types.{Phase, skurr, preamble, startsign, payload, stopsign, Call, Env, Demod}
use gnuais.Protodec.Crc.{demod_buffer_len, sdlc_crc}
use gnuais.Protodec.Crc.Frame.{octets, turned, frame_of, calculate_crc-octets}
use gnuais.Protodec.Getdata.Bounds.{HandlesOk, handles, getdata-HandlesOk}
use gnuais.Protodec.Decode.{
  reset, on_stuffed, on_stored, on_data, on_skurr, on_preamble, on_startsign, on_frame, on_stopsign,
  on_phase, decode_bit, decode, initialize,
}

-- While a frame is taken in, the buffer holds bits; before that its contents are arbitrary.
abbrev pub FrameBits : Phase → List ℕ → Type 0
FrameBits payload buffer = All IsBit buffer
FrameBits stopsign buffer = All IsBit buffer
FrameBits skurr buffer = Unit
FrameBits preamble buffer = Unit
FrameBits startsign buffer = Unit

pub record IsValid (d : Demod) : Type 0 where
  pub buffer_full : length d.buffer ≡ 450
  pub rbuffer_full : length d.rbuffer ≡ 450
  pub inside : d.bufferpos < 449
  pub holds_bits : FrameBits d.state d.buffer
  pub digit : d.seqnr ≤ 9

pub data StepOk : Option (Demod × List Call) → Type 0 where
  steps : {d : Demod} {calls : List Call} → IsValid d → StepOk (some (d, calls))

bind-StepOk :
    {m : Option (Demod × List Call)} (f : Demod × List Call → Option (Demod × List Call))
    → StepOk m
    → ((d : Demod) (calls : List Call) → IsValid d → StepOk (f (d, calls)))
    → StepOk (m >>= f)
bind-StepOk f (steps {d} {calls} v) next = next d calls v

if-bind-StepOk :
    (b : Bool) (x y : Option Demod)
    → StepOk (x >>= λ d. some (d, []))
    → StepOk (y >>= λ d. some (d, []))
    → StepOk ((if b then x else y) >>= λ d. some (d, []))
if-bind-StepOk true x y p q = p
if-bind-StepOk false x y p q = q

reset-IsValid :
    (d : Demod) → length d.buffer ≡ 450 → length d.rbuffer ≡ 450 → d.seqnr ≤ 9 → IsValid (reset d)
unfolding reset
reset-IsValid d b r s = record {
  buffer_full = b;
  rbuffer_full = r;
  inside = omega arith;
  holds_bits = tt;
  digit = s;
}

module _ (bit : ℕ) (is_bit : IsBit bit) (d : Demod) (v : IsValid d) where
  on_skurr-IsValid : d.state ≡ skurr → IsValid (on_skurr bit d)
  unfolding on_skurr
  on_skurr-IsValid e = ground arith

  on_preamble-IsValid : d.state ≡ preamble → IsValid (on_preamble bit d)
  unfolding on_preamble
  on_preamble-IsValid e = ground arith

  on_startsign-IsValid : d.state ≡ startsign → IsValid (on_startsign bit d)
  unfolding on_startsign
  on_startsign-IsValid e = ground (
    arith,
    All-replicate IsBit demod_buffer_len 0 (omega arith),
    length-replicate {A = ℕ} demod_buffer_len 0,
  )

  on_stuffed-IsValid : d.state ≡ payload → IsValid (on_stuffed bit d)
  unfolding on_stuffed
  on_stuffed-IsValid e = ground arith

  on_stored-StepOk : d.state ≡ payload → StepOk (on_stored bit d >>= λ d'. some (d', []))
  unfolding on_stored
  on_stored-StepOk e = rw (store-eq-set d.buffer d.bufferpos bit (omega arith)) (
      steps (
        ground (
          arith,
          length-set d.buffer d.bufferpos bit,
          All-set IsBit d.buffer d.bufferpos bit is_bit,
        )))

  on_data-StepOk : d.state ≡ payload → StepOk (on_data bit d >>= λ d'. some (d', []))
  unfolding on_data
  on_data-StepOk e =
      if-bind-StepOk d.bitstuff (some (on_stuffed bit d)) (on_stored bit d)
        (steps (on_stuffed-IsValid e)) (on_stored-StepOk e)

All-turned : (n : ℕ) (bits : List ℕ) → All IsBit bits → All IsBit (turned n bits)
unfolding turned
All-turned zero bits p = tt
All-turned (suc n) bits p =
    All-append IsBit (reverse (take 8 bits)) (turned n (drop 8 bits))
      (All-reverse IsBit (take 8 bits) (All-take IsBit 8 bits p))
      (All-turned n (drop 8 bits) (All-drop IsBit 8 bits p))

length-turned : (n : ℕ) (bits : List ℕ) → 8 * n ≤ length bits → length (turned n bits) ≡ 8 * n
unfolding turned
length-turned zero bits h = refl
length-turned (suc n) bits h = omega (
  arith,
  length-append (reverse (take 8 bits)) (turned n (drop 8 bits)),
  length-reverse (take 8 bits),
  length-take 8 bits,
  length-drop 8 bits,
  length-turned n (drop 8 bits) (omega (arith, length-drop 8 bits)),
)

module _ (n : ℕ) (bits : List ℕ) (p : All IsBit bits) where
  pub All-frame_of : All IsBit (frame_of n bits)
  unfolding frame_of
  All-frame_of =
      All-append IsBit (turned n bits) (replicate (demod_buffer_len - 8 * n) 0)
        (All-turned n bits p) (All-replicate IsBit (demod_buffer_len - 8 * n) 0 (omega arith))

  pub length-frame_of : 8 * n ≤ length bits → 8 * n ≤ 450 → length (frame_of n bits) ≡ 450
  unfolding frame_of
  length-frame_of h k = omega (
    arith,
    length-append (turned n bits) (replicate (demod_buffer_len - 8 * n) 0),
    length-turned n bits h,
    length-replicate {A = ℕ} (demod_buffer_len - 8 * n) 0,
  )

abbrev pub closing : Demod × List Call → Option (Demod × List Call)
closing (d, calls) = some (reset d, calls)

closing-StepOk :
    (d : Demod) (m : Option (Demod × List Call))
    → length d.buffer ≡ 450
    → HandlesOk d m
    → StepOk (m >>= closing)
closing-StepOk d m b (handles out h) = steps (
    rw h.state_is (
      reset-IsValid (record d { rbuffer = h.rbuffer; nmea = h.nmea; seqnr = h.seqnr }) b h.full
        h.rolls))

module _ (env : Env) (types : length env.skip_type ≡ 25) (d : Demod) (v : IsValid d) where
  on_frame-StepOk :
      d.state ≡ stopsign → 22 < d.bufferpos → StepOk (on_frame env (d.bufferpos - 22) d >>= closing)
  unfolding on_frame
  on_frame-StepOk e long =
      let n : ℕ = (d.bufferpos - 22) / 8 in
      let frame : List ℕ = frame_of n d.buffer in
      let bits : All IsBit d.buffer = ground (arith, v.holds_bits) in
      let good = All-frame_of n d.buffer bits in
      let full : length frame ≡ 450 =
        length-frame_of n d.buffer bits (omega (arith, v.buffer_full, v.inside))
          (omega (arith, v.inside)) in
      let correct : Bool = sdlc_crc (octets (n + 2) d.buffer) == 0x0f47 in
      let received = record d { rbuffer = frame; receivedframes = d.receivedframes + 1 } in
      rw
        (calculate_crc-octets (d.bufferpos - 22) d.buffer d.rbuffer bits v.buffer_full (omega arith)
          (omega (arith, v.inside)))
        (elim (Bool-cases correct) [
          | inl yes_it_is ↦ rw yes_it_is (
              closing-StepOk received _ v.buffer_full (
                getdata-HandlesOk env types received good full v.digit (d.bufferpos - 22)
                  (omega arith) (omega (arith, v.inside))))
          | inr wrong ↦ rw wrong (steps (reset-IsValid _ v.buffer_full full v.digit))
        ])

  on_stopsign-StepOk : (bit : ℕ) → d.state ≡ stopsign → StepOk (on_stopsign env bit d)
  unfolding on_stopsign
  on_stopsign-StepOk bit e = elim (Bool-cases (bit == 0 && ltb 22 d.bufferpos)) [
    | inl end ↦ rw end (on_frame-StepOk e (ground arith))
    | inr error ↦ rw error (
        steps (
          reset-IsValid (record d { lostframes2 = d.lostframes2 + 1 }) v.buffer_full v.rbuffer_full
            v.digit))
  ]

  on_phase-StepOk :
      (bit : ℕ) → IsBit bit → (phase : Phase) → d.state ≡ phase → StepOk (on_phase phase env bit d)
  unfolding on_phase
  on_phase-StepOk bit b skurr e = steps (on_skurr-IsValid bit b d v e)
  on_phase-StepOk bit b preamble e = steps (on_preamble-IsValid bit b d v e)
  on_phase-StepOk bit b startsign e = steps (on_startsign-IsValid bit b d v e)
  on_phase-StepOk bit b payload e = on_data-StepOk bit b d v e
  on_phase-StepOk bit b stopsign e = on_stopsign-StepOk bit e

last-IsValid : (bit : ℕ) (d : Demod) → IsValid d → IsValid (record d { last = bit })
last-IsValid bit d v = record {
  buffer_full = v.buffer_full;
  rbuffer_full = v.rbuffer_full;
  inside = v.inside;
  holds_bits = v.holds_bits;
  digit = v.digit;
}

module _ (env : Env) (types : length env.skip_type ≡ 25) where
  pub decode_bit-StepOk :
      (bit : ℕ) (d : Demod) → IsBit bit → IsValid d → StepOk (decode_bit env bit d)
  unfolding decode_bit
  decode_bit-StepOk bit d b v =
      bind-StepOk _ (on_phase-StepOk env types d v bit b d.state refl)
        λ d' calls w. steps (last-IsValid bit d' w)

  -- From a valid state, and with `skip_type` of its declared size, `protodec_decode` takes any bits
  -- without an access outside of an array, and ends in a valid state.
  pub decode-StepOk :
      (bits : List ℕ) (d : Demod) → All IsBit bits → IsValid d → StepOk (decode env bits d)
  unfolding decode
  decode-StepOk [] d b v = steps v
  decode-StepOk (bit ∷ bits) d b v =
      bind-StepOk _ (decode_bit-StepOk bit d b.0 v)
        λ d' calls w. bind-StepOk _ (decode-StepOk bits d' b.1 w) λ d'' more w'. steps w'

-- With buffers of their allocated size, whatever they hold, `protodec_initialize` gives a valid
-- state.
pub initialize-IsValid :
    (buffer rbuffer : List ℕ)
    → length buffer ≡ 450
    → length rbuffer ≡ 450
    → IsValid (initialize buffer rbuffer)
unfolding initialize
initialize-IsValid buffer rbuffer b r = record {
  buffer_full = b;
  rbuffer_full = r;
  inside = omega arith;
  holds_bits = tt;
  digit = omega arith;
}
