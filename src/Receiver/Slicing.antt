-- ===== src/Receiver/Slicing.antt =====
-- The bits that `receiver_run` feeds to the decoder, and that the clock keeps in its range.
use gnuais.Common.{
  ℕ, zero, suc, ◌-◌, ◌%◌, ◌<◌, ◌≡◌, refl, ap, ◌∙◌, Bool, true, false, Option, some, List, [], ◌∷◌,
  arith, ltb, if◌then◌else◌, ◌>>=◌, length, All,
}
use gnuais.Protodec.Henten.{IsBit}
use gnuais.Protodec.Types.{Call, Env, Demod}
use gnuais.Protodec.Decode.Safety.{IsValid, StepOk, steps, decode-StepOk, initialize-IsValid}
use gnuais.Receiver.{Receiver, advance, nrzi_bit, slice, sample, receiver_run, init_receiver}

-- The sender's side of NRZI: the level changes for a zero.
unfoldable pub nrzi_send : (level : ℕ) → List ℕ → List ℕ
nrzi_send level [] = []
nrzi_send level (zero ∷ bits) = (1 - level) ∷ nrzi_send (1 - level) bits
nrzi_send level (suc b ∷ bits) = level ∷ nrzi_send level bits

-- The bits that the receiver reads off the levels at the ends of the clock's periods.
unfoldable pub nrzi_read : (level : ℕ) → List ℕ → List ℕ
unfolding nrzi_bit
nrzi_read level [] = []
nrzi_read level (l ∷ levels) = nrzi_bit level l ∷ nrzi_read l levels

-- Whatever level the line starts from, the receiver reads the bits that were sent.
pub nrzi_read-nrzi_send :
    (level : ℕ) (bits : List ℕ)
    → IsBit level
    → All IsBit bits
    → nrzi_read level (nrzi_send level bits) ≡ bits
unfolding nrzi_read nrzi_send nrzi_bit
nrzi_read-nrzi_send level [] h p = refl
nrzi_read-nrzi_send zero (zero ∷ bits) h p =
    ap (λ r. 0 ∷ r) (nrzi_read-nrzi_send 1 bits (omega arith) p.1)
nrzi_read-nrzi_send (suc zero) (zero ∷ bits) h p =
    ap (λ r. 0 ∷ r) (nrzi_read-nrzi_send 0 bits (omega arith) p.1)
nrzi_read-nrzi_send zero (suc zero ∷ bits) h p =
    ap (λ r. 1 ∷ r) (nrzi_read-nrzi_send 0 bits (omega arith) p.1)
nrzi_read-nrzi_send (suc zero) (suc zero ∷ bits) h p =
    ap (λ r. 1 ∷ r) (nrzi_read-nrzi_send 1 bits (omega arith) p.1)
nrzi_read-nrzi_send (suc (suc level)) (b ∷ bits) h p = absurd (omega arith)
nrzi_read-nrzi_send zero (suc (suc b) ∷ bits) h p = absurd (omega (arith, p.0))
nrzi_read-nrzi_send (suc zero) (suc (suc b) ∷ bits) h p = absurd (omega (arith, p.0))

-- The clock is within its period, and goes on by a fifth of it.
pub record IsLocked (rx : Receiver) : Type 0 where
  pub in_period : rx.pll < 0x10000
  pub rate : rx.pllinc ≡ 13107
  pub decodes : IsValid rx.decoder

pub data RunOk : Option (Receiver × List Call) → Type 0 where
  runs : {rx : Receiver} {calls : List Call} → IsLocked rx → RunOk (some (rx, calls))

bind-RunOk :
    {m : Option (Receiver × List Call)} (f : Receiver × List Call → Option (Receiver × List Call))
    → RunOk m
    → ((rx : Receiver) (calls : List Call) → IsLocked rx → RunOk (f (rx, calls)))
    → RunOk (m >>= f)
bind-RunOk f (runs {rx} {calls} v) next = next rx calls v

advance-rest :
    (curr : ℕ) (rx : Receiver)
    → ((advance curr rx).pllinc ≡ rx.pllinc) × ((advance curr rx).decoder ≡ rx.decoder)
unfolding advance
advance-rest curr rx = (refl, refl)

nrzi_bit-IsBit : (lastbit bit : ℕ) → IsBit (nrzi_bit lastbit bit)
unfolding nrzi_bit
nrzi_bit-IsBit lastbit bit = ground arith

fed :
    (rx : Receiver) (bit : ℕ) (m : Option (Demod × List Call))
    → rx.pllinc ≡ 13107
    → StepOk m
    → RunOk (
        m >>= λ (d, calls).
        some (record rx { decoder = d; lastbit = bit; pll = rx.pll % 0x10000 }, calls))
fed rx bit _ e (steps v) = runs (record { in_period = omega arith; rate = e; decodes = v })

if-RunOk :
    (b : Bool) (x y : Option (Receiver × List Call))
    → RunOk x
    → (b ≡ false → RunOk y)
    → RunOk (if b then x else y)
if-RunOk true x y p q = p
if-RunOk false x y p q = q refl

module _ (env : Env) (types : length env.skip_type ≡ 25) where
  slice-RunOk :
      (bit : ℕ) (rx : Receiver) → rx.pllinc ≡ 13107 → IsValid rx.decoder → RunOk (slice env bit rx)
  unfolding slice
  slice-RunOk bit rx e v = fed rx bit _ e (
      decode-StepOk env types (nrzi_bit rx.lastbit bit ∷ []) rx.decoder
        (nrzi_bit-IsBit rx.lastbit bit, tt) v)

  sample-RunOk : (curr : ℕ) (rx : Receiver) → IsLocked rx → RunOk (sample env curr rx)
  unfolding sample
  sample-RunOk curr rx v =
      let rx' = advance curr rx in
      let rest = advance-rest curr rx in
      let rate : rx'.pllinc ≡ 13107 = rest.0 ∙ v.rate in
      let valid : IsValid rx'.decoder = rw rest.1 v.decodes in
      if-RunOk (ltb 0xffff rx'.pll) (slice env curr rx') (some (rx', []))
        (slice-RunOk curr rx' rate valid)
        (λ low. runs (record { in_period = ground arith; rate = rate; decodes = valid }))

  -- From a receiver whose clock is in its period and whose decoder is valid, and with `skip_type` of
  -- its declared size, `receiver_run` takes any samples without an access outside of an array of the
  -- decoder, and keeps the clock in its period and the decoder valid.
  pub receiver_run-RunOk :
      (samples : List ℕ) (rx : Receiver) → IsLocked rx → RunOk (receiver_run env samples rx)
  unfolding receiver_run
  receiver_run-RunOk [] rx v = runs v
  receiver_run-RunOk (curr ∷ samples) rx v =
      bind-RunOk _ (sample-RunOk curr rx v)
        λ rx' calls w. bind-RunOk _ (receiver_run-RunOk samples rx' w) λ rx'' more w'. runs w'

-- `init_receiver` gives such a receiver, whatever the allocated buffers hold.
pub init_receiver-IsLocked :
    (buffer rbuffer : List ℕ)
    → length buffer ≡ 450
    → length rbuffer ≡ 450
    → IsLocked (init_receiver buffer rbuffer)
unfolding init_receiver
init_receiver-IsLocked buffer rbuffer b r = record {
  in_period = omega arith;
  rate = refl;
  decodes = initialize-IsValid buffer rbuffer b r;
}
