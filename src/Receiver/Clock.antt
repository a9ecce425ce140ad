-- ===== src/Receiver/Clock.antt =====
-- `receiver_run` in two parts: the clock, which picks samples, and the decoder, which takes the
-- bits of the picked ones.
use gnuais.Common.{
  ℕ, ◌%◌, ◌≡◌, refl, sym, ap, ◌∙◌, inl, inr, Bool-cases, Option, none, some, List, [], ◌∷◌, ◌++◌,
  ltb, if◌then◌else◌, ◌>>=◌,
}
use gnuais.Protodec.Types.{Call, Env, Demod}
use gnuais.Protodec.Decode.{decode}
use gnuais.Protodec.Decode.Pieces.{joining, joining_nil, decode-append}
use gnuais.Receiver.{Receiver, advance_pll, advance, nrzi_bit, receiver_run}
use gnuais.Receiver.Slicing.{nrzi_read}

-- The samples at which the clock ends a period.
unfoldable pub picked : List ℕ → (prev pll pllinc : ℕ) → List ℕ
picked [] prev pll pllinc = []
picked (curr ∷ samples) prev pll pllinc =
    let now = advance_pll curr prev pll pllinc in
    let ends = picked samples curr (now % 0x10000) pllinc in
    let goes_on = picked samples curr now pllinc in if ltb 0xffff now then curr ∷ ends else goes_on

-- The decoder and its calls after a run.
abbrev pub outcome : Option (Receiver × List Call) → Option (Demod × List Call)
outcome m = m >>= λ (rx, calls). some (rx.decoder, calls)

outcome_later :
    (m : Option (Receiver × List Call)) (calls : List Call)
    → outcome (m >>= λ (rx, more). some (rx, calls ++ more)) ≡ (outcome m >>= joining calls)
outcome_later none calls = refl
outcome_later (some (rx, more)) calls = refl

outcome_fed :
    (env : Env) (samples bits : List ℕ) (f : Demod → Receiver) (o : Option (Demod × List Call))
    → ((d : Demod) → outcome (receiver_run env samples (f d)) ≡ decode env bits d)
    → outcome (
        o >>= (λ (d, calls). some (f d, calls)) >>= λ (rx, calls).
        receiver_run env samples rx >>= λ (rx', more). some (rx', calls ++ more))
      ≡ (o >>= λ (d, calls). decode env bits d >>= joining calls)
outcome_fed env samples bits f none h = refl
outcome_fed env samples bits f (some (d, calls)) h =
    outcome_later (receiver_run env samples (f d)) calls ∙ ap (λ m. m >>= joining calls) (h d)

-- `receiver_run` does to the decoder what `protodec_decode` does on the bits that the line code
-- gives for the picked samples, with the same calls.
pub outcome-receiver_run :
    (env : Env) (samples : List ℕ) (rx : Receiver)
    → outcome (receiver_run env samples rx)
      ≡ decode env (nrzi_read rx.lastbit (picked samples rx.prev rx.pll rx.pllinc)) rx.decoder
unfolding receiver_run picked nrzi_read
outcome-receiver_run env [] rx = unfold decode in refl
outcome-receiver_run env (curr ∷ samples) rx =
    let now = advance_pll curr rx.prev rx.pll rx.pllinc in
    elim (Bool-cases (ltb 0xffff now)) [
      | inl ends ↦
          let rest = picked samples curr (now % 0x10000) rx.pllinc in
          let b = nrzi_bit rx.lastbit curr in
          let f = λ (d : Demod). record rx {
            decoder = d;
            lastbit = curr;
            prev = curr;
            pll = now % 0x10000;
          } in
          rw ends (
            outcome_fed env samples (nrzi_read curr rest) f (decode env (b ∷ []) rx.decoder)
              (λ d. outcome-receiver_run env samples (f d))
            ∙ sym (decode-append env (b ∷ []) (nrzi_read curr rest) rx.decoder))
      | inr goes_on ↦ rw goes_on (
          outcome_later (receiver_run env samples (advance curr rx)) []
          ∙ (sym (joining_nil (outcome (receiver_run env samples (advance curr rx))))
              ∙ outcome-receiver_run env samples (advance curr rx)))
    ]
