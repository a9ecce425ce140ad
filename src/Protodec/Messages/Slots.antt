-- ===== src/Protodec/Messages/Slots.antt =====
-- The messages that repeat a group: `protodec_7_13` (acknowledgements) and `protodec_20`
-- (reserved slots) of src/protodec.c. Both loops run at most four times: `left` is 4 - i.
use gnuais.Common.{
  ℕ, zero, suc, ◌+◌, ◌-◌, Option, some, List, [], ◌∷◌, ltb, leb, if◌then◌else◌, ◌>>=◌,
}
use gnuais.Protodec.Henten.{henten}
use gnuais.Protodec.Types.{Report, Call, print}

unfoldable pub acks : (left pos : ℕ) → (bufferlen : ℕ) → List ℕ → Option (List Call)
acks zero pos bufferlen rbuffer = some []
acks (suc left) pos bufferlen rbuffer =
    let group : Option (List Call) = (do
      dst_mmsi ← henten pos 30 rbuffer
      sequence ← henten (pos + 30) 2 rbuffer
      rest ← acks left (pos + 32) bufferlen rbuffer
      some (print (Report.ack (4 - left) dst_mmsi sequence) ∷ rest)) in
    if leb (pos + 32) bufferlen then group else some []

unfoldable pub protodec_7_13 : (bufferlen : ℕ) → List ℕ → Option (List Call)
unfolding acks
protodec_7_13 bufferlen rbuffer = do
  rest ← acks 4 40 bufferlen rbuffer
  some (print (Report.buflen bufferlen (40 + 32)) ∷ rest)

unfoldable pub slots : (left pos : ℕ) → (bufferlen : ℕ) → List ℕ → Option (List Call)
slots zero pos bufferlen rbuffer = some []
slots (suc left) pos bufferlen rbuffer =
    let group : Option (List Call) = (do
      ofs ← henten pos 12 rbuffer
      count ← henten (pos + 12) 4 rbuffer
      timeout ← henten (pos + 12 + 4) 3 rbuffer
      incr ← henten (pos + 12 + 4 + 3) 11 rbuffer
      rest ← slots left (pos + 30) bufferlen rbuffer
      some (print (Report.reserve (4 - left) ofs count timeout incr) ∷ rest)) in
    if ltb (pos + 30) bufferlen then group else some []

unfoldable pub protodec_20 : (bufferlen : ℕ) → List ℕ → Option (List Call)
unfolding slots
protodec_20 bufferlen rbuffer = slots 4 40 bufferlen rbuffer
