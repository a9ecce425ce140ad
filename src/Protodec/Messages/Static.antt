-- ===== src/Protodec/Messages/Static.antt =====
-- `protodec_5`, `protodec_19` and `protodec_24` of src/protodec.c: names, call signs, dimensions.
use gnuais.Common.{ℕ, ◌+◌, Option, some, List, [], ◌∷◌, ◌++◌, pos, ◌==◌, if◌then◌else◌, ◌>>=◌}
use gnuais.Protodec.Henten.{henten}
use gnuais.Protodec.Text.{text}
use gnuais.Protodec.Messages.Position.{when}
use gnuais.Protodec.Types.{over, Report, Update, Row, Call, print, my, cache, Env}

-- `destination` of the class B decoders, "CLASS B"
abbrev pub class_b : List ℕ
class_b = b'C' ∷ b'L' ∷ b'A' ∷ b'S' ∷ b'S' ∷ b' ' ∷ b'B' ∷ []

unfoldable pub protodec_5 : Env → (mmsi : ℕ) → List ℕ → Option (List Call)
protodec_5 env mmsi rbuffer = do
  imo ← henten 40 30 rbuffer
  callsign ← text 7 6 70 rbuffer
  name ← text 21 20 112 rbuffer
  destination ← text 21 20 (120 + 106 + 68 + 8) rbuffer
  shiptype ← henten 232 8 rbuffer
  a ← henten 240 9 rbuffer
  b ← henten (240 + 9) 9 rbuffer
  c ← henten (240 + 9 + 9) 6 rbuffer
  d ← henten (240 + 9 + 9 + 6) 6 rbuffer
  draught ← henten 294 8 rbuffer
  let depth = over (pos draught) 10
  some (
      print (Report.vessel name destination shiptype (a + b) (c + d) depth)
      ∷ (when env.has_my (my mmsi (Row.vesseldata name destination depth a b c d))
          ++ when env.cache_positions (
              cache mmsi (Update.vesseldata imo callsign name destination shiptype a b c d depth))))

unfoldable pub protodec_19 : Env → (mmsi : ℕ) → List ℕ → Option (List Call)
protodec_19 env mmsi rbuffer = do
  name ← text 21 20 143 rbuffer
  shiptype ← henten 263 8 rbuffer
  a ← henten 271 9 rbuffer
  b ← henten (271 + 9) 9 rbuffer
  c ← henten (271 + 9 + 9) 6 rbuffer
  d ← henten (271 + 9 + 9 + 6) 6 rbuffer
  some (
      print (Report.vessel_b name shiptype (a + b) (c + d))
      ∷ (when env.has_my (my mmsi (Row.vesselname name class_b))
          ++ (when env.has_my (my mmsi (Row.vesseldatab a b c d))
              ++ (when env.cache_positions (cache mmsi (Update.vesselname name class_b))
                  ++ when env.cache_positions
                      (cache mmsi (Update.vesseldatabb shiptype a b c d))))))

-- Part A of a type 24 report: the name.
unfoldable pub part_a : Env → (mmsi : ℕ) → List ℕ → Option (List Call)
part_a env mmsi rbuffer = do
  name ← text 21 20 40 rbuffer
  some (
      print (Report.part_a name)
      ∷ (when env.has_my (my mmsi (Row.vesselname name class_b))
          ++ when env.cache_positions (cache mmsi (Update.vesselname name class_b))))

-- Part B: call sign, type and dimensions.
unfoldable pub part_b : Env → (mmsi : ℕ) → List ℕ → Option (List Call)
part_b env mmsi rbuffer = do
  callsign ← text 7 6 90 rbuffer
  shiptype ← henten 40 8 rbuffer
  a ← henten 132 9 rbuffer
  b ← henten (132 + 9) 9 rbuffer
  c ← henten (132 + 9 + 9) 6 rbuffer
  d ← henten (132 + 9 + 9 + 6) 6 rbuffer
  some (
      print (Report.part_b callsign shiptype (a + b) (c + d))
      ∷ (when env.has_my (my mmsi (Row.vesseldatab a b c d))
          ++ when env.cache_positions (cache mmsi (Update.vesseldatab callsign shiptype a b c d))))

unfoldable pub protodec_24 : Env → (mmsi : ℕ) → List ℕ → Option (List Call)
unfolding part_a part_b
protodec_24 env mmsi rbuffer = do
  partnr ← henten 38 2 rbuffer
  if partnr == 0
      then part_a env mmsi rbuffer
      else if partnr == 1
      then part_b env mmsi rbuffer
      else some []
