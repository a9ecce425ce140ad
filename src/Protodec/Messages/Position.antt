-- ===== src/Protodec/Messages/Position.antt =====
-- `protodec_pos` (types 1 to 3), `protodec_4` and `protodec_18` of src/protodec.c.
pub mod Fields
use gnuais.Common.{ℕ, ◌+◌, ℤ, Bool, Option, some, List, [], ◌∷◌, ◌++◌, pos, if◌then◌else◌, ◌>>=◌}
use gnuais.Protodec.Henten.{henten}
use gnuais.Protodec.Types.{
  Scaled, over, Report, Update, Row, Call, print, my, cache, update_range, Env, to_char,
  sign_extend,
}

-- A call that the program makes only if a setting is on.
unfoldable pub when : Bool → Call → List Call
when b c = if b then c ∷ [] else []

-- `(float) x / 600000.0` and `(float) x / 10.0`
abbrev pub degrees : ℤ → Scaled
degrees x = over x 600000

abbrev tenths : ℕ → Scaled
tenths x = over (pos x) 10

-- The end of `protodec_pos` and of `protodec_18`: the printf, the database, the cache, the range.
unfoldable pub report_position :
    Env
    → (mmsi : ℕ) (lat lon : Scaled) (course sog heading : ℕ) (rateofturn navstat : ℤ) → List Call
report_position env mmsi lat lon course sog heading rateofturn navstat =
    print (Report.position lat lon (tenths course) (tenths sog) rateofturn navstat heading)
    ∷ (when env.has_my (my mmsi (Row.position lat lon heading (tenths course) (tenths sog)))
        ++ (when env.cache_positions (
              cache mmsi
                (Update.position navstat lat lon heading (tenths course) rateofturn (tenths sog)))
            ++ when env.have_my_loc (update_range lat lon)))

unfoldable pub protodec_pos : Env → (mmsi : ℕ) → List ℕ → Option (List Call)
protodec_pos env mmsi rbuffer = do
  longitude ← henten 61 28 rbuffer
  latitude ← henten (38 + 22 + 29) 27 rbuffer
  course ← henten (38 + 22 + 28 + 28) 12 rbuffer
  sog ← henten 50 10 rbuffer
  rateofturn ← henten (38 + 2) 8 rbuffer
  navstat ← henten 38 2 rbuffer
  heading ← henten (38 + 22 + 28 + 28 + 12) 9 rbuffer
  some (
      report_position env mmsi (degrees (sign_extend 26 0xf8000000 latitude))
        (degrees (sign_extend 27 0xF0000000 longitude)) course sog heading (to_char rateofturn)
        (to_char navstat))

unfoldable pub protodec_18 : Env → (mmsi : ℕ) → List ℕ → Option (List Call)
protodec_18 env mmsi rbuffer = do
  longitude ← henten 57 28 rbuffer
  latitude ← henten 85 27 rbuffer
  course ← henten 112 12 rbuffer
  sog ← henten 46 10 rbuffer
  heading ← henten 124 9 rbuffer
  some (
      report_position env mmsi (degrees (sign_extend 26 0xf8000000 latitude))
        (degrees (sign_extend 27 0xF0000000 longitude)) course sog heading (pos 0) (pos 15))

-- The base station's `longit` and `latit` are `(float) x / 10000.0 / 60.0`.
unfoldable pub protodec_4 : Env → (mmsi : ℕ) → List ℕ → Option (List Call)
protodec_4 env mmsi rbuffer = do
  year ← henten 40 12 rbuffer
  month ← henten 52 4 rbuffer
  day ← henten 56 5 rbuffer
  hour ← henten 61 5 rbuffer
  minute ← henten 66 6 rbuffer
  second ← henten 72 6 rbuffer
  longitude ← henten 79 28 rbuffer
  latitude ← henten 107 27 rbuffer
  let lon = degrees (sign_extend 27 0xF0000000 longitude)
  let lat = degrees (sign_extend 26 0xf8000000 latitude)
  some (
      print (Report.base year month day hour minute second lat lon)
      ∷ (when env.has_my (my mmsi (Row.basestation lat lon))
          ++ (when env.cache_positions (
                cache mmsi
                  (Update.position (pos 0) lat lon 0 (over (pos 0) 1) (pos 0) (over (pos 0) 1)))
              ++ when env.have_my_loc (update_range lat lon))))
