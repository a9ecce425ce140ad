-- ===== src/Protodec/Messages/Binary.antt =====
-- The binary messages of src/protodec.c: `protodec_6`, `protodec_8`, `protodec_msg_bin` and what
-- they decode.
use Prim.Native.String.{String}
use gnuais.Common.{ℕ, ◌+◌, Option, some, List, [], ◌∷◌, pos, ◌==◌, if◌then◌else◌, ◌>>=◌}
use gnuais.Protodec.Henten.{henten}
use gnuais.Protodec.Messages.Position.{when}
use gnuais.Protodec.Types.{over, Report, Update, Call, print, cache, Env}

unfoldable pub appid_ifm : ℕ → String
appid_ifm i =
    if i == 0
    then "text-telegram"
    else if i == 1
    then "application-ack"
    else if i == 2
    then "iai-fi-capab-interrogation"
    else if i == 3
    then "iai-capabi-interrogation"
    else if i == 4
    then "capability-reply"
    else if i == 11
    then "tide-weather"
    else if i == 16
    then "vts-targets"
    else if i == 17
    then "ship-waypoints"
    else if i == 18
    then "advice-of-waypoints"
    else if i == 19
    then "extended-ship-data"
    else if i == 20
    then "berthing-data"
    else if i == 21
    then "weather-obs-report"
    else if i == 22
    then "area-notice-bc"
    else if i == 23
    then "area-notice-addr"
    else if i == 24
    then "extended-ship-static"
    else if i == 25
    then "dangerous-cargo-info"
    else if i == 26
    then "environmental"
    else if i == 27
    then "route-info-bc"
    else if i == 28
    then "route-info-addr"
    else if i == 29
    then "text-description-bc"
    else if i == 30
    then "text-description-addr"
    else if i == 40
    then "persons-on-board"
    else "unknown"

unfoldable pub protodec_msg_40 : Env → (mmsi : ℕ) → List ℕ → (msg_start : ℕ) → Option (List Call)
protodec_msg_40 env mmsi buffer msg_start = do
  people_on_board ← henten msg_start 13 buffer
  some (
      print (Report.persons people_on_board)
      ∷ when env.cache_positions (cache mmsi (Update.vessel_persons people_on_board)))

-- The additions to `msg_start` are those of the source, one for each field.
unfoldable pub protodec_msg_11 : List ℕ → (msg_start : ℕ) → Option (List Call)
protodec_msg_11 buffer msg_start = do
  latitude ← henten msg_start 24 buffer
  let at = msg_start + 24
  longitude ← henten at 25 buffer
  let at = at + 16
  wind_speed ← henten at 7 buffer
  let at = at + 7
  wind_gust ← henten at 7 buffer
  let at = at + 7
  wind_dir ← henten at 9 buffer
  let at = at + 9
  wind_gust_dir ← henten at 9 buffer
  let at = at + 9
  air_temp ← henten at 11 buffer
  let at = at + 11
  rel_humid ← henten at 7 buffer
  let at = at + 7
  dew_point ← henten at 10 buffer
  let at = at + 10
  air_press ← henten at 9 buffer
  let at = at + 9
  air_press_tend ← henten at 2 buffer
  let at = at + 2
  horiz_visib_nm ← henten at 8 buffer
  let at = at + 8
  water_level ← henten at 9 buffer
  let at = at + 5
  wave_height_significant ← henten at 8 buffer
  let at = at + 4
  water_temp ← henten at 10 buffer
  some (
      print (
        Report.weather (over (pos latitude) 60000) (over (pos longitude) 60000) wind_speed wind_gust
          wind_dir wind_gust_dir air_temp rel_humid dew_point (air_press + 800) air_press_tend
          horiz_visib_nm water_level wave_height_significant water_temp)
      ∷ [])

unfoldable pub protodec_msg_bin :
    Env → (mmsi : ℕ) → List ℕ → (appid_fi msg_start : ℕ) → Option (List Call)
unfolding protodec_msg_11 protodec_msg_40
protodec_msg_bin env mmsi buffer appid_fi msg_start =
    if appid_fi == 11
    then protodec_msg_11 buffer msg_start
    else if appid_fi == 40
    then protodec_msg_40 env mmsi buffer msg_start
    else some []

-- The end of `protodec_6` and of `protodec_8`.
unfoldable pub application :
    Env → (mmsi : ℕ) → List ℕ → (appid_dac appid_fi msg_start : ℕ) → Option (List Call)
unfolding protodec_msg_bin
application env mmsi rbuffer appid_dac appid_fi msg_start =
    let decoded : Option (List Call) = (do
      calls ← protodec_msg_bin env mmsi rbuffer appid_fi msg_start
      some (print (Report.ifm (appid_ifm appid_fi)) ∷ calls)) in
    if appid_dac == 1 then decoded else some []

unfoldable pub protodec_6 : Env → (mmsi : ℕ) → List ℕ → Option (List Call)
unfolding application
protodec_6 env mmsi rbuffer = do
  sequence ← henten 38 2 rbuffer
  dst_mmsi ← henten 40 30 rbuffer
  retransmitted ← henten 70 1 rbuffer
  appid ← henten 72 16 rbuffer
  appid_dac ← henten 72 10 rbuffer
  appid_fi ← henten 82 6 rbuffer
  calls ← application env mmsi rbuffer appid_dac appid_fi 88
  some (print (Report.addressed dst_mmsi sequence retransmitted appid appid_dac appid_fi) ∷ calls)

unfoldable pub protodec_8 : Env → (mmsi : ℕ) → List ℕ → Option (List Call)
unfolding application
protodec_8 env mmsi rbuffer = do
  appid ← henten 40 16 rbuffer
  appid_dac ← henten 40 10 rbuffer
  appid_fi ← henten 50 6 rbuffer
  calls ← application env mmsi rbuffer appid_dac appid_fi 56
  some (print (Report.broadcast appid appid_dac appid_fi) ∷ calls)
