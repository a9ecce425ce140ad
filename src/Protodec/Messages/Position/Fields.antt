-- ===== src/Protodec/Messages/Position/Fields.antt =====
-- What the position decoders read, against the two's complement value of each field.
use gnuais.Common.{
  ℕ, ◌+◌, ◌-◌, ◌^◌, ◌≤◌, ◌<◌, ◌≡◌, some, [], List, ◌∷◌, ◌++◌, ℤ, pos, negsuc, arith, ltb,
  if◌then◌else◌, length, All, bit_or_low,
}
use gnuais.Protodec.Henten.{IsBit, henten, field, henten-field, field-lt}
use gnuais.Protodec.Types.{
  over, Report, Update, Row, print, my, cache, update_range, Env, to_char, sign_extend,
}
use gnuais.Protodec.Messages.Position.{
  when, degrees, report_position, protodec_pos, protodec_4, protodec_18,
}

-- The two's complement value of a number of `bit + 1` bits.
unfoldable pub signed : (bit x : ℕ) → ℤ
signed bit x = if ltb x (2 ^ bit) then pos x else negsuc (2 ^ (bit + 1) - 1 - x)

pub sign_extend-longitude : (x : ℕ) → x < 2 ^ 28 → sign_extend 27 0xF0000000 x ≡ signed 27 x
unfolding sign_extend signed
sign_extend-longitude x h = ground (arith, bit_or_low 28 15 x h)

pub sign_extend-latitude : (x : ℕ) → x < 2 ^ 27 → sign_extend 26 0xf8000000 x ≡ signed 26 x
unfolding sign_extend signed
sign_extend-latitude x h = ground (arith, bit_or_low 27 31 x h)

module _ (env : Env) (mmsi : ℕ) (frame : List ℕ) (bits : All IsBit frame)
    (full : length frame ≡ 450) where
  pub at :
      (from size : ℕ)
      → from + size ≤ 450
      → size ≤ 31
      → henten from size frame ≡ some (field from size frame)
  at from size h small = henten-field from size frame bits (omega arith) small

  -- A longitude of 28 bits, a latitude of 27.
  lon_at :
      (from : ℕ)
      → from + 28 ≤ 450
      → sign_extend 27 0xF0000000 (field from 28 frame) ≡ signed 27 (field from 28 frame)
  lon_at from h = sign_extend-longitude _ (field-lt from 28 frame bits (omega arith))

  lat_at :
      (from : ℕ)
      → from + 27 ≤ 450
      → sign_extend 26 0xf8000000 (field from 27 frame) ≡ signed 26 (field from 27 frame)
  lat_at from h = sign_extend-latitude _ (field-lt from 27 frame bits (omega arith))

  -- On a full frame of bits, the decoder of the types 1 to 3 faults nowhere. It prints the latitude
  -- and the longitude as the two's complement values of their fields, in degrees, with the course,
  -- the speed, the rate of turn, the status and the heading of their fields, and with the settings
  -- that ask for it stores the same position in the database and in the cache, and hands it to the
  -- statistics of the range.
  pub protodec_pos-fields :
      let lat = over (signed 26 (field 89 27 frame)) 600000 in
      let lon = over (signed 27 (field 61 28 frame)) 600000 in
      let course = over (pos (field 116 12 frame)) 10 in
      let sog = over (pos (field 50 10 frame)) 10 in
      let rate = to_char (field 40 8 frame) in
      let status = to_char (field 38 2 frame) in
      let heading = field 128 9 frame in
      protodec_pos env mmsi frame
      ≡ some (
          print (Report.position lat lon course sog rate status heading)
          ∷ ((if env.has_my then my mmsi (Row.position lat lon heading course sog) ∷ [] else [])
              ++ ((if env.cache_positions
                    then cache mmsi (Update.position status lat lon heading course rate sog) ∷ []
                    else [])
                  ++ (if env.have_my_loc then update_range lat lon ∷ [] else []))))
  unfolding protodec_pos report_position when
  protodec_pos-fields = rw (
    at 61 28 (omega arith) (omega arith),
    at 89 27 (omega arith) (omega arith),
    at 116 12 (omega arith) (omega arith),
    at 50 10 (omega arith) (omega arith),
    at 40 8 (omega arith) (omega arith),
    at 38 2 (omega arith) (omega arith),
    at 128 9 (omega arith) (omega arith),
    lon_at 61 (omega arith),
    lat_at 89 (omega arith),
  )

  -- On a full frame of bits, the decoder of type 18 faults nowhere and reports the position of the
  -- class B layout as two's complement values in degrees, with its course, speed and heading, no
  -- rate of turn, and the status 15.
  pub protodec_18-fields :
      protodec_18 env mmsi frame
      ≡ some (
          report_position env mmsi
            (degrees (signed 26 (field 85 27 frame)))
            (degrees (signed 27 (field 57 28 frame)))
            (field 112 12 frame)
            (field 46 10 frame)
            (field 124 9 frame)
            (pos 0)
            (pos 15))
  unfolding protodec_18
  protodec_18-fields = rw (
    at 57 28 (omega arith) (omega arith),
    at 85 27 (omega arith) (omega arith),
    at 112 12 (omega arith) (omega arith),
    at 46 10 (omega arith) (omega arith),
    at 124 9 (omega arith) (omega arith),
    lon_at 57 (omega arith),
    lat_at 85 (omega arith),
  )

  -- On a full frame of bits, the decoder of type 4 faults nowhere, reports the time and the position
  -- of the base station, as two's complement values in degrees, and caches the position with the
  -- settings that ask for it.
  pub protodec_4-fields :
      let lon = degrees (signed 27 (field 79 28 frame)) in
      let lat = degrees (signed 26 (field 107 27 frame)) in
      protodec_4 env mmsi frame
      ≡ some (
          print (
            Report.base
              (field 40 12 frame)
              (field 52 4 frame)
              (field 56 5 frame)
              (field 61 5 frame)
              (field 66 6 frame)
              (field 72 6 frame)
              lat
              lon)
          ∷ (when env.has_my (my mmsi (Row.basestation lat lon))
              ++ (when env.cache_positions (
                    cache mmsi
                      (Update.position (pos 0) lat lon 0 (over (pos 0) 1) (pos 0) (over (pos 0) 1)))
                  ++ when env.have_my_loc (update_range lat lon))))
  unfolding protodec_4
  protodec_4-fields = rw (
    at 40 12 (omega arith) (omega arith),
    at 52 4 (omega arith) (omega arith),
    at 56 5 (omega arith) (omega arith),
    at 61 5 (omega arith) (omega arith),
    at 66 6 (omega arith) (omega arith),
    at 72 6 (omega arith) (omega arith),
    at 79 28 (omega arith) (omega arith),
    at 107 27 (omega arith) (omega arith),
    lon_at 79 (omega arith),
    lat_at 107 (omega arith),
  )
