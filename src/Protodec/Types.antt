-- ===== src/Protodec/Types.antt =====
-- The data of src/protodec.c: the decoder's state (src/protodec.h), the settings that it reads, and
-- what it hands to the rest of the program.
use Prim.Native.String.{String}
use gnuais.Common.{
  ℕ, ◌-◌, ◌/◌, ◌%◌, ◌^◌, bit_or, Bool, List, ℤ, pos, negsuc, ltb, ◌==◌, if◌then◌else◌,
}

-- A C expression `(float) num / den`, kept as the exact quotient.
pub data Scaled : Type 0 where
  over : ℤ → ℕ → Scaled

-- ST_SKURR to ST_STOPSIGN
pub data Phase : Type 0 where
  skurr preamble startsign payload stopsign : Phase

-- One printf of a message decoder or of `protodec_getdata`, with the values that it prints.
pub data Report : Type 0 where
  head : (type mmsi : ℕ) → Report
  trailer : (nmea : List ℕ) → Report
  position : (lat lon course sog : Scaled) (rateofturn navstat : ℤ) (heading : ℕ) → Report
  base : (year month day hour minute second : ℕ) (lat lon : Scaled) → Report
  vessel : (name destination : List ℕ) (shiptype length width : ℕ) (draught : Scaled) → Report
  addressed : (dst_mmsi sequence retransmitted appid dac fi : ℕ) → Report
  broadcast : (appid dac fi : ℕ) → Report
  ifm : String → Report
  persons : ℕ → Report
  weather :
      (lat lon : Scaled) (wind_speed wind_gust wind_dir wind_gust_dir air_temp rel_humid : ℕ)
      → (dew_point air_press air_press_tend visib water_level wave_height water_temp : ℕ) → Report
  buflen : (bufferlen next : ℕ) → Report
  ack : (number dst_mmsi sequence : ℕ) → Report
  vessel_b : (name : List ℕ) (shiptype length width : ℕ) → Report
  reserve : (number ofs slots timeout incr : ℕ) → Report
  part_a : (name : List ℕ) → Report
  part_b : (callsign : List ℕ) (shiptype length width : ℕ) → Report

-- A call of `cache_*` of src/cache.c, without the time and the MMSI that all of them take.
pub data Update : Type 0 where
  position :
      (navstat : ℤ) (lat lon : Scaled) (hdg : ℕ) (course : Scaled) (rateofturn : ℤ) (sog : Scaled)
      → Update
  vesseldata :
      (imo : ℕ) (callsign name destination : List ℕ) (shiptype a b c d : ℕ) (draught : Scaled)
      → Update
  vesseldatab : (callsign : List ℕ) (shiptype a b c d : ℕ) → Update
  vesseldatabb : (shiptype a b c d : ℕ) → Update
  vesselname : (name destination : List ℕ) → Update
  vessel_persons : ℕ → Update

-- A call of `myout_ais_*` of src/out_mysql.c.
pub data Row : Type 0 where
  position : (lat lon : Scaled) (heading : ℕ) (course sog : Scaled) → Row
  basestation : (lat lon : Scaled) → Row
  vesselname : (name destination : List ℕ) → Row
  vesseldata : (name destination : List ℕ) (draught : Scaled) (a b c d : ℕ) → Row
  vesseldatab : (a b c d : ℕ) → Row

-- What the decoder does to the outside, in order.
pub data Call : Type 0 where
  print : Report → Call
  my : (mmsi : ℕ) → Row → Call
  cache : (mmsi : ℕ) → Update → Call
  my_nmea : List ℕ → Call
  update_range : (lat lon : Scaled) → Call
  serial_write : List ℕ → Call
  ipc_write : List ℕ → Call

-- The globals that the decoder reads: `my`, `d->serial` and `d->ipc` as whether they are set.
pub record Env : Type 0 where
  pub has_my : Bool
  pub has_serial : Bool
  pub has_ipc : Bool
  pub cache_positions : Bool
  pub have_my_loc : Bool
  pub skip_type : List Bool

-- struct demod_state_t, without the members that are never read (`offset`, `tbuffer`), the output
-- buffers that are filled and written out at once, and `best_range`, which is src/range.c's.
pub record Demod : Type 0 where
  pub state : Phase
  pub nskurr : ℕ
  pub npreamble : ℕ
  pub nstartsign : ℕ
  pub ndata : ℕ
  pub nstopsign : ℕ
  pub antallenner : ℕ
  pub buffer : List ℕ
  pub rbuffer : List ℕ
  pub bufferpos : ℕ
  pub last : ℕ
  pub antallpreamble : ℕ
  pub bitstuff : Bool
  pub receivedframes : ℕ
  pub lostframes : ℕ
  pub lostframes2 : ℕ
  pub seqnr : ℕ
  pub nmea : List ℕ

-- An 8-bit value as a (signed) char, and a 32-bit pattern as an int.
unfoldable pub to_char : ℕ → ℤ
to_char n = if ltb n 128 then pos n else negsuc (255 - n)

unfoldable pub to_int : ℕ → ℤ
to_int n = if ltb n (2 ^ 31) then pos n else negsuc (2 ^ 32 - 1 - n)

-- `if (((x >> bit) & 1) == 1) x |= mask`, on the 32-bit pattern of an int.
unfoldable pub sign_extend : (bit mask x : ℕ) → ℤ
unfolding to_int
sign_extend bit mask x = to_int (if x / 2 ^ bit % 2 == 1 then bit_or x mask else x)
