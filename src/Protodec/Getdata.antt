-- ===== src/Protodec/Getdata.antt =====
-- `protodec_getdata` of src/protodec.c: a frame whose check sequence is right.
pub mod Bounds
use gnuais.Common.{
  ℕ, zero, suc, ◌+◌, ◌-◌, ◌%◌, ◌||◌, Option, some, List, [], ◌∷◌, ◌++◌, ltb, ◌==◌, if◌then◌else◌,
  ◌>>=◌, get_elem?, store,
}
use gnuais.Protodec.Henten.{henten}
use gnuais.Protodec.Types.{Report, Call, print, Env, Demod}
use gnuais.Protodec.Nmea.{emit_all, generate_nmea, last_sentence}
use gnuais.Protodec.Messages.Position.{protodec_pos, protodec_4, protodec_18}
use gnuais.Protodec.Messages.Static.{protodec_5, protodec_19, protodec_24}
use gnuais.Protodec.Messages.Binary.{protodec_6, protodec_8}
use gnuais.Protodec.Messages.Slots.{protodec_7_13, protodec_20}

-- MAX_AIS_PACKET_TYPE
abbrev pub max_ais_packet_type : ℕ
max_ais_packet_type = 24

-- `for (k = bufferlen; k < bufferlen + fillbits; k++) d->rbuffer[k] = 0`
unfoldable pub clear_bits : (left k : ℕ) → List ℕ → Option (List ℕ)
clear_bits zero k rbuffer = some rbuffer
clear_bits (suc left) k rbuffer = do r ← store rbuffer k 0; clear_bits left (k + 1) r

unfoldable pub fillbits_of : ℕ → ℕ
fillbits_of bufferlen = if ltb 0 (bufferlen % 6) then 6 - bufferlen % 6 else 0

-- The switch on the message type.
unfoldable pub dispatch : Env → (type mmsi bufferlen : ℕ) → List ℕ → Option (List Call)
dispatch env type mmsi bufferlen rbuffer =
    if type == 1 || type == 2 || type == 3
    then protodec_pos env mmsi rbuffer
    else if type == 4
    then protodec_4 env mmsi rbuffer
    else if type == 5
    then protodec_5 env mmsi rbuffer
    else if type == 6
    then protodec_6 env mmsi rbuffer
    else if type == 7 || type == 13
    then protodec_7_13 bufferlen rbuffer
    else if type == 8
    then protodec_8 env mmsi rbuffer
    else if type == 18
    then protodec_18 env mmsi rbuffer
    else if type == 19
    then protodec_19 env mmsi rbuffer
    else if type == 24
    then protodec_24 env mmsi rbuffer
    else if type == 20
    then protodec_20 bufferlen rbuffer
    else some []

-- `d->seqnr++; if (d->seqnr > 9) d->seqnr = 0;`
unfoldable pub next_seqnr : ℕ → ℕ
next_seqnr seqnr = if ltb 9 (seqnr + 1) then 0 else seqnr + 1

-- From the type on, with the type in range.
unfoldable pub handle_frame : Env → (type bufferlen : ℕ) → Demod → Option (Demod × List Call)
unfolding clear_bits fillbits_of next_seqnr
handle_frame env type bufferlen d =
    let fillbits = fillbits_of bufferlen in
    let padded = bufferlen + fillbits in
    do
      mmsi ← henten 8 30 d.rbuffer
      rbuffer ← clear_bits fillbits bufferlen d.rbuffer
      sentences ← generate_nmea padded fillbits d.seqnr rbuffer
      let nmea = last_sentence d.nmea sentences
      let d' = record d { rbuffer = rbuffer; nmea = nmea; seqnr = next_seqnr d.seqnr }
      skip ← get_elem? env.skip_type type
      calls ←
          (if skip then some [] else (do
            decoded ← dispatch env type mmsi padded rbuffer
            some (print (Report.head type mmsi) ∷ (decoded ++ print (Report.trailer nmea) ∷ []))))
      some (d', emit_all env sentences ++ calls)

unfoldable pub getdata : Env → (bufferlen : ℕ) → Demod → Option (Demod × List Call)
unfolding handle_frame
getdata env bufferlen d = do
  type ← henten 0 6 d.rbuffer
  if ltb type 1 || ltb max_ais_packet_type type
      then some (d, [])
      else handle_frame env type bufferlen d
