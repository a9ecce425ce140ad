-- ===== src/Protodec/Decode.antt =====
-- `protodec_decode` and `protodec_reset` of src/protodec.c: the machine that finds the frames in
-- the bits of a channel. `none` stands for an access outside of an array.
pub mod Safety
pub mod Stuffing
pub mod Air
pub mod Pieces
pub mod Flags
pub mod Reception
use gnuais.Common.{
  ℕ, ◌+◌, ◌-◌, true, false, ◌&&◌, not, Option, some, List, [], ◌∷◌, ◌++◌, ltb, leb, ◌==◌,
  if◌then◌else◌, ◌>>=◌, replicate, store,
}
use gnuais.Protodec.Types.{Phase, skurr, preamble, startsign, payload, stopsign, Call, Env, Demod}
use gnuais.Protodec.Crc.{demod_buffer_len, calculate_crc}
use gnuais.Protodec.Getdata.{getdata}

unfoldable pub reset : Demod → Demod
reset d = record d {
  state = skurr;
  nskurr = 0;
  ndata = 0;
  npreamble = 0;
  nstartsign = 0;
  nstopsign = 0;
  antallpreamble = 0;
  antallenner = 0;
  last = 0;
  bitstuff = false;
  bufferpos = 0;
}

-- ST_DATA, a bit after four pairs of ones: a one starts the end flag, a zero was stuffed.
unfoldable pub on_stuffed : (bit : ℕ) → Demod → Demod
on_stuffed bit d =
    if bit == 1
    then record d { state = stopsign; ndata = 0; bitstuff = false }
    else record d { ndata = d.ndata + 1; last = bit; bitstuff = false }

-- The count of ones.
unfoldable pub count_ones : (bit : ℕ) → Demod → Demod
count_ones bit d =
    if bit == d.last && bit == 1
    then (if d.antallenner + 1 == 4
        then record d { antallenner = 0; bitstuff = true }
        else record d { antallenner = d.antallenner + 1 })
    else record d { antallenner = 0 }

-- ST_DATA, any other bit: it is counted and stored.
unfoldable pub on_stored : (bit : ℕ) → Demod → Option Demod
unfolding count_ones reset
on_stored bit d = do
  buffer ← store d.buffer d.bufferpos bit
  let d' = record (count_ones bit d) {
    buffer = buffer;
    bufferpos = d.bufferpos + 1;
    ndata = d.ndata + 1;
  }
  some (if leb 449 d'.bufferpos then reset d' else d')

unfoldable pub on_data : (bit : ℕ) → Demod → Option Demod
unfolding on_stuffed on_stored
on_data bit d = if d.bitstuff then some (on_stuffed bit d) else on_stored bit d

-- ST_SKURR
unfoldable pub on_skurr : (bit : ℕ) → Demod → Demod
on_skurr bit d =
    let run = if bit == d.last then 0 else d.antallpreamble + 1 in
    if ltb 14 run && bit == 0
    then record d { state = preamble; antallpreamble = 0; last = bit; nskurr = 0 + 1 }
    else record d { antallpreamble = run; last = bit; nskurr = d.nskurr + 1 }

-- ST_PREAMBLE, two equal bits or a start sign under way.
unfoldable pub on_repeat : (bit : ℕ) → Demod → Demod
unfolding reset
on_repeat bit d =
    if bit == 1
    then (if d.nstartsign == 0
        then record d { nstartsign = 3; last = bit }
        else if d.nstartsign == 5
        then record d {
          nstartsign = d.nstartsign + 1;
          npreamble = 0;
          antallpreamble = 0;
          state = startsign;
        }
        else record d { nstartsign = d.nstartsign + 1 })
    else if d.nstartsign == 0
    then record d { nstartsign = 1 }
    else reset d

-- ST_PREAMBLE
unfoldable pub on_preamble : (bit : ℕ) → Demod → Demod
unfolding on_repeat
on_preamble bit d =
    let d' =
      (if not (bit == d.last) && d.nstartsign == 0
        then record d { antallpreamble = d.antallpreamble + 1 }
        else on_repeat bit d) in
    record d' { npreamble = d'.npreamble + 1 }

-- ST_STARTSIGN. The count goes on after a reset too.
unfoldable pub on_startsign : (bit : ℕ) → Demod → Demod
unfolding reset
on_startsign bit d =
    let d' =
      (if leb 7 d.nstartsign
        then (if bit == 0
            then record d {
              state = payload;
              nstartsign = 0;
              antallenner = 0;
              buffer = replicate demod_buffer_len 0;
              bufferpos = 0;
            }
            else reset d)
        else if bit == 0
        then reset d
        else d) in
    record d' { nstartsign = d'.nstartsign + 1 }

-- A frame of `bufferlength` bits between the flags: the check, and what follows from it.
unfoldable pub on_frame : Env → (bufferlength : ℕ) → Demod → Option (Demod × List Call)
on_frame env bufferlength d = do
  (correct, rbuffer) ← calculate_crc bufferlength d.buffer d.rbuffer
  let d' = record d { rbuffer = rbuffer }
  if correct
      then getdata env bufferlength (record d' { receivedframes = d.receivedframes + 1 })
      else some (record d' { lostframes = d.lostframes + 1 }, [])

-- ST_STOPSIGN. `bufferlength` is `bufferpos - 6 - 16`, and is positive if `bufferpos` exceeds 22.
unfoldable pub on_stopsign : Env → (bit : ℕ) → Demod → Option (Demod × List Call)
unfolding on_frame reset
on_stopsign env bit d = do
  (d', calls) ←
      (if bit == 0 && ltb 22 d.bufferpos
        then on_frame env (d.bufferpos - 22) d
        else some (record d { lostframes2 = d.lostframes2 + 1 }, []))
  some (reset d', calls)

-- The switch on `d->state`.
unfoldable pub on_phase : Phase → Env → (bit : ℕ) → Demod → Option (Demod × List Call)
unfolding on_data on_skurr on_preamble on_startsign on_stopsign
on_phase payload env bit d = do d' ← on_data bit d; some (d', [])
on_phase skurr env bit d = some (on_skurr bit d, [])
on_phase preamble env bit d = some (on_preamble bit d, [])
on_phase startsign env bit d = some (on_startsign bit d, [])
on_phase stopsign env bit d = on_stopsign env bit d

-- One round of the loop.
unfoldable pub decode_bit : Env → (bit : ℕ) → Demod → Option (Demod × List Call)
unfolding on_phase
decode_bit env bit d = do
  (d', calls) ← on_phase d.state env bit d
  some (record d' { last = bit }, calls)

-- The loop over the `count` bits of `in`.
unfoldable pub decode : Env → (bits : List ℕ) → Demod → Option (Demod × List Call)
unfolding decode_bit
decode env [] d = some (d, [])
decode env (bit ∷ bits) d = do
  (d', calls) ← decode_bit env bit d
  (d'', more) ← decode env bits d'
  some (d'', calls ++ more)

-- `protodec_initialize`. The contents of the buffers that it allocates are the arguments.
unfoldable pub initialize : (buffer rbuffer : List ℕ) → Demod
initialize buffer rbuffer = record {
  state = skurr;
  nskurr = 0;
  npreamble = 0;
  nstartsign = 0;
  ndata = 0;
  nstopsign = 0;
  antallenner = 0;
  buffer = buffer;
  rbuffer = rbuffer;
  bufferpos = 0;
  last = 0;
  antallpreamble = 0;
  bitstuff = false;
  receivedframes = 0;
  lostframes = 0;
  lostframes2 = 0;
  seqnr = 0;
  nmea = [];
}
