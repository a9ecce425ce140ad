-- ===== src/Witnesses.antt =====
-- The theorems at concrete inputs: a position report of type 1 as received, and small frames.
pub mod Ships
pub mod Samples
pub mod Export
pub mod Settings
pub mod Locks
pub mod Filters
pub mod Map
pub mod Rows
use gnuais.Common.{
  ℕ, zero, suc, ◌+◌, ◌/◌, ◌%◌, ◌^◌, ◌<◌, ◌≡◌, refl, some, List, [], ◌∷◌, ◌++◌, Bool, true, false,
  ◌&&◌, pos, ltb, ◌==◌, ◌>>=◌, replicate, length, All, arith,
}
use gnuais.Protodec.Types.{over, Report, Update, Row, print, my, cache, update_range, Env, to_char}
use gnuais.Protodec.Henten.{IsBit, henten, field, henten-field}
use gnuais.Protodec.Crc.{sdlc_crc, calculate_crc}
use gnuais.Protodec.Crc.Residue.{with_fcs, sdlc_crc-residue}
use gnuais.Protodec.Crc.Frame.{octets, frame_of, calculate_crc-octets}
use gnuais.Protodec.Nmea.{generate_nmea}
use gnuais.Protodec.Nmea.Sentences.{sixbits}
use gnuais.Protodec.Nmea.Receive.{receive, receive-generate_nmea}
use gnuais.Protodec.Decode.{decode, initialize, reset}
use gnuais.Protodec.Decode.Stuffing.{stuff, ones_after, write, taking, decode-stuff}
use gnuais.Protodec.Decode.Reception.{burst, delivered, decode-burst}
use gnuais.Protodec.Decode.Safety.{StepOk, closing, IsValid, decode-StepOk, initialize-IsValid}
use gnuais.Protodec.Text.Trim.{ReadsField, text-ReadsField}
use gnuais.Protodec.Getdata.{getdata}
use gnuais.Protodec.Getdata.Bounds.{HandlesOk, getdata-HandlesOk}
use gnuais.Protodec.Messages.Position.{
  degrees, report_position, protodec_pos, protodec_4, protodec_18, when,
}
use gnuais.Protodec.Messages.Position.Fields.{
  signed, protodec_pos-fields, protodec_4-fields, protodec_18-fields,
}

abbrev bits_msb : ℕ → ℕ → List ℕ
bits_msb zero x = []
bits_msb (suc n) x = x / 2 ^ n % 2 ∷ bits_msb n x

abbrev groups : List ℕ → List ℕ
groups [] = []
groups (x ∷ xs) = bits_msb 6 x ++ groups xs

-- The 28 groups of a report of type 1.
abbrev ship : List ℕ
ship = groups (
    1 ∷ 5 ∷ 29 ∷ 6 ∷ 7 ∷ 22 ∷ 19 ∷ 0 ∷ 0 ∷ 0 ∷ 23 ∷ 15 ∷ 61 ∷ 46 ∷ 42 ∷ 21 ∷ 40 ∷ 22 ∷ 45 ∷ 56 ∷ 36
    ∷ 16 ∷ 3 ∷ 54 ∷ 0 ∷ 0 ∷ 35 ∷ 41 ∷ [])

abbrev pub frame : List ℕ
frame = ship ++ replicate 282 0

all_below : ℕ → List ℕ → Bool
all_below n [] = true
all_below n (x ∷ xs) = ltb x n && all_below n xs

bounded_of_test : (n : ℕ) (xs : List ℕ) → all_below n xs ≡ true → All (λ x. x < n) xs
unfolding all_below
bounded_of_test n [] e = tt
bounded_of_test n (x ∷ xs) e = (ground arith, bounded_of_test n xs (ground arith))

pub frame-IsBit : All IsBit frame
frame-IsBit = bounded_of_test 2 frame (unfold all_below in refl)

henten-field_example : henten 38 2 frame ≡ some (field 38 2 frame)
henten-field_example = henten-field 38 2 frame frame-IsBit (omega arith) (omega arith)

receive-generate_nmea_example :
    (generate_nmea 168 0 3 frame >>= receive) ≡ some (sixbits 28 0 frame)
receive-generate_nmea_example =
    receive-generate_nmea frame frame-IsBit 0 3 28 (omega arith) (omega arith) (omega arith)
      (omega arith) (omega arith)

sdlc_crc-residue_example : sdlc_crc (with_fcs (4 ∷ 21 ∷ 118 ∷ 29 ∷ [])) ≡ 0x0f47
sdlc_crc-residue_example = sdlc_crc-residue (4 ∷ 21 ∷ 118 ∷ 29 ∷ []) (omega arith)

calculate_crc-octets_example :
    calculate_crc 168 frame [] ≡ some (sdlc_crc (octets 23 frame) == 0x0f47, frame_of 21 frame)
calculate_crc-octets_example =
    calculate_crc-octets 168 frame [] frame-IsBit (omega arith) (omega arith) (omega arith)

abbrev pub env : Env
env = record {
  has_my = true;
  has_serial = true;
  has_ipc = true;
  cache_positions = true;
  have_my_loc = true;
  skip_type = replicate 25 false;
}

protodec_pos-fields_example :
    let lat = over (signed 26 (field 89 27 frame)) 600000 in
    let lon = over (signed 27 (field 61 28 frame)) 600000 in
    let course = over (pos (field 116 12 frame)) 10 in
    let sog = over (pos (field 50 10 frame)) 10 in
    let rate = to_char (field 40 8 frame) in
    let status = to_char (field 38 2 frame) in
    let heading = field 128 9 frame in
    protodec_pos env 366053209 frame
    ≡ some (
        print (Report.position lat lon course sog rate status heading)
        ∷ my 366053209 (Row.position lat lon heading course sog)
        ∷ cache 366053209 (Update.position status lat lon heading course rate sog)
        ∷ update_range lat lon
        ∷ [])
protodec_pos-fields_example = protodec_pos-fields env 366053209 frame frame-IsBit refl

getdata-HandlesOk_example :
    HandlesOk (initialize frame frame) (getdata env 168 (initialize frame frame))
unfolding initialize
getdata-HandlesOk_example =
    getdata-HandlesOk env refl (initialize frame frame) frame-IsBit refl (omega arith) 168
      (omega arith) (omega arith)

decode-StepOk_example : StepOk (decode env ship (initialize frame frame))
decode-StepOk_example =
    decode-StepOk env refl ship (initialize frame frame)
      (bounded_of_test 2 ship (unfold all_below in refl)) (initialize-IsValid frame frame refl refl)

decode-burst_example :
    decode env (burst 1 (4 ∷ 21 ∷ 118 ∷ 29 ∷ [])) (reset (initialize frame frame))
    ≡ (getdata env 32 (delivered (initialize frame frame) (4 ∷ 21 ∷ 118 ∷ 29 ∷ [])) >>= closing)
decode-burst_example =
    decode-burst (4 ∷ 21 ∷ 118 ∷ 29 ∷ []) (omega arith) (omega arith) env (initialize frame frame) 1
      (omega arith) (omega arith)

decode-stuff_example :
    decode env (stuff 0 (1 ∷ 1 ∷ 1 ∷ 1 ∷ 1 ∷ 1 ∷ [])) (taking (initialize frame frame) frame 0 0 0)
    ≡ some (
      taking
          (initialize frame frame)
          (write frame 0 (1 ∷ 1 ∷ 1 ∷ 1 ∷ 1 ∷ 1 ∷ []))
          6
          (0 + length (stuff 0 (1 ∷ 1 ∷ 1 ∷ 1 ∷ 1 ∷ 1 ∷ [])))
          (ones_after 0 (1 ∷ 1 ∷ 1 ∷ 1 ∷ 1 ∷ 1 ∷ [])),
      [],
    )
decode-stuff_example =
    decode-stuff env (initialize frame frame) (1 ∷ 1 ∷ 1 ∷ 1 ∷ 1 ∷ 1 ∷ []) frame 0 0 0 (omega arith)
      (omega arith) refl (omega arith)

text-ReadsField_example : ReadsField frame 21 20 48
text-ReadsField_example = text-ReadsField frame 21 20 48 frame-IsBit (omega arith) (omega arith)
