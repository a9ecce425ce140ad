-- ===== src/Protodec/Decode/Reception.antt =====
-- Whole bursts as `protodec_decode` takes them in: the training sequence, the start flag, the
-- stuffed bits of a frame with its check sequence, and the end flag.
use gnuais.Common.{
  ℕ, ◌+◌, ◌-◌, ◌*◌, ◌/◌, ◌≤◌, ◌<◌, ◌≡◌, refl, sym, ap, ◌∙◌, List, [], ◌++◌, append_assoc, arith,
  ◌>>=◌, length, replicate, All, length-append, length-replicate, All-append, All-replicate,
  All-replicate,
}
use gnuais.Protodec.Henten.{IsBit}
use gnuais.Protodec.Types.{Env, Demod}
use gnuais.Protodec.Crc.{demod_buffer_len, sdlc_crc}
use gnuais.Protodec.Crc.Residue.{IsByte, with_fcs, sdlc_crc-residue}
use gnuais.Protodec.Crc.Frame.{octets, frame_of, calculate_crc-octets}
use gnuais.Protodec.Getdata.{getdata}
use gnuais.Protodec.Decode.{reset, on_frame, decode}
use gnuais.Protodec.Decode.Safety.{closing}
use gnuais.Protodec.Decode.Stuffing.{
  stuff, ones_after, write, decode-stuff, ones_after-lt, length-write,
}
use gnuais.Protodec.Decode.Pieces.{decode_silent}
use gnuais.Protodec.Decode.Flags.{alternating, flag, opened, opens, closed, flag_part, flag_ends}
use gnuais.Protodec.Decode.Air.{
  air, message_bits, length-air, air-IsBit, octets-air, turned-air, write-append, write-blank,
  with_fcs-IsByte, length-with_fcs,
}

-- What the buffer holds at the end of a frame: its bits, and those of the end flag.
abbrev pub taken_bits : List ℕ → List ℕ
taken_bits bytes = air (with_fcs bytes) ++ flag_part

-- A transmission of the bytes of a message.
unfoldable pub burst : (last : ℕ) → List ℕ → List ℕ
burst last bytes = (alternating 24 last ++ flag) ++ (stuff 0 (air (with_fcs bytes)) ++ flag)

-- The state in which the message of a burst is handed on.
unfoldable pub delivered : Demod → List ℕ → Demod
delivered d bytes =
    let n = length bytes in
    record (closed (opened d) (taken_bits bytes ++ replicate (428 - 8 * n) 0) (8 * n + 22)) {
      rbuffer = message_bits bytes ++ replicate (demod_buffer_len - 8 * n) 0;
      receivedframes = d.receivedframes + 1;
    }

module _ (bytes : List ℕ) (p : All IsByte bytes) (short : length bytes ≤ 53) where
  length-sent : length (air (with_fcs bytes)) ≡ 8 * length bytes + 16
  length-sent = omega (arith, length-air (with_fcs bytes), length-with_fcs bytes)

  buffer_written :
      write
        (write (replicate demod_buffer_len 0) 0 (air (with_fcs bytes)))
        (8 * length bytes + 16)
        flag_part
      ≡ taken_bits bytes ++ replicate (428 - 8 * length bytes) 0
  buffer_written =
      let sent : List ℕ = air (with_fcs bytes) in
      let size : 0 + length sent ≡ 8 * length bytes + 16 = omega (arith, length-sent) in
      let both = rw size at (write-append (replicate demod_buffer_len 0) 0 sent flag_part) in
      let all : length (sent ++ flag_part) + (428 - 8 * length bytes) ≡ demod_buffer_len =
        omega (arith, length-append sent flag_part, length-sent) in
      sym both ∙ (rw all at (write-blank (sent ++ flag_part) [] (428 - 8 * length bytes)))

  frame_written :
      frame_of (length bytes) (taken_bits bytes ++ replicate (428 - 8 * length bytes) 0)
      ≡ message_bits bytes ++ replicate (demod_buffer_len - 8 * length bytes) 0
  unfolding frame_of
  frame_written =
      let n = length bytes in
      let rest : List ℕ = flag_part ++ replicate (428 - 8 * n) 0 in
      rw (append_assoc (air (with_fcs bytes)) flag_part (replicate (428 - 8 * n) 0)) (
        ap (λ t. t ++ replicate (demod_buffer_len - 8 * n) 0)
          (unfold with_fcs in turned-air bytes _ rest))

  residue_holds :
      sdlc_crc
        (octets (length bytes + 2) (taken_bits bytes ++ replicate (428 - 8 * length bytes) 0))
      ≡ 0x0f47
  residue_holds =
      rw
        (
          append_assoc (air (with_fcs bytes)) flag_part (replicate (428 - 8 * length bytes) 0),
          ← length-with_fcs bytes,
          octets-air (with_fcs bytes) (flag_part ++ replicate (428 - 8 * length bytes) 0)
              (with_fcs-IsByte bytes p),
        )
        (sdlc_crc-residue bytes p)

  frame_passes :
      (env : Env) (d : Demod)
      → 0 < length bytes
      → (on_frame env (8 * length bytes) (
          closed
            (opened d)
            (taken_bits bytes ++ replicate (428 - 8 * length bytes) 0)
            (8 * length bytes + 22)))
        ≡ getdata env (8 * length bytes) (delivered d bytes)
  unfolding on_frame delivered opened
  frame_passes env d some_bytes =
      let n = length bytes in
      let frame : List ℕ = taken_bits bytes ++ replicate (428 - 8 * n) 0 in
      let size : length frame ≡ 450 = omega (
        arith,
        length-append (taken_bits bytes) (replicate (428 - 8 * n) 0),
        length-append (air (with_fcs bytes)) flag_part,
        length-sent,
        length-replicate {A = ℕ} (428 - 8 * n) 0,
      ) in
      let good : All IsBit frame =
        All-append IsBit (taken_bits bytes) (replicate (428 - 8 * n) 0)
          (All-append IsBit (air (with_fcs bytes)) flag_part (air-IsBit (with_fcs bytes))
            (omega arith))
          (All-replicate IsBit (428 - 8 * n) 0 (omega arith)) in
      let whole : 8 * n / 8 ≡ n = omega arith in
      rw (
        calculate_crc-octets (8 * n) frame d.rbuffer good size (omega arith) (omega arith),
        whole,
        residue_holds,
        frame_written,
      )

  -- A decoder that has been reset, as it is behind a frame, takes a whole burst of 1 to 53 bytes: after
  -- 24 training bits of either phase, a start flag, the stuffed bits of the bytes with their check sequence, and an end
  -- flag, it hands exactly those bytes to `protodec_getdata`, in the order of a message and with
  -- their length in bits, counts a received frame, and is reset again.
  pub decode-burst :
      (env : Env) (d : Demod) (last : ℕ)
      → IsBit last
      → 0 < length bytes
      → decode env (burst last bytes) (reset d)
        ≡ (getdata env (8 * length bytes) (delivered d bytes) >>= closing)
  unfolding burst opened
  decode-burst env d last b some_bytes =
      let start = alternating 24 last ++ flag in
      let bits : List ℕ = air (with_fcs bytes) in
      let blank : List ℕ = replicate demod_buffer_len 0 in
      let n = length bytes in
      let size : 0 + length bits ≡ 8 * n + 16 = omega (arith, length-sent) in
      let at_end : 8 * n + 16 + 6 ≡ 8 * n + 22 = omega arith in
      let back : 8 * n + 16 - 16 ≡ 8 * n = omega arith in
      decode_silent env start (stuff 0 bits ++ flag) (reset d) (opened d) (opens env d last b)
      ∙ (decode_silent env (stuff 0 bits) flag _ _ (
            decode-stuff env (opened d) bits blank 0 0 0 (omega arith) (air-IsBit (with_fcs bytes))
              refl (omega (arith, length-sent)))
          ∙ (flag_ends env (opened d) (write blank 0 bits) (0 + length bits)
                (0 + length (stuff 0 bits)) (ones_after 0 bits) (ones_after-lt 0 bits (omega arith))
                (length-write blank 0 bits) (omega (arith, length-sent))
                (omega (arith, length-sent))
              ∙ rw (size, at_end, back, buffer_written, frame_passes env d some_bytes)))
