-- ===== src/Protodec/Crc.antt =====
-- The frame check of src/protodec.c: `protodec_sdlc_crc` and `protodec_calculate_crc`.
pub mod Frame
pub mod Residue
use gnuais.Common.{
  ℕ, zero, suc, ◌+◌, ◌-◌, ◌*◌, ◌/◌, ◌%◌, ◌^◌, bit_or, bit_xor, Bool, true, false, ◌&&◌, Option,
  some, List, [], ◌∷◌, ltb, leb, ◌==◌, if◌then◌else◌, ◌>>=◌, get_elem?, take, replicate, store,
}

-- DEMOD_BUFFER_LEN
abbrev pub demod_buffer_len : ℕ
demod_buffer_len = 450

-- The body of the inner loop of `protodec_sdlc_crc`: one bit, the lowest of `c`.
unfoldable pub crc_bit : (crc c : ℕ) → ℕ
crc_bit crc c = if bit_xor crc c % 2 == 1 then bit_xor (crc / 2) 0x8408 else crc / 2

-- The inner loop, `for (c = 0x100 + *data++; c > 1; c >>= 1)`. `c` starts below 2 ^ 9, so that nine
-- rounds of fuel suffice.
unfoldable pub crc_shifts : (fuel c crc : ℕ) → ℕ
crc_shifts zero c crc = crc
crc_shifts (suc fuel) c crc =
    let rest = crc_shifts fuel (c / 2) (crc_bit crc c) in if ltb 1 c then rest else crc

unfoldable pub crc_loop : List ℕ → ℕ → ℕ
crc_loop [] crc = crc
crc_loop (x ∷ xs) crc = crc_loop xs (crc_shifts 9 (0x100 + x) crc)

-- `return ~crc`, cut to an unsigned short.
unfoldable pub sdlc_crc : List ℕ → ℕ
sdlc_crc bytes = 0xffff - crc_loop bytes 0xffff

-- `tmp |= d->buffer[i + 8 * j] << i` for the eight `i`; `tmp` is an unsigned char.
unfoldable pub pack_byte : (buffer : List ℕ) (j left i tmp : ℕ) → Option ℕ
pack_byte buffer j zero i tmp = some tmp
pack_byte buffer j (suc left) i tmp = do
  b ← get_elem? buffer (i + 8 * j)
  pack_byte buffer j left (i + 1) (bit_or tmp (b * 2 ^ i) % 2 ^ 8)

-- The first loop over `j`: the bytes `buf[j]` to `buf[buflen - 1]`.
unfoldable pub pack_bytes : (buffer : List ℕ) (left j : ℕ) → Option (List ℕ)
pack_bytes buffer zero j = some []
pack_bytes buffer (suc left) j = do
  byte ← pack_byte buffer j 8 0 0
  rest ← pack_bytes buffer left (j + 1)
  some (byte ∷ rest)

-- The inner loop that fills `rbuffer`. The flag is false where the function gives up since `x` is
-- beyond the buffer.
unfoldable pub unpack_byte : (byte j left i : ℕ) (rbuffer : List ℕ) → Option (Bool × List ℕ)
unpack_byte byte j zero i rbuffer = some (true, rbuffer)
unpack_byte byte j (suc left) i rbuffer =
    let x = j * 8 + i in
    let rest : Option (Bool × List ℕ) = (do
      r ← store rbuffer x (byte / 2 ^ (7 - i) % 2)
      unpack_byte byte j left (i + 1) r) in
    if leb demod_buffer_len x then some (false, rbuffer) else rest

unfoldable pub unpack_bytes : List ℕ → (j : ℕ) (rbuffer : List ℕ) → Option (Bool × List ℕ)
unpack_bytes [] j rbuffer = some (true, rbuffer)
unpack_bytes (byte ∷ bytes) j rbuffer = do
  (fits, r) ← unpack_byte byte j 8 0 rbuffer
  if fits then unpack_bytes bytes (j + 1) r else some (false, r)

-- `protodec_calculate_crc`: its result, and `rbuffer` after it. A length that is not positive is 0
-- here.
unfoldable pub calculate_crc : (length_bits : ℕ) (buffer rbuffer : List ℕ) → Option (Bool × List ℕ)
unfolding crc_bit crc_shifts crc_loop sdlc_crc pack_byte pack_bytes unpack_byte unpack_bytes
calculate_crc length_bits buffer rbuffer =
    let length_bytes = length_bits / 8 in
    let check : Option (Bool × List ℕ) = (do
      buf ← pack_bytes buffer (length_bytes + 2) 0
      (fits, r) ← unpack_bytes (take length_bytes buf) 0 (replicate demod_buffer_len 0)
      some (fits && (sdlc_crc buf == 0x0f47), r)) in
    if length_bits == 0 then some (false, rbuffer) else check
