-- ===== src/Protodec/Crc/Frame.antt =====
-- `protodec_calculate_crc` as a whole: the octets that it checks, and the frame that it leaves in
-- `rbuffer`, against a description by lists.
use mathlib.Core.List.{reverse-cons}
use gnuais.Common.{
  ℕ, zero, suc, ◌+◌, ◌-◌, ◌*◌, ◌/◌, ◌%◌, ◌^◌, ◌≤◌, ◌<◌, ◌≡◌, refl, ap, ◌∙◌, sym, true, false, some,
  List, [], ◌∷◌, ◌++◌, append_assoc, arith, leb, ◌==◌, bit_or, length, get_or, take, drop,
  replicate, All, get_elem?-eq-get_or, All-get_or, store_after, length-append, length-reverse,
  reverse, length-take, length-drop, All-take, All-drop, bit_or_low, bit_shift-lt,
}
use gnuais.Protodec.Henten.{IsBit}
use gnuais.Protodec.Crc.{
  demod_buffer_len, sdlc_crc, pack_byte, pack_bytes, unpack_byte, unpack_bytes, calculate_crc,
}
use native.Mathlib.Numerals.{add-one}
use native.Mathlib.Nat.{zero-add}
use native.Mathlib.Nat.{div-one, div-div-eq-div-mul, pow-succ', pow-le-pow_right, pow-suc, suc-add}

-- The number of a string of bits, least significant bit first.
unfoldable pub le_value : List ℕ → ℕ
le_value [] = 0
le_value (b ∷ bs) = b + 2 * le_value bs

-- The first `n` octets of a string of bits, each sent least significant bit first.
unfoldable pub octets : ℕ → List ℕ → List ℕ
unfolding le_value
octets zero bits = []
octets (suc n) bits = le_value (take 8 bits) ∷ octets n (drop 8 bits)

-- The same bits with each octet turned round.
unfoldable pub turned : ℕ → List ℕ → List ℕ
turned zero bits = []
turned (suc n) bits = reverse (take 8 bits) ++ turned n (drop 8 bits)

drop-cons :
    (frame : List ℕ) (n : ℕ)
    → n < length frame
    → drop n frame ≡ get_or frame n 0 ∷ drop (suc n) frame
drop-cons [] n h = absurd (omega arith)
drop-cons (x ∷ xs) zero h = refl
drop-cons (x ∷ xs) (suc n) h = drop-cons xs n (omega arith)

grow : (i b tmp : ℕ) → b < 2 → tmp < 2 ^ i → b * 2 ^ i + tmp < 2 ^ (i + 1)
grow i zero tmp h t = omega (arith, add-one i, ap (λ n. 2 ^ n) (add-one i), pow-suc 2 i)
grow i (suc zero) tmp h t = omega (arith, ap (λ n. 2 ^ n) (add-one i), pow-suc 2 i)
grow i (suc (suc b)) tmp h t = absurd (omega arith)

one_byte :
    (i b tmp : ℕ)
    → b < 2
    → tmp < 2 ^ i
    → 2 ^ suc i ≤ 2 ^ 8
    → (b * 2 ^ i + tmp) % 2 ^ 8 ≡ b * 2 ^ i + tmp
one_byte i b tmp h t byte = omega (arith, grow i b tmp h t, ap (λ n. 2 ^ n) (add-one i))

pack_byte-le_value :
    (buffer : List ℕ) (j left i tmp : ℕ)
    → All IsBit buffer
    → i + left ≡ 8
    → 8 * j + 8 ≤ length buffer
    → tmp < 2 ^ i
    → pack_byte buffer j left i tmp
      ≡ some (tmp + le_value (take left (drop (i + 8 * j) buffer)) * 2 ^ i)
unfolding pack_byte le_value
pack_byte-le_value buffer j zero i tmp bits e h t = ap some (omega arith)
pack_byte-le_value buffer j (suc left) i tmp bits e h t =
    let b : ℕ = get_or buffer (i + 8 * j) 0 in
    let bit : b < 2 = All-get_or IsBit buffer (i + 8 * j) 0 (omega arith) bits in
    let small = bit_shift-lt i b bit in
    let up : 2 ^ (i + 1) ≡ 2 ^ i * 2 = ap (λ n. 2 ^ n) (add-one i) ∙ pow-suc 2 i in
    let up' : 2 ^ suc i ≡ 2 ^ i * 2 = pow-suc 2 i in
    let byte : 2 ^ suc i ≤ 2 ^ 8 = pow-le-pow_right {n = 2} (omega arith) {j = 8} (omega arith) in
    let joined : bit_or tmp (b * 2 ^ i) % 2 ^ 8 ≡ b * 2 ^ i + tmp =
      rw (bit_or_low i b tmp t) (one_byte i b tmp bit t byte) in
    let next : i + 1 + 8 * j ≡ suc (i + 8 * j) = omega arith in
    let more : ℕ = le_value (take left (drop (suc (i + 8 * j)) buffer)) in
    let ih =
      pack_byte-le_value buffer j left (i + 1) (b * 2 ^ i + tmp) bits (omega arith) h
        (grow i b tmp bit t) in
    rw
      (
        get_elem?-eq-get_or buffer (i + 8 * j) 0 (omega arith),
        joined,
        drop-cons buffer (i + 8 * j) (omega arith),
      )
      ((rw next at ih) ∙ ap some (omega (arith, ap (λ (t : ℕ). more * t) up)))

drop-drop : (n m : ℕ) (xs : List ℕ) → drop n (drop m xs) ≡ drop (m + n) xs
drop-drop n zero xs = rw (zero-add n)
drop-drop zero (suc m) [] = rw (suc-add m 0)
drop-drop (suc n) (suc m) [] = rw (suc-add m (suc n))
drop-drop n (suc m) (x ∷ xs) = rw (suc-add m n) (drop-drop n m xs)

pack_bytes-octets :
    (buffer : List ℕ) (left j : ℕ)
    → All IsBit buffer
    → 8 * (j + left) ≤ length buffer
    → pack_bytes buffer left j ≡ some (octets left (drop (8 * j) buffer))
unfolding pack_bytes octets
pack_bytes-octets buffer zero j bits h = refl
pack_bytes-octets buffer (suc left) j bits h =
    let start : 0 + 8 * j ≡ 8 * j = omega arith in
    let next : 8 * (j + 1) ≡ 8 * j + 8 = omega arith in
    let value : ℕ = le_value (take 8 (drop (8 * j) buffer)) in
    let octet : pack_byte buffer j 8 0 0 ≡ some value =
      (rw start at (pack_byte-le_value buffer j 8 0 0 bits refl (omega arith) (omega arith)))
      ∙ ap some (omega arith) in
    let ih = pack_bytes-octets buffer left (j + 1) bits (omega arith) in
    rw (octet, ih, next, drop-drop 8 (8 * j) buffer)

-- The bits of a byte, most significant first.
msb_bits : ℕ → ℕ → List ℕ
msb_bits zero byte = []
msb_bits (suc k) byte = byte / 2 ^ k % 2 ∷ msb_bits k byte

unpack_byte-msb_bits :
    (byte j left i m : ℕ) (done : List ℕ)
    → i + left ≡ 8
    → length done ≡ j * 8 + i
    → j * 8 + 8 ≤ 450
    → unpack_byte byte j left i (done ++ replicate (left + m) 0)
      ≡ some (true, done ++ (msb_bits left byte ++ replicate m 0))
unfolding unpack_byte msb_bits
unpack_byte-msb_bits byte j zero i m done e l h = rw (zero-add m)
unpack_byte-msb_bits byte j (suc left) i m done e l h =
    let inside : leb demod_buffer_len (j * 8 + i) ≡ false = ground arith in
    let shift : 7 - i ≡ left = omega arith in
    let b : ℕ = byte / 2 ^ left % 2 in
    let more : length (done ++ b ∷ []) ≡ j * 8 + (i + 1) =
      omega (arith, length-append done (b ∷ [])) in
    let ih = unpack_byte-msb_bits byte j left (i + 1) m (done ++ b ∷ []) (omega arith) more h in
    rw (inside, shift, suc-add left m, ← l, store_after done (replicate (left + m) 0) 0 b)
      ((rw (append_assoc, append_assoc) at ih))

msb_bits-snoc : (k n : ℕ) → msb_bits (suc k) n ≡ msb_bits k (n / 2) ++ (n % 2 ∷ [])
unfolding msb_bits
msb_bits-snoc zero n = rw (div-one n)
msb_bits-snoc (suc k) n =
    let halved : n / 2 ^ suc k ≡ n / 2 / 2 ^ k =
      rw (pow-succ' 2 k) (sym (div-div-eq-div-mul n 2 (2 ^ k))) in
    rw halved (ap (λ l. n / 2 / 2 ^ k % 2 ∷ l) (msb_bits-snoc k n))

msb_bits-le_value :
    (bits : List ℕ) → All IsBit bits → msb_bits (length bits) (le_value bits) ≡ reverse bits
unfolding le_value
msb_bits-le_value [] h = unfold msb_bits in refl
msb_bits-le_value (b ∷ bs) h =
    let v : ℕ = le_value bs in
    let low : (b + 2 * v) % 2 ≡ b = omega arith in
    let high : (b + 2 * v) / 2 ≡ v = omega arith in
    rw (
      msb_bits-snoc (length bs) (b + 2 * v),
      low,
      high,
      msb_bits-le_value bs h.1,
      reverse-cons b bs,
    )

unpack_bytes-turned :
    (n j m : ℕ) (bits done : List ℕ)
    → All IsBit bits
    → 8 * n ≤ length bits
    → length done ≡ j * 8
    → 8 * (j + n) ≤ 450
    → unpack_bytes (octets n bits) j (done ++ replicate (8 * n + m) 0)
      ≡ some (true, done ++ (turned n bits ++ replicate m 0))
unfolding unpack_bytes octets turned
unpack_bytes-turned zero j m bits done p h l r = rw (zero-add m)
unpack_bytes-turned (suc n) j m bits done p h l r =
    let size : 8 * suc n + m ≡ 8 + (8 * n + m) = omega arith in
    let octet : ℕ = le_value (take 8 bits) in
    let eight : length (take 8 bits) ≡ 8 = omega (arith, length-take 8 bits) in
    let turns : msb_bits 8 octet ≡ reverse (take 8 bits) =
      rw eight at (msb_bits-le_value (take 8 bits) (All-take IsBit 8 bits p)) in
    let now : ℕ = 8 * n + m in
    let byte = unpack_byte-msb_bits octet j 8 0 now done refl (omega arith) (omega arith) in
    let rest = drop 8 bits in
    let ih =
      unpack_bytes-turned n (j + 1) m rest (done ++ reverse (take 8 bits)) (All-drop IsBit 8 bits p)
        (omega (arith, length-drop 8 bits))
        (omega (arith, length-append done (reverse (take 8 bits)), length-reverse (take 8 bits)))
        (omega arith) in
    rw (size, byte, turns) (simp append_assoc (simp append_assoc at ih))

-- The frame that `protodec_calculate_crc` leaves: the octets turned round, then zeros.
unfoldable pub frame_of : ℕ → List ℕ → List ℕ
frame_of n bits = turned n bits ++ replicate (demod_buffer_len - 8 * n) 0

take-octets : (n k : ℕ) (bits : List ℕ) → take n (octets (n + k) bits) ≡ octets n bits
unfolding octets
take-octets zero k bits = refl
take-octets (suc n) k bits = rw (suc-add n k, take-octets n k (drop 8 bits))

-- On a full buffer of 450 bits, and with a length of 1 to 426 bits, the check faults nowhere. It
-- accepts exactly if the octets of the frame and of its check sequence leave the
-- residue 0x0f47, and `rbuffer` holds the octets of the frame, each turned round, then zeros.
pub calculate_crc-octets :
    (length_bits : ℕ) (buffer rbuffer : List ℕ)
    → All IsBit buffer
    → length buffer ≡ 450
    → 0 < length_bits
    → length_bits ≤ 426
    → calculate_crc length_bits buffer rbuffer
      ≡ some (
        sdlc_crc (octets (length_bits / 8 + 2) buffer) == 0x0f47,
        frame_of (length_bits / 8) buffer,
      )
unfolding calculate_crc frame_of
calculate_crc-octets length_bits buffer rbuffer p l h k =
    let n : ℕ = length_bits / 8 in
    let some_bits : (length_bits == 0) ≡ false = ground arith in
    let size : demod_buffer_len ≡ 8 * n + (demod_buffer_len - 8 * n) = omega arith in
    let packed = pack_bytes-octets buffer (n + 2) 0 p (omega arith) in
    let turns =
      unpack_bytes-turned n 0 (demod_buffer_len - 8 * n) buffer [] p (omega arith) refl
        (omega arith) in
    rw (some_bits, packed, take-octets n 2 buffer, rw (← size) at turns)
