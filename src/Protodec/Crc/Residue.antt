-- ===== src/Protodec/Crc/Residue.antt =====
-- The check sequence of `protodec_sdlc_crc`: a frame that ends in its own check sequence leaves
-- the residue that `protodec_calculate_crc` looks for.
use gnuais.Common.{
  ℕ, zero, suc, ◌+◌, ◌-◌, ◌/◌, ◌%◌, ◌^◌, ◌<◌, bit_xor, ◌≡◌, refl, ◌∙◌, List, [], ◌∷◌, ◌++◌, arith,
  ltb, replicate, All, bit_xor_half, bit_xor_low, bit_xor_assoc, bit_xor-lt, zero-bit_xor,
  bit_xor-zero, true,
}
use gnuais.Protodec.Crc.{crc_bit, crc_shifts, crc_loop, sdlc_crc}
use native.Mathlib.Nat.{one-le-pow, pow-suc}

abbrev pub IsByte : ℕ → Type 0
IsByte b = b < 256

-- The lowest `k` bits of a number, least significant first, as they go over the air.
unfoldable pub bits_lsb : ℕ → ℕ → List ℕ
bits_lsb zero n = []
bits_lsb (suc k) n = n % 2 ∷ bits_lsb k (n / 2)

crc_bits : List ℕ → ℕ → ℕ
crc_bits [] crc = crc
crc_bits (b ∷ bs) crc = crc_bits bs (crc_bit crc b)

crc_bit_parity : (crc b c : ℕ) → b % 2 ≡ c % 2 → crc_bit crc b ≡ crc_bit crc c
unfolding crc_bit
crc_bit_parity crc b c h = ground (arith, bit_xor_low crc b, bit_xor_low crc c)

crc_bit-lt : (crc b : ℕ) → crc < 2 ^ 16 → crc_bit crc b < 2 ^ 16
unfolding crc_bit
crc_bit-lt crc b h = ground (arith, bit_xor-lt 16 (crc / 2) 0x8408)

-- The loop over `c` takes the bits below its highest one.
crc_shifts-bits :
    (k fuel n crc : ℕ)
    → n < 2 ^ k
    → k < fuel
    → crc_shifts fuel (2 ^ k + n) crc ≡ crc_bits (bits_lsb k n) crc
unfolding crc_shifts crc_bits bits_lsb
crc_shifts-bits k zero n crc h f = absurd (omega arith)
crc_shifts-bits zero (suc fuel) zero crc h f = refl
crc_shifts-bits zero (suc fuel) (suc n) crc h f = absurd (omega arith)
crc_shifts-bits (suc k) (suc fuel) n crc h f =
    let e = pow-suc 2 k in
    let big : ltb 1 (2 ^ suc k + n) ≡ true = ground (arith, e, one-le-pow k 2) in
    let halved : (2 ^ suc k + n) / 2 ≡ 2 ^ k + n / 2 = omega (arith, e) in
    let low : crc_bit crc (2 ^ suc k + n) ≡ crc_bit crc (n % 2) =
      crc_bit_parity crc (2 ^ suc k + n) (n % 2) (omega (arith, e)) in
    rw (big, halved, low)
      (crc_shifts-bits k fuel (n / 2) (crc_bit crc (n % 2)) (omega (arith, e)) (omega arith))

-- Sending the complement of the register drives it to a value that does not depend on it.
crc_bit_complement :
    (x y b : ℕ) → (x + b) % 2 ≡ 1 → crc_bit (bit_xor x y) b ≡ bit_xor (x / 2) (crc_bit y 1)
unfolding crc_bit
crc_bit_complement x y b h = ground (
  arith,
  bit_xor_low (bit_xor x y) b,
  bit_xor_low x y,
  bit_xor_low y 1,
  bit_xor_half x y,
  bit_xor_assoc (x / 2) (y / 2) 0x8408,
)

crc_bits_complement :
    (k x y : ℕ)
    → x < 2 ^ k
    → crc_bits (bits_lsb k (2 ^ k - 1 - x)) (bit_xor x y) ≡ crc_bits (replicate k 1) y
unfolding crc_bits bits_lsb
crc_bits_complement zero zero y h = zero-bit_xor y
crc_bits_complement zero (suc x) y h = absurd (omega arith)
crc_bits_complement (suc k) x y h =
    let e = pow-suc 2 k in
    let halved : (2 ^ suc k - 1 - x) / 2 ≡ 2 ^ k - 1 - x / 2 = omega (arith, e) in
    rw (halved, crc_bit_complement x y ((2 ^ suc k - 1 - x) % 2) (omega (arith, e)))
      (crc_bits_complement k (x / 2) (crc_bit y 1) (omega (arith, e)))

crc_shifts_byte : (n crc : ℕ) → n < 256 → crc_shifts 9 (0x100 + n) crc ≡ crc_bits (bits_lsb 8 n) crc
crc_shifts_byte n crc h = crc_shifts-bits 8 9 n crc h (omega arith)

crc_bits-lt : (bs : List ℕ) (crc : ℕ) → crc < 2 ^ 16 → crc_bits bs crc < 2 ^ 16
unfolding crc_bits
crc_bits-lt [] crc h = h
crc_bits-lt (b ∷ bs) crc h = crc_bits-lt bs (crc_bit crc b) (crc_bit-lt crc b h)

crc_loop-lt :
    (bytes : List ℕ) (crc : ℕ) → All IsByte bytes → crc < 2 ^ 16 → crc_loop bytes crc < 2 ^ 16
unfolding crc_loop
crc_loop-lt [] crc p h = h
crc_loop-lt (x ∷ xs) crc p h =
    rw (crc_shifts_byte x crc p.0)
      (crc_loop-lt xs (crc_bits (bits_lsb 8 x) crc) p.1 (crc_bits-lt (bits_lsb 8 x) crc h))

crc_loop-append :
    (xs ys : List ℕ) (crc : ℕ) → crc_loop (xs ++ ys) crc ≡ crc_loop ys (crc_loop xs crc)
unfolding crc_loop
crc_loop-append [] ys crc = refl
crc_loop-append (x ∷ xs) ys crc = crc_loop-append xs ys (crc_shifts 9 (0x100 + x) crc)

bits_lsb_two_bytes :
    (n crc : ℕ)
    → crc_bits (bits_lsb 8 (n / 256)) (crc_bits (bits_lsb 8 (n % 256)) crc)
      ≡ crc_bits (bits_lsb 16 n) crc
unfolding crc_bits bits_lsb
bits_lsb_two_bytes n crc =
    let l0 : n % 256 % 2 ≡ n % 2 = omega arith in
    let l1 : n % 256 / 2 % 2 ≡ n / 2 % 2 = omega arith in
    let l2 : n % 256 / 2 / 2 % 2 ≡ n / 2 / 2 % 2 = omega arith in
    let l3 : n % 256 / 2 / 2 / 2 % 2 ≡ n / 2 / 2 / 2 % 2 = omega arith in
    let l4 : n % 256 / 2 / 2 / 2 / 2 % 2 ≡ n / 2 / 2 / 2 / 2 % 2 = omega arith in
    let l5 : n % 256 / 2 / 2 / 2 / 2 / 2 % 2 ≡ n / 2 / 2 / 2 / 2 / 2 % 2 = omega arith in
    let l6 : n % 256 / 2 / 2 / 2 / 2 / 2 / 2 % 2 ≡ n / 2 / 2 / 2 / 2 / 2 / 2 % 2 = omega arith in
    let l7 : n % 256 / 2 / 2 / 2 / 2 / 2 / 2 / 2 % 2 ≡ n / 2 / 2 / 2 / 2 / 2 / 2 / 2 % 2 =
      omega arith in
    let h : n / 256 ≡ n / 2 / 2 / 2 / 2 / 2 / 2 / 2 / 2 = omega arith in
    rw (h, l0, l1, l2, l3, l4, l5, l6, l7)

-- The check sequence, low byte first, as the sender appends it.
unfoldable pub with_fcs : List ℕ → List ℕ
with_fcs bytes = bytes ++ (sdlc_crc bytes % 256) ∷ (sdlc_crc bytes / 256) ∷ []

ones : crc_bits (replicate 16 1) 0 ≡ 0xf0b8
unfolding crc_bits crc_bit
ones = refl

crc_bits_fcs : (x : ℕ) → x < 2 ^ 16 → crc_bits (bits_lsb 16 (0xffff - x)) x ≡ 0xf0b8
crc_bits_fcs x h = (rw (bit_xor-zero x) at (crc_bits_complement 16 x 0 h)) ∙ ones

-- Whatever the bytes of a frame are, followed by their own check sequence they leave the residue
-- that `protodec_calculate_crc` compares with.
pub sdlc_crc-residue : (bytes : List ℕ) → All IsByte bytes → sdlc_crc (with_fcs bytes) ≡ 0x0f47
unfolding sdlc_crc with_fcs crc_loop
sdlc_crc-residue bytes p =
    let x : ℕ = crc_loop bytes 0xffff in
    let x_lt : x < 2 ^ 16 = crc_loop-lt bytes 0xffff p (omega arith) in
    rw (
      crc_loop-append bytes (((0xffff - x) % 256) ∷ ((0xffff - x) / 256) ∷ []) 0xffff,
      crc_shifts_byte ((0xffff - x) % 256) x (omega arith),
      crc_shifts_byte ((0xffff - x) / 256) (crc_bits (bits_lsb 8 ((0xffff - x) % 256)) x)
          (omega arith),
      bits_lsb_two_bytes (0xffff - x) x,
      crc_bits_fcs x x_lt,
    )
