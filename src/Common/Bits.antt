-- ===== src/Common/Bits.antt =====
-- Laws of the bit operations on the native numbers, from their recursion on binary digits.
use Prim.Native.Nat.{ℕ, zero, suc, ◌+◌, ◌-◌, ◌*◌, ◌/◌, ◌%◌, ◌^◌, ◌≤◌, ◌<◌, max}
use Prim.Native.Nat.{bit_or, bit_xor, digits, bitwise, bit_xor-bitwise, bit_or-bitwise, differ}
use mathlib.Core.Path.{◌≡◌, refl, sym, ap, ◌∙◌}
use native.Mathlib.Omega.{arith}
use native.Mathlib.Nat.{le_refl, one-le-pow, pow-suc, suc-add, zero-add}

-- Rounds that a recursion on digits does not need, of an operation `op` with `last` for the rest.
spare_rounds :
    (last : ℕ → ℕ) (op : ℕ → ℕ → ℕ) (spare k x y : ℕ)
    → x ≤ k
    → digits last op (k + spare) x y ≡ digits last op k x y
spare_rounds last op zero k x y enough = ap (λ n. digits last op n x y) (omega arith)
spare_rounds last op (suc spare) zero zero y enough = simp zero-add refl
spare_rounds last op (suc spare) zero (suc x) y enough = absurd (omega arith)
spare_rounds last op (suc spare) (suc k) zero y enough = simp suc-add refl
spare_rounds last op (suc spare) (suc k) (suc x) y enough =
    rw (suc-add k (suc spare), spare_rounds last op (suc spare) k (suc x / 2) (y / 2) (omega arith))

-- The lowest digit of a result, and the operation on the rest.
lowest_digit :
    (last : ℕ → ℕ) (op : ℕ → ℕ → ℕ) (x y : ℕ)
    → bitwise last op (suc x) y ≡ bitwise last op (suc x / 2) (y / 2) * 2 + op (suc x % 2) (y % 2)
lowest_digit last op x y =
    let half = suc x / 2 in
    let rounds : half + (x - half) ≡ x = omega arith in
    ap (λ high. high * 2 + op (suc x % 2) (y % 2))
      (rw rounds at (spare_rounds last op (x - half) half half (y / 2) (omega arith)))

pub bit_or_step : (x y : ℕ) → bit_or x y ≡ bit_or (x / 2) (y / 2) * 2 + max (x % 2) (y % 2)
bit_or_step zero y = omega (arith, bit_or-bitwise 0 y, bit_or-bitwise 0 (y / 2))
bit_or_step (suc x) y =
    bit_or-bitwise (suc x) y
    ∙ (lowest_digit (λ n. n) max x y
        ∙ ap (λ high. high * 2 + max (suc x % 2) (y % 2))
            (sym (bit_or-bitwise (suc x / 2) (y / 2))))

differ-mod : (x y : ℕ) → x < 2 → y < 2 → differ x y ≡ (x + y) % 2
differ-mod zero y p q = omega arith
differ-mod (suc zero) zero p q = refl
differ-mod (suc zero) (suc zero) p q = refl
differ-mod (suc zero) (suc (suc y)) p q = absurd (omega arith)
differ-mod (suc (suc x)) y p q = absurd (omega arith)

pub bit_xor_step : (a b : ℕ) → bit_xor a b ≡ bit_xor (a / 2) (b / 2) * 2 + (a % 2 + b % 2) % 2
bit_xor_step zero b = simp bit_xor-bitwise (omega arith)
bit_xor_step (suc a) b = simp bit_xor-bitwise (
    omega (
      arith,
      lowest_digit (λ n. n) differ a b,
      differ-mod (suc a % 2) (b % 2) (omega arith) (omega arith),
    ))

pub bit_xor_half : (a b : ℕ) → bit_xor a b / 2 ≡ bit_xor (a / 2) (b / 2)
bit_xor_half a b = omega (arith, bit_xor_step a b)

pub bit_xor_low : (a b : ℕ) → bit_xor a b % 2 ≡ (a + b) % 2
bit_xor_low a b = omega (arith, bit_xor_step a b)

pub bit_xor-zero : (a : ℕ) → bit_xor a 0 ≡ a
bit_xor-zero a = go a a (le_refl _)
  where
    go : (n a : ℕ) → a ≤ n → bit_xor a 0 ≡ a
    go n zero h = refl
    go zero (suc a) h = absurd (omega arith)
    go (suc n) (suc a) h = omega (arith, bit_xor_step (suc a) 0, go n (suc a / 2) (omega arith))

bit_xor_assoc_fuel :
    (n a b c : ℕ) → a ≤ n → b ≤ n → c ≤ n → bit_xor (bit_xor a b) c ≡ bit_xor a (bit_xor b c)
bit_xor_assoc_fuel zero zero zero zero p q r = refl
bit_xor_assoc_fuel zero (suc a) b c p q r = absurd (omega arith)
bit_xor_assoc_fuel zero zero (suc b) c p q r = absurd (omega arith)
bit_xor_assoc_fuel zero zero zero (suc c) p q r = absurd (omega arith)
bit_xor_assoc_fuel (suc n) a b c p q r = omega (
  arith,
  bit_xor_step (bit_xor a b) c,
  bit_xor_step a (bit_xor b c),
  bit_xor_low a b,
  bit_xor_low b c,
  ap (λ t. bit_xor t (c / 2)) (bit_xor_half a b),
  ap (λ t. bit_xor (a / 2) t) (bit_xor_half b c),
  bit_xor_assoc_fuel n (a / 2) (b / 2) (c / 2) (omega arith) (omega arith) (omega arith),
)

pub bit_xor_assoc : (a b c : ℕ) → bit_xor (bit_xor a b) c ≡ bit_xor a (bit_xor b c)
bit_xor_assoc a b c = bit_xor_assoc_fuel (a + b + c) a b c (omega arith) (omega arith) (omega arith)

-- A number exclusive-ored with one below 2 ^ k stays below 2 ^ k.
pub bit_xor-lt : (k a b : ℕ) → a < 2 ^ k → b < 2 ^ k → bit_xor a b < 2 ^ k
bit_xor-lt zero zero zero p q = omega arith
bit_xor-lt zero (suc a) b p q = absurd (omega arith)
bit_xor-lt zero zero (suc b) p q = absurd (omega arith)
bit_xor-lt (suc k) a b p q =
    let e = pow-suc 2 k in
    omega (
      arith,
      bit_xor_step a b,
      bit_xor-lt k (a / 2) (b / 2) (omega (arith, e)) (omega (arith, e)),
      e,
    )

bit_or-zero : (a : ℕ) → bit_or a 0 ≡ a
bit_or-zero a = go a a (le_refl _)
  where
    go : (n a : ℕ) → a ≤ n → bit_or a 0 ≡ a
    go n zero h = refl
    go zero (suc a) h = absurd (omega arith)
    go (suc n) (suc a) h = omega (arith, bit_or_step (suc a) 0, go n (suc a / 2) (omega arith))

double_shift : (q k : ℕ) → q * 2 ^ suc k ≡ 2 * (q * 2 ^ k)
double_shift q k = omega (arith, ap (λ (t : ℕ). q * t) (pow-suc 2 k))

-- `(q << k) | r` and `r | (q << k)` are sums when `r` fits below bit `k`.
pub bit_or_high : (k q r : ℕ) → r < 2 ^ k → bit_or (q * 2 ^ k) r ≡ q * 2 ^ k + r
bit_or_high zero q r fits = ground (arith, bit_or-zero q)
bit_or_high (suc k) q r fits = ground (
  arith,
  bit_or_step (q * 2 ^ suc k) r,
  double_shift q k,
  bit_or_high k q (r / 2) (omega (arith, pow-suc 2 k)),
)

pub bit_or_low : (k q r : ℕ) → r < 2 ^ k → bit_or r (q * 2 ^ k) ≡ q * 2 ^ k + r
bit_or_low zero q zero fits = simp bit_or-bitwise (omega arith)
bit_or_low zero q (suc r) fits = absurd (omega arith)
bit_or_low (suc k) q r fits = ground (
  arith,
  bit_or_step r (q * 2 ^ suc k),
  double_shift q k,
  bit_or_low k q (r / 2) (omega (arith, pow-suc 2 k)),
)

pub bit_shift-lt : (k b : ℕ) → b < 2 → b * 2 ^ k < 2 ^ suc k
bit_shift-lt k zero h = omega (arith, one-le-pow k 2, pow-suc 2 k)
bit_shift-lt k (suc zero) h = omega (arith, one-le-pow k 2, pow-suc 2 k)
bit_shift-lt k (suc (suc b)) h = absurd (omega arith)

pub zero-bit_xor : (b : ℕ) → bit_xor 0 b ≡ b
zero-bit_xor b = bit_xor-bitwise 0 b
