-- ===== src/Base/Bits.antt =====
-- Shifts, masks and disjoint unions of bits at variables, as arithmetic.
use Prim.Native.Nat.{
  ℕ, zero, suc, ◌+◌, ◌*◌, ◌/◌, ◌%◌, ◌^◌, ◌≤◌, ◌<◌, max, bit_or, digits, bit_or-bitwise,
}
use mathlib.Core.Path.{◌≡◌, refl, sym, ◌∙◌}
use native.Mathlib.Omega.{arith}
use native.Mathlib.Nat.{pow-suc, pow-zero, mul-one, mul_assoc}

-- x >> k, x & (2^k - 1) and bit k of x.
abbrev pub shr : ℕ → ℕ → ℕ
shr x k = x / 2 ^ k

abbrev pub low_bits : ℕ → ℕ → ℕ
low_bits x k = x % 2 ^ k

abbrev pub bit : ℕ → ℕ → ℕ
bit x k = x / 2 ^ k % 2

-- The recursion on binary digits that `bit_or` stands for does not depend on spare fuel.
abbrev union : ℕ → ℕ → ℕ → ℕ
union fuel a b = digits (λ rest. rest) max fuel a b

union_fuel : (n m a b : ℕ) → a ≤ n → a ≤ m → union n a b ≡ union m a b
union_fuel zero zero a b p q = refl
union_fuel zero (suc m) zero b p q = refl
union_fuel zero (suc m) (suc a) b p q = absurd (omega arith)
union_fuel (suc n) zero zero b p q = refl
union_fuel (suc n) zero (suc a) b p q = absurd (omega arith)
union_fuel (suc n) (suc m) zero b p q = refl
union_fuel (suc n) (suc m) (suc a) b p q =
    omega (arith, union_fuel n m (suc a / 2) (b / 2) (omega arith) (omega arith))

zero-bit_or : (b : ℕ) → bit_or 0 b ≡ b
zero-bit_or b = bit_or-bitwise 0 b

bit_or_halves : (a b : ℕ) → bit_or a b ≡ 2 * bit_or (a / 2) (b / 2) + max (a % 2) (b % 2)
bit_or_halves zero b = omega (arith, zero-bit_or b, zero-bit_or (b / 2))
bit_or_halves (suc a) b = omega (
  arith,
  bit_or-bitwise (suc a) b,
  bit_or-bitwise (suc a / 2) (b / 2),
  union_fuel a (suc a / 2) (suc a / 2) (b / 2) (omega arith) (omega arith),
)

bit_or-zero_below : (n a : ℕ) → a ≤ n → bit_or a 0 ≡ a
bit_or-zero_below n zero h = zero-bit_or 0
bit_or-zero_below zero (suc a) h = absurd (omega arith)
bit_or-zero_below (suc n) (suc a) h =
    omega (arith, bit_or_halves (suc a) 0, bit_or-zero_below n (suc a / 2) (omega arith))

pub bit_or-zero : (a : ℕ) → bit_or a 0 ≡ a
bit_or-zero a = bit_or-zero_below a a (omega arith)

-- Above bit k stands `a`, below it `b`: their union is the sum, in either order.
pub bit_or-high_low : (k a b : ℕ) → b < 2 ^ k → bit_or (a * 2 ^ k) b ≡ a * 2 ^ k + b
bit_or-high_low zero a zero h = omega (arith, bit_or-zero (a * 1))
bit_or-high_low zero a (suc b) h = absurd (omega arith)
bit_or-high_low (suc k) a b h =
    let half : a * 2 ^ suc k / 2 ≡ a * 2 ^ k = rw (pow-suc 2 k) (omega arith) in
    let even : a * 2 ^ suc k ≡ 2 * (a * 2 ^ k) = rw (pow-suc 2 k) (omega arith) in
    let rest = bit_or-high_low k a (b / 2) (omega (arith, pow-suc 2 k)) in
    omega (arith, even, rw half at (bit_or_halves (a * 2 ^ suc k) b), rest)

pub bit_or-low_high : (k a b : ℕ) → b < 2 ^ k → bit_or b (a * 2 ^ k) ≡ a * 2 ^ k + b
bit_or-low_high zero a zero h = zero-bit_or (a * 1) ∙ omega arith
bit_or-low_high zero a (suc b) h = absurd (omega arith)
bit_or-low_high (suc k) a b h =
    let half : a * 2 ^ suc k / 2 ≡ a * 2 ^ k = rw (pow-suc 2 k) (omega arith) in
    let even : a * 2 ^ suc k ≡ 2 * (a * 2 ^ k) = rw (pow-suc 2 k) (omega arith) in
    let rest = bit_or-low_high k a (b / 2) (omega (arith, pow-suc 2 k)) in
    omega (arith, even, rw half at (bit_or_halves b (a * 2 ^ suc k)), rest)

pub pow_add : (b n k : ℕ) → b ^ (n + k) ≡ b ^ n * b ^ k
pow_add b n zero = let sum : n + 0 ≡ n = omega arith in rw (sum, pow-zero b) (sym (mul-one (b ^ n)))
pow_add b n (suc k) =
    let sum : n + suc k ≡ suc (n + k) = omega arith in
    rw (sum, pow-suc b (n + k), pow-suc b k, pow_add b n k) (mul_assoc (b ^ n) (b ^ k) b)
