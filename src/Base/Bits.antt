-- ===== src/Base/Bits.antt =====
-- The masks of the source as remainders: `x & (2^k - 1)`, `x & ~(2^k - 1)`, and `|` of a high bit.
use Prim.Native.Nat.{min, max, digits, bit_and-bitwise, bit_or-bitwise}
use Prim.Native.Nat.{ℕ, zero, suc, ◌+◌, ◌-◌, ◌*◌, ◌/◌, ◌%◌, ◌^◌, ◌≤◌, ◌<◌, bit_and, bit_or}
use mathlib.Core.Path.{◌≡◌, refl, ap}
use native.Mathlib.Nat.{pow-suc, one-le-pow, div-one, mul-one, div-div-eq-div-mul, mul_comm}
use native.Mathlib.Omega.{arith}

-- Enough fuel gives the digits of the result, however much it is.
more_fuel :
    (z : ℕ → ℕ) (f : ℕ → ℕ → ℕ) (n m a b : ℕ) → a ≤ n → a ≤ m → digits z f n a b ≡ digits z f m a b
more_fuel z f zero zero a b p q = refl
more_fuel z f zero (suc m) zero b p q = refl
more_fuel z f zero (suc m) (suc a) b p q = absurd (omega arith)
more_fuel z f (suc n) zero zero b p q = refl
more_fuel z f (suc n) zero (suc a) b p q = absurd (omega arith)
more_fuel z f (suc n) (suc m) zero b p q = refl
more_fuel z f (suc n) (suc m) (suc a) b p q =
    rw (more_fuel z f n m (suc a / 2) (b / 2) (omega arith) (omega arith))

-- The lowest digit of `&` and of `|`.
bit_and-digit : (a b : ℕ) → bit_and a b ≡ bit_and (a / 2) (b / 2) * 2 + min (a % 2) (b % 2)
bit_and-digit zero b = omega (arith, bit_and-bitwise 0 b, bit_and-bitwise 0 (b / 2))
bit_and-digit (suc a) b = omega (
  arith,
  bit_and-bitwise (suc a) b,
  bit_and-bitwise (suc a / 2) (b / 2),
  more_fuel (λ y. zero) min a (suc a / 2) (suc a / 2) (b / 2) (omega arith) (omega arith),
)

bit_or-digit : (a b : ℕ) → bit_or a b ≡ bit_or (a / 2) (b / 2) * 2 + max (a % 2) (b % 2)
bit_or-digit zero b = omega (arith, bit_or-bitwise 0 b, bit_or-bitwise 0 (b / 2))
bit_or-digit (suc a) b = omega (
  arith,
  bit_or-bitwise (suc a) b,
  bit_or-bitwise (suc a / 2) (b / 2),
  more_fuel (λ y. y) max a (suc a / 2) (suc a / 2) (b / 2) (omega arith) (omega arith),
)

zero-bit_and : (b : ℕ) → bit_and 0 b ≡ 0
zero-bit_and b = bit_and-bitwise 0 b

bit_and-zero_below : (n a : ℕ) → a ≤ n → bit_and a 0 ≡ 0
bit_and-zero_below n zero h = refl
bit_and-zero_below zero (suc a) h = absurd (omega arith)
bit_and-zero_below (suc n) (suc a) h =
    omega (arith, bit_and-digit (suc a) 0, bit_and-zero_below n (suc a / 2) (omega arith))

bit_or-zero_below : (n a : ℕ) → a ≤ n → bit_or a 0 ≡ a
bit_or-zero_below n zero h = refl
bit_or-zero_below zero (suc a) h = absurd (omega arith)
bit_or-zero_below (suc n) (suc a) h =
    omega (arith, bit_or-digit (suc a) 0, bit_or-zero_below n (suc a / 2) (omega arith))

bit_and-zero : (a : ℕ) → bit_and a 0 ≡ 0
bit_and-zero a = bit_and-zero_below a a (omega arith)

bit_or-zero : (a : ℕ) → bit_or a 0 ≡ a
bit_or-zero a = bit_or-zero_below a a (omega arith)

mul-pow-suc : (q k : ℕ) → q * 2 ^ suc k ≡ 2 * (q * 2 ^ k)
mul-pow-suc q k = omega (arith, ap (λ (t : ℕ). q * t) (pow-suc 2 k))

bit_and-low : (k q r : ℕ) → r < 2 ^ k → bit_and (q * 2 ^ k + r) (2 ^ k - 1) ≡ r
bit_and-low zero q r fits = rw bit_and-zero (omega arith)
bit_and-low (suc k) q r fits = ground (
  arith,
  bit_and-digit (q * 2 ^ suc k + r) (2 ^ suc k - 1),
  mul-pow-suc q k,
  pow-suc 2 k,
  bit_and-low k q (r / 2) (omega arith),
)

-- A mask of `k` ones is the remainder by `2 ^ k`.
pub bit_and-ones : (k a : ℕ) → bit_and a (2 ^ k - 1) ≡ a % 2 ^ k
bit_and-ones k a = ground (arith, one-le-pow k 2, bit_and-low k (a / 2 ^ k) (a % 2 ^ k))

-- A mask whose `k` low bits are clear acts on the bits above them.
pub bit_and-high : (k a m : ℕ) → bit_and a (m * 2 ^ k) ≡ bit_and (a / 2 ^ k) m * 2 ^ k
bit_and-high zero a m = rw (div-one a, mul-one m, mul-one (bit_and a m))
bit_and-high (suc k) a m = ground (
  arith,
  bit_and-digit a (m * 2 ^ suc k),
  mul-pow-suc m k,
  bit_and-high k (a / 2) m,
  div-div-eq-div-mul a 2 (2 ^ k),
  pow-suc 2 k,
  mul_comm (2 ^ k) 2,
  mul-pow-suc (bit_and (a / 2 ^ suc k) m) k,
)

-- `|` of a multiple of `2 ^ k` and a value of `k` bits is their sum.
pub bit_or-fields : (k q r : ℕ) → r < 2 ^ k → bit_or (q * 2 ^ k) r ≡ q * 2 ^ k + r
bit_or-fields zero q r fits = ground (arith, bit_or-zero q)
bit_or-fields (suc k) q r fits = ground (
  arith,
  bit_or-digit (q * 2 ^ suc k) r,
  mul-pow-suc q k,
  bit_or-fields k q (r / 2) (omega arith),
)
