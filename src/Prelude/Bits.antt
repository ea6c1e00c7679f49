-- ===== src/Prelude/Bits.antt =====
-- Facts about `bit_and` and `bit_or` at variables, for masks and for fields that do not overlap.
use Prim.Native.Nat.{
  ℕ, zero, suc, ◌+◌, ◌*◌, ◌/◌, ◌%◌, ◌^◌, ◌≤◌, ◌<◌, min, max, bit_and, bit_or, digits,
  bit_and-bitwise, bit_or-bitwise,
}
use mathlib.Core.Path.{◌≡◌, refl, ap}
use mathlib.Core.Bool.{Bool, true, false}
use chat_hub.Prelude.Tests.{if◌then◌else◌}
use native.Mathlib.Omega.{arith}
use native.Mathlib.Nat.{pow-suc}

-- The test succeeds at every number below `n`; for a small `n`, evaluation decides this.
unfoldable pub every_below : (test : ℕ → Bool) → ℕ → Bool
every_below test zero = true
every_below test (suc k) = if test k then every_below test k else false

pub every_below_at : (test : ℕ → Bool) (n k : ℕ) → k < n → every_below test n ≡ true → test k ≡ true
unfolding every_below
every_below_at test zero k below all = absurd (omega arith)
every_below_at test (suc n) k below all = ground (arith, every_below_at test n k)

-- The fuel of the library's recursion on binary digits does not matter once it is enough.
digits_enough :
    (z : ℕ → ℕ) (f : ℕ → ℕ → ℕ) (n m a b : ℕ) → a ≤ n → a ≤ m → digits z f n a b ≡ digits z f m a b
digits_enough z f zero zero a b p q = refl
digits_enough z f zero (suc m) zero b p q = refl
digits_enough z f zero (suc m) (suc a) b p q = absurd (omega arith)
digits_enough z f (suc n) zero zero b p q = refl
digits_enough z f (suc n) zero (suc a) b p q = absurd (omega arith)
digits_enough z f (suc n) (suc m) zero b p q = refl
digits_enough z f (suc n) (suc m) (suc a) b p q =
    rw (digits_enough z f n m (suc a / 2) (b / 2) (omega arith) (omega arith))

-- One binary digit of `bit_or` and of `bit_and`.
pub bit_or_digit : (a b : ℕ) → bit_or a b ≡ bit_or (a / 2) (b / 2) * 2 + max (a % 2) (b % 2)
bit_or_digit zero b = simp bit_or-bitwise (omega arith)
bit_or_digit (suc a) b = simp bit_or-bitwise (
    omega (
      arith,
      digits_enough (λ y. y) max a (suc a / 2) (suc a / 2) (b / 2) (omega arith) (omega arith),
    ))

pub bit_and_digit : (a b : ℕ) → bit_and a b ≡ bit_and (a / 2) (b / 2) * 2 + min (a % 2) (b % 2)
bit_and_digit zero b = simp bit_and-bitwise (omega arith)
bit_and_digit (suc a) b = simp bit_and-bitwise (
    omega (
      arith,
      digits_enough (λ y. 0) min a (suc a / 2) (suc a / 2) (b / 2) (omega arith) (omega arith),
    ))

pub zero-bit_or : (b : ℕ) → bit_or 0 b ≡ b
zero-bit_or b = simp bit_or-bitwise

bit_or-zero_below : (n a : ℕ) → a ≤ n → bit_or a 0 ≡ a
bit_or-zero_below n zero h = zero-bit_or 0
bit_or-zero_below zero (suc a) h = absurd (omega arith)
bit_or-zero_below (suc n) (suc a) h =
    omega (arith, bit_or_digit (suc a) 0, bit_or-zero_below n (suc a / 2) (omega arith))

pub bit_or-zero : (a : ℕ) → bit_or a 0 ≡ a
bit_or-zero a = bit_or-zero_below a a (omega arith)

-- A high field and a low field that do not overlap: `(a << k) | b` is their sum.
bit_or_double :
    (a b p : ℕ) → bit_or (a * p) (b / 2) ≡ a * p + b / 2 → bit_or (a * (p * 2)) b ≡ a * (p * 2) + b
bit_or_double a b p h =
    let halved : a * (p * 2) / 2 ≡ a * p = omega arith in
    omega (arith, bit_or_digit (a * (p * 2)) b, ap (λ t. bit_or t (b / 2)) halved)

pub bit_or_fields : (k a b : ℕ) → b < 2 ^ k → bit_or (a * 2 ^ k) b ≡ a * 2 ^ k + b
bit_or_fields zero a b h =
    let none_left : b ≡ 0 = omega arith in rw none_left (omega (arith, bit_or-zero (a * 1)))
bit_or_fields (suc k) a b h =
    rw (pow-suc 2 k)
      (bit_or_double a b (2 ^ k) (bit_or_fields k a (b / 2) (omega (arith, pow-suc 2 k))))

bit_and-zero_below : (n a : ℕ) → a ≤ n → bit_and a 0 ≡ 0
bit_and-zero_below n zero h = refl
bit_and-zero_below zero (suc a) h = absurd (omega arith)
bit_and-zero_below (suc n) (suc a) h =
    omega (arith, bit_and_digit (suc a) 0, bit_and-zero_below n (suc a / 2) (omega arith))

-- A mask of `k` ones keeps the remainder by `2 ^ k`; one digit at a time.
mask_double :
    (a m w : ℕ) → bit_and (a / 2) m ≡ a / 2 % w → bit_and a (2 * m + 1) ≡ a / 2 % w * 2 + a % 2
mask_double a m w h =
    let halved : (2 * m + 1) / 2 ≡ m = omega arith in
    omega (arith, bit_and_digit a (2 * m + 1), ap (bit_and (a / 2)) halved)

bit_and_one : (a : ℕ) → bit_and a 1 ≡ a % 2
bit_and_one a = omega (arith, bit_and_digit a 1, bit_and-zero_below (a / 2) (a / 2) (omega arith))

pub bit_and_15 : (a : ℕ) → bit_and a 15 ≡ a % 16
bit_and_15 a = omega (
  arith,
  mask_double a 7 8,
  mask_double (a / 2) 3 4,
  mask_double (a / 2 / 2) 1 2,
  bit_and_one (a / 2 / 2 / 2),
)

-- `a & 0xff` is the low byte.
pub bit_and_byte : (a : ℕ) → bit_and a 0xff ≡ a % 256
bit_and_byte a = omega (
  arith,
  mask_double a 127 128,
  mask_double (a / 2) 63 64,
  mask_double (a / 2 / 2) 31 32,
  mask_double (a / 2 / 2 / 2) 15 16,
  bit_and_15 (a / 2 / 2 / 2 / 2),
)
