-- ===== src/Double.antt =====
-- The finite values of a `double`, exactly, with what the code does to them.
pub mod Integers
use chat_hub.Prelude.{
  ℕ, ◌+◌, ◌-◌, ◌*◌, ◌/◌, ◌^◌, Bool, true, false, not, ◌&&◌, ◌||◌, ltb, if◌then◌else◌, Option, none,
  some,
}

-- `mantissa / 2 ^ scale`, below 0 if `negative`.
pub record Double : Type 0 where
  pub negative : Bool
  pub mantissa : ℕ
  pub scale : ℕ

-- A literal without fraction.
abbrev pub of_nat : ℕ → Double
of_nat n = record { negative = false; mantissa = n; scale = 0 }

-- The two mantissas over a common denominator, first times the other's scale.
abbrev pub over : Double → Double → ℕ
over a b = a.mantissa * 2 ^ b.scale

-- `a < b`. Both zeros are equal.
unfoldable pub less : Double → Double → Bool
less a b =
    if a.negative
    then (if b.negative then ltb (over b a) (over a b) else ltb 0 (a.mantissa + b.mantissa))
    else if b.negative
    then false
    else ltb (over a b) (over b a)

-- `a == b`.
unfoldable pub equal : Double → Double → Bool
equal a b = not (less a b) && not (less b a)

-- `std::floor`.
unfoldable pub floor : Double → Double
floor d = record {
  negative = d.negative;
  mantissa =
      if d.negative then (d.mantissa + 2 ^ d.scale - 1) / 2 ^ d.scale else d.mantissa / 2 ^ d.scale;
  scale = 0;
}

-- The cast of a value that is not below 0 to an unsigned integer, which has room for it.
unfoldable pub truncated : Double → ℕ
truncated d = d.mantissa / 2 ^ d.scale

-- The test of the client: `d < 0.0 || d > max || std::floor(d) != d`, and the cast.
unfoldable pub read_integer : ℕ → Double → Option ℕ
read_integer max d =
    if less d (of_nat 0) || less (of_nat max) d || not (equal (floor d) d)
    then none
    else some (truncated d)
