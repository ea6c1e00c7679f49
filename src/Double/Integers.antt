-- ===== src/Double/Integers.antt =====
-- Which doubles are an integer within bounds.
use native.Mathlib.Nat.{
  div-le_of_le-mul, div-lt_iff_lt-mul, mul_comm, mul-div_cancel, mul-le-mul_right, pow-suc,
}
use chat_hub.Prelude.{
  ℕ, zero, suc, ◌+◌, ◌-◌, ◌*◌, ◌/◌, ◌^◌, ◌≤◌, ◌<◌, ◌≡◌, ◌↔◌, ◌⊎◌, inl, inr, refl, sym, ap, ◌∙◌,
  Bool, true, false, ltb, arith, none, some, ◌==◌,
}
use chat_hub.Double.{Double, of_nat, less, equal, floor, truncated, read_integer}

-- The double has this value. A zero may have a sign.
abbrev pub IsInteger : Double → ℕ → Type 0
IsInteger d n = (d.mantissa ≡ n * 2 ^ d.scale) × ((d.negative ≡ false) ⊎ (d.mantissa ≡ 0))

two_pow_pos : (s : ℕ) → 0 < 2 ^ s
two_pow_pos zero = omega arith
two_pow_pos (suc s) = omega (arith, pow-suc 2 s, two_pow_pos s)

positive_tests :
    (m s max : ℕ)
    → let d : Double = record { negative = false; mantissa = m; scale = s } in
      (less d (of_nat 0) ≡ false)
      × (less (of_nat max) d ≡ ltb (max * 2 ^ s) m)
      × (equal (floor d) d ≡ (m / 2 ^ s * 2 ^ s == m))
      × (truncated d ≡ m / 2 ^ s)
unfolding less equal floor truncated
positive_tests m s max = (ground arith, ground arith, ground arith, refl)

negative_tests :
    (m s max : ℕ)
    → let d : Double = record { negative = true; mantissa = m; scale = s } in
      (less d (of_nat 0) ≡ ltb 0 m) × (less (of_nat max) d ≡ false)
unfolding less
negative_tests m s max = (ground arith, ground arith)

zero_quotient : (p k : ℕ) → k < p → k / p ≡ 0
zero_quotient p k h =
    omega (arith, (div-lt_iff_lt-mul {k = p} {x = k} {y = 1} (omega arith)).1 (omega arith))

no_multiple : (n p : ℕ) → 0 < p → 0 ≡ n * p → n ≡ 0
no_multiple zero p h e = refl
no_multiple (suc n) p h e = absurd (omega arith)

-- A zero with a sign is its own floor.
negative_zero :
    (s : ℕ)
    → let d : Double = record { negative = true; mantissa = 0; scale = s } in
      (equal (floor d) d ≡ true) × (truncated d ≡ 0)
unfolding less equal floor truncated
negative_zero s =
    let pos = two_pow_pos s in
    let floor_zero = zero_quotient (2 ^ s) (0 + 2 ^ s - 1) (omega arith) in
    (rw floor_zero (ground arith), zero_quotient (2 ^ s) 0 pos)

negative_value :
    (m s max : ℕ)
    → m ≡ 0
    → let d : Double = record { negative = true; mantissa = m; scale = s } in
      read_integer max d ≡ some 0
unfolding read_integer
negative_value m s max h =
    let (whole, value) = negative_zero s in
    let (above, below) = negative_tests 0 s max in rw h (ground (arith, whole, value, above, below))

negative_none :
    (m s max : ℕ)
    → 0 < m
    → let d : Double = record { negative = true; mantissa = m; scale = s } in
      read_integer max d ≡ none
unfolding read_integer
negative_none m s max h = ground (arith, (negative_tests m s max).0)

by_sign :
    (negative : Bool) (m s max n : ℕ)
    → let d : Double = record { negative = negative; mantissa = m; scale = s } in
      (read_integer max d ≡ some n) ↔ (IsInteger d n × (n ≤ max))
unfolding read_integer
by_sign false m s max n =
    let (above, below, whole, value) = positive_tests m s max in
    let pos = two_pow_pos s in
    (
      λ h.
          let fits : m ≤ max * 2 ^ s = ground (arith, above, below, whole, value) in
          let exact : m / 2 ^ s * 2 ^ s ≡ m = ground (arith, above, below, whole, value) in
          let is_n : m / 2 ^ s ≡ n = ground (arith, above, below, whole, value) in
          (
            (sym exact ∙ ap (λ k. k * 2 ^ s) is_n, inl refl),
            rw (← is_n) (div-le_of_le-mul (2 ^ s) (rw (mul_comm (2 ^ s) max) fits)),
          ),
      λ (is_integer, fits).
          let quotient : m / 2 ^ s ≡ n = ap (λ k. k / 2 ^ s) is_integer.0 ∙ mul-div_cancel n pos in
          ground (
            arith,
            above,
            below,
            whole,
            value,
            quotient,
            is_integer.0,
            mul-le-mul_right (2 ^ s) fits,
          ),
    )
by_sign true zero s max n =
    let zero_read = negative_value 0 s max refl in
    (
      λ h.
          let is_zero : 0 ≡ n = cc (zero_read, h) in
          rw (← is_zero) ((omega arith, inr refl), omega arith),
      λ (is_integer, fits).
          let n_zero : n ≡ 0 = no_multiple n (2 ^ s) (two_pow_pos s) is_integer.0 in
          zero_read ∙ ap some (sym n_zero),
    )
by_sign true (suc m) s max n = (
  λ h. cc (h, negative_none (suc m) s max (omega arith)),
  λ (is_integer, fits). elim is_integer.1 [ inl e ↦ cc | inr e ↦ absurd (omega arith) ],
)

-- The client's test accepts exactly the doubles that are an integer from 0 to the bound, and reads
-- that integer.
pub read_integer_iff :
    (max : ℕ) (d : Double) (n : ℕ) → (read_integer max d ≡ some n) ↔ (IsInteger d n × (n ≤ max))
read_integer_iff max d n = by_sign d.negative d.mantissa d.scale max n
