-- ===== src/Ids/DecimalSeq/Digits.antt =====
-- Printing and reading digits.
use chat_hub.Prelude.{
  ℕ, zero, suc, ◌+◌, ◌-◌, ◌*◌, ◌/◌, ◌%◌, ◌^◌, ◌≤◌, ◌<◌, ◌≡◌, ◌≢◌, inl, inr, sym, ap, ◌∙◌, [], ◌∷◌,
  ◌++◌, ltb, arith, Bytes, length, get_or, All, Bool-cases,
}
use native.Mathlib.Nat.{pow-suc}
use chat_hub.Ids.DecimalSeq.{digits_value, print}

abbrev pub IsDigit : ℕ → Type 0
IsDigit c = (b'0' ≤ c) × (c ≤ b'9')

pub print_small : (f n : ℕ) (out : Bytes) → n < 10 → print (suc f) n out ≡ (b'0' + n) ∷ out
unfolding print
print_small f n out h = ground arith

print_large :
    (f n : ℕ) (out : Bytes)
    → 10 ≤ n
    → print (suc f) n out ≡ print f (n / 10) ((b'0' + n % 10) ∷ out)
unfolding print
print_large f n out h = ground arith

tenth_below : (f n : ℕ) → n < 10 ^ suc f → n / 10 < 10 ^ f
tenth_below f n h = omega (arith, pow-suc 10 f)

print_both_small : (f g n : ℕ) (out : Bytes) → n < 10 → print (suc f) n out ≡ print (suc g) n out
print_both_small f g n out h = print_small f n out h ∙ sym (print_small g n out h)

-- Enough fuel is enough.
pub print_fuel :
    (f g n : ℕ) (out : Bytes)
    → n < 10 ^ suc f
    → n < 10 ^ suc g
    → print (suc f) n out ≡ print (suc g) n out
print_fuel zero g n out hf hg = print_both_small zero g n out hf
print_fuel (suc f) zero n out hf hg = print_both_small (suc f) zero n out hg
print_fuel (suc f) (suc g) n out hf hg = elim (Bool-cases (ltb n 10)) [
  | inl small ↦ print_both_small (suc f) (suc g) n out (ground arith)
  | inr large ↦
      print_large (suc f) n out (ground arith)
      ∙ print_fuel f g (n / 10) ((b'0' + n % 10) ∷ out) (tenth_below (suc f) n hf)
          (tenth_below (suc g) n hg)
      ∙ sym (print_large (suc g) n out (ground arith))
]

pub value_step :
    (n : ℕ) (c : ℕ) (s : Bytes) (m : ℕ)
    → n * 10 + (c - b'0') ≡ m
    → digits_value n (c ∷ s) ≡ digits_value m s
unfolding digits_value
value_step n c s m h = ap (λ k. digits_value k s) h

-- Reading what was printed gives the number.
pub value-print :
    (f n : ℕ) (out : Bytes)
    → n < 10 ^ suc f
    → digits_value 0 (print (suc f) n out) ≡ digits_value n out
value-print zero n out h =
    ap (digits_value 0) (print_small 0 n out h) ∙ value_step 0 (b'0' + n) out n (omega arith)
value-print (suc f) n out h = elim (Bool-cases (ltb n 10)) [
  | inl small ↦
      ap (digits_value 0) (print_small (suc f) n out (ground arith))
      ∙ value_step 0 (b'0' + n) out n (omega arith)
  | inr large ↦
      ap (digits_value 0) (print_large (suc f) n out (ground arith))
      ∙ value-print f (n / 10) ((b'0' + n % 10) ∷ out) (tenth_below (suc f) n h)
      ∙ value_step (n / 10) (b'0' + n % 10) out n (omega arith)
]

-- Printing what was read behind `n` gives the digits behind those of `n`.
pub print-value :
    (s : Bytes) (f n : ℕ) (out : Bytes)
    → All IsDigit s
    → 0 < n
    → print (f + length s) (digits_value n s) out ≡ print f n (s ++ out)
unfolding digits_value
print-value [] f n out d h = ap (λ k. print k n out) (omega arith)
print-value (c ∷ s) f n out d h =
    let m = n * 10 + (c - b'0') in
    let fuel : f + length (c ∷ s) ≡ suc f + length s = omega arith in
    let front : m / 10 ≡ n = omega (arith, d.0.0, d.0.1) in
    let last : b'0' + m % 10 ≡ c = omega (arith, d.0.0, d.0.1) in
    ap (λ k. print k (digits_value m s) out) fuel
    ∙ print-value s (suc f) m out d.1 (omega arith)
    ∙ print_large f m (s ++ out) (omega arith)
    ∙ λ i. print f (front i) (last i ∷ (s ++ out))

-- All that `print` writes are digits.
pub print-IsDigit : (f n : ℕ) (out : Bytes) → All IsDigit out → All IsDigit (print f n out)
unfolding print
print-IsDigit zero n out h = h
print-IsDigit (suc f) n out h = elim (Bool-cases (ltb n 10)) [
  | inl small ↦ rw small (ground arith, h)
  | inr large ↦
      rw large (print-IsDigit f (n / 10) ((b'0' + n % 10) ∷ out) ((omega arith, omega arith), h))
]

-- A positive number is printed without a leading zero.
pub print_head :
    (f n : ℕ) (out : Bytes) → 0 < n → n < 10 ^ suc f → get_or (print (suc f) n out) 0 0 ≢ b'0'
print_head zero n out pos h = rw (print_small 0 n out h) (omega arith)
print_head (suc f) n out pos h = elim (Bool-cases (ltb n 10)) [
  | inl small ↦ rw (print_small (suc f) n out (ground arith)) (omega arith)
  | inr large ↦
      rw (print_large (suc f) n out (ground arith))
        (print_head f (n / 10) ((b'0' + n % 10) ∷ out) (ground arith) (tenth_below (suc f) n h))
]

-- Each round prints one digit.
pub length-print : (f n : ℕ) (out : Bytes) → length (print f n out) ≤ f + length out
unfolding print
length-print zero n out = omega arith
length-print (suc f) n out = elim (Bool-cases (ltb n 10)) [
  | inl small ↦ rw small (omega arith)
  | inr large ↦ rw large (omega (arith, length-print f (n / 10) ((b'0' + n % 10) ∷ out)))
]

-- Something is printed in front of `out`.
pub print-longer : (f n : ℕ) (out : Bytes) → length out < length (print (suc f) n out)
unfolding print
print-longer zero n out = ground arith
print-longer (suc f) n out = elim (Bool-cases (ltb n 10)) [
  | inl small ↦ rw (print_small (suc f) n out (ground arith)) (omega arith)
  | inr large ↦
      rw (print_large (suc f) n out (ground arith))
        (omega (arith, print-longer f (n / 10) ((b'0' + n % 10) ∷ out)))
]

bound_step : (n k d : ℕ) → d ≤ 9 → (n * 10 + d + 1) * k ≤ (n + 1) * (k * 10)
bound_step n k d h = grind arith

pub value_bound : (s : Bytes) (n : ℕ) → All IsDigit s → digits_value n s < (n + 1) * 10 ^ length s
unfolding digits_value
value_bound [] n d = omega arith
value_bound (c ∷ s) n d = omega (
  arith,
  value_bound s (n * 10 + (c - b'0')) d.1,
  bound_step n (10 ^ length s) (c - b'0') (omega (arith, d.0.1)),
  ap (λ t. (n + 1) * t) (pow-suc 10 (length s)),
)
