-- ===== src/Ids/DecimalSeq/Canonical.antt =====
-- `DecimalSeq::parse` is the inverse of `toDecimalString`.
use chat_hub.Prelude.{
  ℕ, zero, suc, ◌+◌, ◌-◌, ◌^◌, ◌≤◌, ◌<◌, ◌≡◌, ◌≢◌, ◌↔◌, ◌⊎◌, inl, inr, refl, sym, ap, subst, ◌∙◌,
  [], ◌∷◌, ◌++◌, ◌==◌, arith, Bytes, length, get_or, All, append-nil, Bool-cases, some,
}
use chat_hub.Ids.DecimalSeq.{
  digit_run, digits_value, DecimalSeq, parse, of, print, to_string, to_decimal_string,
}
use chat_hub.Ids.DecimalSeq.Digits.{
  IsDigit, value_step, print_small, print_fuel, value-print, print-value, print-IsDigit, print_head,
  value_bound, print-longer,
}

digit_run-All : (s : Bytes) → All IsDigit s → digit_run s ≡ s
unfolding digit_run
digit_run-All [] d = refl
digit_run-All (c ∷ s) d = ground (arith, digit_run-All s d.1)

length-digit_run-le : (s : Bytes) → length (digit_run s) ≤ length s
unfolding digit_run
length-digit_run-le [] = omega arith
length-digit_run-le (c ∷ s) = ground (arith, length-digit_run-le s)

whole_run : (s : Bytes) → length (digit_run s) ≡ length s → All IsDigit s
unfolding digit_run
whole_run [] h = tt
whole_run (c ∷ s) h = (
  (ground (arith, length-digit_run-le s), ground (arith, length-digit_run-le s)),
  whole_run s (ground (arith, length-digit_run-le s)),
)

-- What `parse` tests, in terms of the whole text.
parse_tests :
    {Tag : Type 0} (s : Bytes) (r : DecimalSeq Tag)
    → parse s ≡ some r
    → (0 < length s)
      × (length (digit_run s) ≡ length s)
      × ((length s ≡ 1) ⊎ (get_or s 0 0 ≢ b'0'))
      × (digits_value 0 (digit_run s) < 2 ^ 64)
      × (r.value ≡ digits_value 0 (digit_run s))
unfolding parse
parse_tests s r h = (ground arith, ground arith, ground arith, ground arith, ground arith)

parse-digits :
    {Tag : Type 0} (s : Bytes)
    → 0 < length s
    → All IsDigit s
    → (length s ≡ 1) ⊎ (get_or s 0 0 ≢ b'0')
    → digits_value 0 s < 2 ^ 64
    → parse {Tag = Tag} s ≡ some (of (digits_value 0 s))
unfolding parse
parse-digits s pos d lead fits = rw (digit_run-All s d) (ground arith)

-- A text with a positive first digit is the print of its value.
print_positive :
    (c : ℕ) (s : Bytes)
    → All IsDigit (c ∷ s)
    → b'0' < c
    → digits_value 0 (c ∷ s) < 2 ^ 64
    → to_string (digits_value 0 (c ∷ s)) ≡ c ∷ s
unfolding to_string
print_positive c s d pos fits =
    let first = value_step 0 c s (c - b'0') (omega arith) in
    let front : b'0' + (c - b'0') ≡ c = omega arith in
    print_fuel 19 (length s) (digits_value 0 (c ∷ s)) [] (omega arith)
      (omega (arith, value_bound (c ∷ s) 0 d))
    ∙ ap (λ n. print (suc (length s)) n []) first
    ∙ ap (λ k. print k (digits_value (c - b'0') s) []) (omega arith)
    ∙ print-value s 1 (c - b'0') [] d.1 (omega arith)
    ∙ print_small 0 (c - b'0') (s ++ []) (omega (arith, d.0.1))
    ∙ λ i. front i ∷ append-nil s i

to_string_zero : to_string (digits_value 0 (b'0' ∷ [])) ≡ b'0' ∷ []
unfolding to_string print digits_value
to_string_zero = refl

pub to_string-value :
    (s : Bytes)
    → 0 < length s
    → All IsDigit s
    → (length s ≡ 1) ⊎ (get_or s 0 0 ≢ b'0')
    → digits_value 0 s < 2 ^ 64
    → to_string (digits_value 0 s) ≡ s
to_string-value [] pos d lead fits = absurd (omega arith)
to_string-value (c ∷ []) pos d lead fits = elim (Bool-cases (c == b'0')) [
  | inl zero_digit ↦ zero_text c (ground arith)
  | inr other ↦ print_positive c [] d (ground arith) fits
]
  where
    zero_text : (c : ℕ) → c ≡ b'0' → to_string (digits_value 0 (c ∷ [])) ≡ c ∷ []
    zero_text c e =
        ap (λ k. to_string (digits_value 0 (k ∷ []))) e ∙ to_string_zero ∙ sym (ap (λ k. k ∷ []) e)
to_string-value (c ∷ c' ∷ s) pos d lead fits = print_positive c (c' ∷ s) d (ground arith) fits

-- The print of a `uint64_t`.
pub to_string_digits :
    (n : ℕ) → n < 2 ^ 64 → All IsDigit (to_string n) × (digits_value 0 (to_string n) ≡ n)
unfolding to_string
to_string_digits n h =
    (print-IsDigit 20 n [] tt, value-print 19 n [] (omega arith) ∙ unfold digits_value in refl)

pub to_string_lead :
    (n : ℕ)
    → n < 2 ^ 64
    → (0 < length (to_string n)) × ((length (to_string n) ≡ 1) ⊎ (get_or (to_string n) 0 0 ≢ b'0'))
unfolding to_string
to_string_lead zero h = (print-longer 19 0 [], inl (ap length (print_small 19 0 [] (omega arith))))
to_string_lead (suc n) h =
    (print-longer 19 (suc n) [], inr (print_head 19 (suc n) [] (omega arith) (omega arith)))

-- `parse` accepts a text exactly if it is what `toDecimalString` writes for a 64-bit number, and
-- returns that number: no sign, blank, leading zero or trailing character passes, nothing overflows,
-- and every number is read back from its own text.
pub decimal_parse_iff :
    {Tag : Type 0} (s : Bytes) (r : DecimalSeq Tag)
    → (parse s ≡ some r) ↔ ((r.value < 2 ^ 64) × (to_decimal_string r ≡ s))
unfolding to_decimal_string
decimal_parse_iff s r = (
  λ h.
      let (pos, whole, lead, fits, value) = parse_tests s r h in
      let d = whole_run s whole in
      let run = digit_run-All s d in
      let fits' = subst (λ t. digits_value 0 t < 2 ^ 64) run fits in
      let value' : r.value ≡ digits_value 0 s = value ∙ ap (digits_value 0) run in
      (omega arith, ap to_string value' ∙ to_string-value s pos d lead fits'),
  λ (fits, e).
      let (d, v) = to_string_digits r.value fits in
      let (pos, lead) = to_string_lead r.value fits in
      subst (λ t. parse t ≡ some r) e
        (parse-digits (to_string r.value) pos d lead (omega arith) ∙ ap (λ n. some (of n)) v),
)
