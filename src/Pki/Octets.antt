-- ===== src/Pki/Octets.antt =====
-- An octet is the decimal print of a byte.
use chat_hub.Prelude.{
  ℕ, ◌+◌, ◌-◌, ◌*◌, ◌≤◌, ◌<◌, ◌≡◌, ◌≢◌, ◌⊎◌, inl, inr, refl, sym, ap, ◌∙◌, [], ◌∷◌, ◌++◌, true,
  ◌==◌, arith, Bytes, length, get_or, All, Option, none, some, Bool-cases,
}
use chat_hub.Ids.DecimalSeq.{digits_value, to_string}
use chat_hub.Ids.DecimalSeq.Canonical.{to_string-value, to_string_digits, to_string_lead}
use chat_hub.Ids.DecimalSeq.Digits.{IsDigit, print_fuel, length-print}
use chat_hub.Pki.{split_dot, octet_value, at_most_255, is_octet}

octet_value_digits : (n : ℕ) (s : Bytes) → All IsDigit s → octet_value n s ≡ some (digits_value n s)
unfolding octet_value digits_value
octet_value_digits n [] d = refl
octet_value_digits n (c ∷ s) d = ground (arith, octet_value_digits (n * 10 + (c - b'0')) s d.1, d.0)

octet_value-some : (n v : ℕ) (s : Bytes) → octet_value n s ≡ some v → All IsDigit s
unfolding octet_value
octet_value-some n v [] h = tt
octet_value-some n v (c ∷ s) h =
    ((ground arith, ground arith), octet_value-some (n * 10 + (c - b'0')) v s (ground arith))

to_string_short : (n : ℕ) → n < 256 → length (to_string n) ≤ 3
unfolding to_string
to_string_short n h = rw (print_fuel 19 2 n [] (omega arith) (omega arith)) (length-print 3 n [])

pub to_string-octet : (n : ℕ) → n < 256 → is_octet (to_string n) ≡ true
unfolding is_octet at_most_255
to_string-octet n h =
    let (d, v) = to_string_digits n (omega arith) in
    let (pos, lead) = to_string_lead n (omega arith) in
    let value = octet_value_digits 0 (to_string n) d ∙ ap some v in
    rw value (ground (arith, to_string_short n h, pos, lead))

at_most_255-some : (o : Option ℕ) → at_most_255 o ≡ true → (v : ℕ) × (o ≡ some v) × (v < 256)
unfolding at_most_255
at_most_255-some none h = cc
at_most_255-some (some v) h = (v, refl, ground arith)

octet_tests :
    (s : Bytes)
    → is_octet s ≡ true
    → (0 < length s)
      × ((length s ≡ 1) ⊎ (get_or s 0 0 ≢ b'0'))
      × (v : ℕ) × (octet_value 0 s ≡ some v)
      × (v < 256)
unfolding is_octet
octet_tests s h =
    let (v, found, small) = at_most_255-some (octet_value 0 s) (ground arith) in
    (ground arith, ground arith, v, found, small)

pub octet-to_string : (s : Bytes) → is_octet s ≡ true → (n : ℕ) × (n < 256) × (to_string n ≡ s)
octet-to_string s h =
    let (pos, lead, v, found, small) = octet_tests s h in
    let d = octet_value-some 0 v s found in
    let same : digits_value 0 s ≡ v = some_injective (sym (octet_value_digits 0 s d) ∙ found) in
    (digits_value 0 s, omega arith, to_string-value s pos d lead (omega arith))
  where
    some_injective : {a b : ℕ} → some a ≡ some b → a ≡ b
    some_injective e = cc

-- A text without dots in front of a dot, or alone, is the octet.
pub split_dot_front :
    (s rest : Bytes) → All IsDigit s → split_dot (s ++ (b'.' ∷ rest)) ≡ (s, some rest)
unfolding split_dot
split_dot_front [] rest d = refl
split_dot_front (c ∷ s) rest d = ground (arith, split_dot_front s rest d.1, d.0)

pub split_dot_alone : (s : Bytes) → All IsDigit s → split_dot s ≡ (s, none)
unfolding split_dot
split_dot_alone [] d = refl
split_dot_alone (c ∷ s) d = ground (arith, split_dot_alone s d.1, d.0)

-- What was split, joined again.
abbrev pub rejoined : Bytes → Option Bytes → Bytes
rejoined octet none = octet
rejoined octet (some rest) = octet ++ (b'.' ∷ rest)

push_front :
    (c : ℕ) (octet : Bytes) (behind : Option Bytes)
    → rejoined (c ∷ octet) behind ≡ c ∷ rejoined octet behind
push_front c octet none = refl
push_front c octet (some rest) = refl

pub split_dot-rejoined : (s : Bytes) → rejoined (split_dot s).0 (split_dot s).1 ≡ s
unfolding split_dot
split_dot-rejoined [] = refl
split_dot-rejoined (c ∷ s) = elim (Bool-cases (c == b'.')) [
  | inl dot ↦ rw dot (ground arith)
  | inr other ↦
      rw other
        (push_front c (split_dot s).0 (split_dot s).1 ∙ ap (λ t. c ∷ t) (split_dot-rejoined s))
]
