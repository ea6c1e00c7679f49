-- ===== src/Utf8/Accepts.antt =====
-- `isValidUtf8` accepts exactly the encodings of sequences of scalar values.
use chat_hub.Prelude.{
  ℕ, zero, suc, ◌+◌, ◌/◌, ◌%◌, ◌≤◌, ◌<◌, ◌≡◌, refl, sym, ap, subst, ◌∙◌, inl, inr, ◌↔◌, List, [],
  ◌∷◌, ◌++◌, true, ltb, arith, Bytes, IsByte, All, length, Bool-cases, length-append,
}
use chat_hub.Utf8.{sequence_length, second_allowed, utf8_loop, is_valid_utf8}
use chat_hub.Utf8.Rounds.{
  mask-within, is_continuation, round_one, round_two, round_three, round_four,
}
use chat_hub.Utf8.Decodes.{read_sequence}
use chat_hub.Utf8.Scalars.{IsScalar, encode_scalar, encode}

-- The low bits that a continuation byte carries.
continuation : (x : ℕ) → x < 64 → is_continuation (0x80 + x) ≡ true
continuation x h = mask-within (0x80 + x) (omega arith) ∙ ground arith

module _ (fuel : ℕ) (tail : Bytes) (u : ℕ) where
  accept_two :
      0x80 ≤ u
      → u < 0x800
      → utf8_loop (suc fuel) ((0xc0 + u / 64) ∷ (0x80 + u % 64) ∷ tail) ≡ utf8_loop fuel tail
  unfolding sequence_length second_allowed
  accept_two h k =
      round_two fuel (0xc0 + u / 64) tail (ground arith) (0x80 + u % 64) (ground arith)
      ∙ ground (arith, continuation (u % 64) (omega arith))

  accept_three :
      0x800 ≤ u
      → u < 0x10000
      → IsScalar u
      → utf8_loop (suc fuel) ((0xe0 + u / 4096) ∷ (0x80 + u / 64 % 64) ∷ (0x80 + u % 64) ∷ tail)
        ≡ utf8_loop fuel tail
  unfolding sequence_length second_allowed
  accept_three h k s =
      round_three fuel (0xe0 + u / 4096) tail (ground arith) (0x80 + u / 64 % 64) (0x80 + u % 64)
        (ground arith)
      ∙ ground
          (arith, continuation (u / 64 % 64) (omega arith), continuation (u % 64) (omega arith))

  accept_four :
      0x10000 ≤ u
      → u ≤ 0x10ffff
      → utf8_loop (suc fuel) (
          (0xf0 + u / 262144)
          ∷ (0x80 + u / 4096 % 64)
          ∷ (0x80 + u / 64 % 64)
          ∷ (0x80 + u % 64)
          ∷ tail)
        ≡ utf8_loop fuel tail
  unfolding sequence_length second_allowed
  accept_four h k =
      round_four fuel (0xf0 + u / 262144) tail (ground arith) (0x80 + u / 4096 % 64)
        (0x80 + u / 64 % 64) (0x80 + u % 64) (ground arith)
      ∙ ground (
        arith,
        continuation (u / 4096 % 64) (omega arith),
        continuation (u / 64 % 64) (omega arith),
        continuation (u % 64) (omega arith),
      )

  accept_scalar : IsScalar u → utf8_loop (suc fuel) (encode_scalar u ++ tail) ≡ utf8_loop fuel tail
  unfolding encode_scalar
  accept_scalar s = elim (Bool-cases (ltb u 0x80)) [
    | inl one ↦ rw one (round_one fuel u tail (ground arith))
    | inr more ↦ rw more (elim (Bool-cases (ltb u 0x800)) [
      | inl two ↦ rw two (accept_two (ground arith) (ground arith))
      | inr more' ↦ rw more' (elim (Bool-cases (ltb u 0x10000)) [
        | inl three ↦ rw three (accept_three (ground arith) (ground arith) s)
        | inr four ↦ rw four (accept_four (ground arith) (ground arith))
      ])
    ])
  ]

encode_scalar-pos : (u : ℕ) → 1 ≤ length (encode_scalar u)
unfolding encode_scalar
encode_scalar-pos u = ground arith

accept_encoded :
    (fuel : ℕ) (us : List ℕ)
    → All IsScalar us
    → length (encode us) ≤ fuel
    → utf8_loop fuel (encode us) ≡ true
unfolding encode
accept_encoded fuel [] s h = unfold utf8_loop in refl
accept_encoded zero (u ∷ us) s h =
    absurd (omega (arith, encode_scalar-pos u, length-append (encode_scalar u) (encode us)))
accept_encoded (suc fuel) (u ∷ us) s h =
    accept_scalar fuel (encode us) u s.0
    ∙ accept_encoded fuel us s.1
        (omega (arith, encode_scalar-pos u, length-append (encode_scalar u) (encode us)))

All-append_right : (xs ys : Bytes) → All IsByte (xs ++ ys) → All IsByte ys
All-append_right [] ys h = h
All-append_right (x ∷ xs) ys h = All-append_right xs ys h.1

-- A text that the loop accepts is an encoding.
accepted-encode :
    (fuel : ℕ) (text : Bytes)
    → All IsByte text
    → utf8_loop fuel text ≡ true
    → (us : List ℕ) × All IsScalar us × (encode us ≡ text)
unfolding encode
accepted-encode fuel [] bytes h = ([], tt, refl)
accepted-encode zero (c ∷ rest) bytes h = unfold utf8_loop in cc
accepted-encode (suc fuel) (c ∷ rest) bytes h =
    let (u, tail, scalar, split, next) = read_sequence fuel c rest bytes.1 h in
    let tail_bytes = All-append_right (encode_scalar u) tail (subst (All IsByte) split bytes) in
    let (us, scalars, e) = accepted-encode fuel tail tail_bytes next in
    (u ∷ us, (scalar, scalars), ap (◌++◌ (encode_scalar u)) e ∙ sym split)

-- On bytes, `is_valid_utf8` returns true exactly on the UTF-8 encodings of sequences of Unicode
-- scalar values: no overlong form, no surrogate, nothing above U+10FFFF, no sequence cut short.
pub is_valid_utf8_iff :
    (text : Bytes)
    → All IsByte text
    → (is_valid_utf8 text ≡ true) ↔ ((us : List ℕ) × All IsScalar us × (encode us ≡ text))
unfolding is_valid_utf8
is_valid_utf8_iff text bytes = (
  accepted-encode (length text) text bytes,
  λ (us, scalars, e).
      subst (λ t. utf8_loop (length t) t ≡ true) e
        (accept_encoded (length (encode us)) us scalars (omega arith)),
)
