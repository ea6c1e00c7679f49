-- ===== src/Utf8/Decodes.antt =====
-- What the loop of `isValidUtf8` has read in a round that goes on: the encoding of a scalar value.
use chat_hub.Prelude.{
  ℕ, suc, ◌+◌, ◌-◌, ◌*◌, ◌≤◌, ◌<◌, ◌≡◌, sym, ◌∙◌, ◌⊎◌, inl, inr, [], ◌∷◌, ◌++◌, true, false, ◌&&◌,
  leb, arith, Bytes, IsByte, All, length, Bool-cases,
}
use chat_hub.Utf8.{sequence_length, second_allowed, utf8_loop}
use chat_hub.Utf8.Rounds.{
  mask-within, is_continuation, round_one, round_none, round_two, round_three, round_four,
  round_short,
}
use chat_hub.Utf8.Scalars.{IsScalar, encode_scalar}

continuation_bits : (b : ℕ) → b < 256 → is_continuation b ≡ true → (0x80 ≤ b) × (b ≤ 0xbf)
continuation_bits b h e = ground (arith, mask-within b h)

-- A scalar value whose encoding starts the text, with the rest of the text.
abbrev pub StartsScalar : ℕ → Bytes → Type 0
StartsScalar fuel text =
    (u : ℕ) × (tail : Bytes) × IsScalar u
    × (text ≡ encode_scalar u ++ tail)
    × (utf8_loop fuel tail ≡ true)

module _ (fuel c : ℕ) (multi : leb c 0x7f ≡ false) where
  read_two :
      (b : ℕ) (tail : Bytes)
      → sequence_length c ≡ 2
      → b < 256
      → utf8_loop (suc fuel) (c ∷ b ∷ tail) ≡ true
      → StartsScalar fuel (c ∷ b ∷ tail)
  unfolding sequence_length encode_scalar
  read_two b tail n hb h =
      let tests : (is_continuation b && second_allowed c b && utf8_loop fuel tail) ≡ true =
        sym (round_two fuel c tail multi b n) ∙ h in
      let bits = continuation_bits b hb (ground arith) in
      ((c - 0xc0) * 64 + (b - 0x80), tail, inl (ground arith), ground arith, ground arith)

  read_three :
      (b b' : ℕ) (tail : Bytes)
      → sequence_length c ≡ 3
      → b < 256
      → b' < 256
      → utf8_loop (suc fuel) (c ∷ b ∷ b' ∷ tail) ≡ true
      → StartsScalar fuel (c ∷ b ∷ b' ∷ tail)
  unfolding sequence_length second_allowed encode_scalar
  read_three b b' tail n hb hb' h =
      let tests : (is_continuation b
            && is_continuation b'
            && second_allowed c b
            && utf8_loop fuel tail)
          ≡ true =
        sym (round_three fuel c tail multi b b' n) ∙ h in
      let bits = continuation_bits b hb (ground arith) in
      let bits' = continuation_bits b' hb' (ground arith) in
      (
        (c - 0xe0) * 4096 + (b - 0x80) * 64 + (b' - 0x80),
        tail,
        ground arith,
        ground arith,
        ground arith,
      )

  read_four :
      (b b' b'' : ℕ) (tail : Bytes)
      → sequence_length c ≡ 4
      → b < 256
      → b' < 256
      → b'' < 256
      → utf8_loop (suc fuel) (c ∷ b ∷ b' ∷ b'' ∷ tail) ≡ true
      → StartsScalar fuel (c ∷ b ∷ b' ∷ b'' ∷ tail)
  unfolding sequence_length second_allowed encode_scalar
  read_four b b' b'' tail n hb hb' hb'' h =
      let tests : (is_continuation b
            && is_continuation b'
            && is_continuation b''
            && second_allowed c b
            && utf8_loop fuel tail)
          ≡ true =
        sym (round_four fuel c tail multi b b' b'' n) ∙ h in
      let bits = continuation_bits b hb (ground arith) in
      let bits' = continuation_bits b' hb' (ground arith) in
      let bits'' = continuation_bits b'' hb'' (ground arith) in
      (
        (c - 0xf0) * 262144 + (b - 0x80) * 4096 + (b' - 0x80) * 64 + (b'' - 0x80),
        tail,
        inr (ground arith, ground arith),
        ground arith,
        ground arith,
      )

  -- A text that ends within the sequence is refused.
  cut_off :
      (rest : Bytes)
      → length (c ∷ rest) < sequence_length c
      → utf8_loop (suc fuel) (c ∷ rest) ≡ true
      → StartsScalar fuel (c ∷ rest)
  cut_off rest short h = cc (round_short fuel c rest multi (ground arith), h)

  read_length_two :
      (rest : Bytes)
      → sequence_length c ≡ 2
      → All IsByte rest
      → utf8_loop (suc fuel) (c ∷ rest) ≡ true
      → StartsScalar fuel (c ∷ rest)
  read_length_two [] n bytes h = cut_off [] (omega arith) h
  read_length_two (b ∷ tail) n bytes h = read_two b tail n bytes.0 h

  read_length_three :
      (rest : Bytes)
      → sequence_length c ≡ 3
      → All IsByte rest
      → utf8_loop (suc fuel) (c ∷ rest) ≡ true
      → StartsScalar fuel (c ∷ rest)
  read_length_three [] n bytes h = cut_off [] (omega arith) h
  read_length_three (b ∷ []) n bytes h = cut_off (b ∷ []) (omega arith) h
  read_length_three (b ∷ b' ∷ tail) n bytes h = read_three b b' tail n bytes.0 bytes.1.0 h

  read_length_four :
      (rest : Bytes)
      → sequence_length c ≡ 4
      → All IsByte rest
      → utf8_loop (suc fuel) (c ∷ rest) ≡ true
      → StartsScalar fuel (c ∷ rest)
  read_length_four [] n bytes h = cut_off [] (omega arith) h
  read_length_four (b ∷ []) n bytes h = cut_off (b ∷ []) (omega arith) h
  read_length_four (b ∷ b' ∷ []) n bytes h = cut_off (b ∷ b' ∷ []) (omega arith) h
  read_length_four (b ∷ b' ∷ b'' ∷ tail) n bytes h =
      read_four b b' b'' tail n bytes.0 bytes.1.0 bytes.1.1.0 h

sequence_length_cases :
    (c : ℕ)
    → (sequence_length c ≡ 0)
      ⊎ ((sequence_length c ≡ 2) ⊎ ((sequence_length c ≡ 3) ⊎ (sequence_length c ≡ 4)))
unfolding sequence_length
sequence_length_cases c = ground arith

read_one :
    (fuel c : ℕ) (rest : Bytes)
    → leb c 0x7f ≡ true
    → utf8_loop (suc fuel) (c ∷ rest) ≡ true
    → StartsScalar fuel (c ∷ rest)
unfolding encode_scalar
read_one fuel c rest one h =
    (c, rest, inl (ground arith), ground arith, sym (round_one fuel c rest one) ∙ h)

-- A round that does not refuse the text has read the encoding of a scalar value.
pub read_sequence :
    (fuel c : ℕ) (rest : Bytes)
    → All IsByte rest
    → utf8_loop (suc fuel) (c ∷ rest) ≡ true
    → StartsScalar fuel (c ∷ rest)
read_sequence fuel c rest bytes h = elim (Bool-cases (leb c 0x7f)) [
  | inl one ↦ read_one fuel c rest one h
  | inr multi ↦ elim (sequence_length_cases c) [
    | inl n ↦ cc (round_none fuel c rest multi n, h)
    | inr (inl n) ↦ read_length_two fuel c multi rest n bytes h
    | inr (inr (inl n)) ↦ read_length_three fuel c multi rest n bytes h
    | inr (inr (inr n)) ↦ read_length_four fuel c multi rest n bytes h
  ]
]
