-- ===== src/Utf8/Rounds.antt =====
-- One round of the loop of `isValidUtf8`, for a sequence of each length.
use chat_hub.Prelude.{
  ℕ, suc, ◌<◌, ◌≡◌, refl, ◌∷◌, Bool, true, false, ◌&&◌, ◌==◌, leb, ltb, within, if◌then◌else◌,
  arith, Bytes, length, bit_and,
}
use chat_hub.Prelude.Bits.{every_below, every_below_at}
use chat_hub.Utf8.{sequence_length, continuations, second_allowed, utf8_loop}

abbrev as_number : Bool → ℕ
as_number b = if b then 1 else 0

as_number-injective : (a b : Bool) → (as_number a == as_number b) ≡ true → a ≡ b
as_number-injective a b h = ground arith

-- The mask test is a range test.
mask_table :
    every_below (λ b. as_number (bit_and b 0xc0 == 0x80) == as_number (within 0x80 0xbf b)) 256
    ≡ true
unfolding every_below
mask_table = refl

pub mask-within : (b : ℕ) → b < 256 → (bit_and b 0xc0 == 0x80) ≡ within 0x80 0xbf b
mask-within b h = as_number-injective (bit_and b 0xc0 == 0x80) (within 0x80 0xbf b) (
    every_below_at (λ b. as_number (bit_and b 0xc0 == 0x80) == as_number (within 0x80 0xbf b)) 256 b
      h mask_table)

abbrev pub is_continuation : ℕ → Bool
is_continuation b = bit_and b 0xc0 == 0x80

-- One round of the loop on a sequence of each length, the first byte's tests aside.
module _ (fuel : ℕ) (c : ℕ) (tail : Bytes) where
  pub round_one : leb c 0x7f ≡ true → utf8_loop (suc fuel) (c ∷ tail) ≡ utf8_loop fuel tail
  unfolding utf8_loop
  round_one h = rw h

  module _ (multi : leb c 0x7f ≡ false) where
    pub round_none : sequence_length c ≡ 0 → utf8_loop (suc fuel) (c ∷ tail) ≡ false
    unfolding utf8_loop
    round_none h = rw (multi, h)

    pub round_two :
        (b : ℕ)
        → sequence_length c ≡ 2
        → utf8_loop (suc fuel) (c ∷ b ∷ tail)
          ≡ (is_continuation b && second_allowed c b && utf8_loop fuel tail)
    unfolding utf8_loop continuations
    round_two b h = rw (multi, h) (ground arith)

    pub round_three :
        (b b' : ℕ)
        → sequence_length c ≡ 3
        → utf8_loop (suc fuel) (c ∷ b ∷ b' ∷ tail)
          ≡ (is_continuation b && is_continuation b' && second_allowed c b && utf8_loop fuel tail)
    unfolding utf8_loop continuations
    round_three b b' h = rw (multi, h) (ground arith)

    pub round_four :
        (b b' b'' : ℕ)
        → sequence_length c ≡ 4
        → utf8_loop (suc fuel) (c ∷ b ∷ b' ∷ b'' ∷ tail) ≡ (
            is_continuation b
            && is_continuation b'
            && is_continuation b''
            && second_allowed c b
            && utf8_loop fuel tail)
    unfolding utf8_loop continuations
    round_four b b' b'' h = rw (multi, h) (ground arith)

    pub round_short :
        ltb (length (c ∷ tail)) (sequence_length c) ≡ true → utf8_loop (suc fuel) (c ∷ tail) ≡ false
    unfolding utf8_loop
    round_short h = ground arith
