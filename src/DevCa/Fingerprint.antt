-- ===== src/DevCa/Fingerprint.antt =====
-- The text of `fingerPrint`: what the hexadecimal of a digest is, without the table of the code.
use chat_hub.Prelude.{
  ℕ, ◌+◌, ◌/◌, ◌%◌, ◌<◌, ◌≤◌, ◌≡◌, ◌⊎◌, refl, subst, [], ◌∷◌, Bool, true, ◌==◌, ◌||◌, ◌&&◌, ltb,
  leb, Bytes, IsByte, All, arith, sym,
}
use chat_hub.Prelude.Bits.{bit_and_15, every_below, every_below_at}
use chat_hub.DevCa.{hex_digit, hex_of}

-- The character of a number below 16.
abbrev pub IsHexDigit : ℕ → ℕ → Type 0
IsHexDigit n c = ((n < 10) × (c ≡ b'0' + n)) ⊎ ((10 ≤ n) × (n < 16) × (c + 10 ≡ b'a' + n))

-- Two characters for each byte, the one of the upper half first.
pub data IsHexOf : Bytes → Bytes → Type 0 where
  no_bytes : IsHexOf [] []
  byte :
      {b high low : ℕ} {md text : Bytes}
      → IsHexDigit (b / 16) high
      → IsHexDigit (b % 16) low
      → IsHexOf md text
      → IsHexOf (b ∷ md) (high ∷ low ∷ text)

is_digit_of : ℕ → ℕ → Bool
is_digit_of n c = (ltb n 10 && (c == b'0' + n)) || (leb 10 n && (c + 10 == b'a' + n))

hex_digit-test : (n : ℕ) → n < 16 → is_digit_of n (hex_digit n) ≡ true
unfolding every_below is_digit_of hex_digit
hex_digit-test n h = every_below_at (λ k. is_digit_of k (hex_digit k)) 16 n h refl

hex_digit-IsHexDigit : (n : ℕ) → n < 16 → IsHexDigit n (hex_digit n)
unfolding is_digit_of
hex_digit-IsHexDigit n h = let t = hex_digit-test n h in ground arith

pub hex_of-IsHexOf : (md : Bytes) → All IsByte md → IsHexOf md (hex_of md)
unfolding hex_of
hex_of-IsHexOf [] small = IsHexOf.no_bytes
hex_of-IsHexOf (b ∷ md) (small, rest) =
    IsHexOf.byte (hex_digit-IsHexDigit (b / 16) (omega arith))
      (subst (λ n. IsHexDigit (b % 16) (hex_digit n)) (sym (bit_and_15 b))
        (hex_digit-IsHexDigit (b % 16) (omega arith)))
      (hex_of-IsHexOf md rest)
