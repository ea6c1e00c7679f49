-- ===== src/Utf8/Scalars.antt =====
-- The Unicode scalar values and their encoding form UTF-8, as RFC 3629 has them.
use chat_hub.Prelude.{
  ℕ, ◌+◌, ◌/◌, ◌%◌, ◌≤◌, ◌<◌, ◌⊎◌, List, [], ◌∷◌, ◌++◌, ltb, if◌then◌else◌, Bytes,
}

-- A code point that is no surrogate.
abbrev pub IsScalar : ℕ → Type 0
IsScalar u = (u < 0xd800) ⊎ ((0xe000 ≤ u) × (u ≤ 0x10ffff))

-- The byte sequence of one scalar value, in the shortest form.
unfoldable pub encode_scalar : ℕ → Bytes
encode_scalar u =
    if ltb u 0x80
    then u ∷ []
    else if ltb u 0x800
    then (0xc0 + u / 64) ∷ (0x80 + u % 64) ∷ []
    else if ltb u 0x10000
    then (0xe0 + u / 4096) ∷ (0x80 + u / 64 % 64) ∷ (0x80 + u % 64) ∷ []
    else (0xf0 + u / 262144) ∷ (0x80 + u / 4096 % 64) ∷ (0x80 + u / 64 % 64) ∷ (0x80 + u % 64) ∷ []

unfoldable pub encode : List ℕ → Bytes
encode [] = []
encode (u ∷ us) = encode_scalar u ++ encode us
