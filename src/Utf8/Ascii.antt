-- ===== src/Utf8/Ascii.antt =====
-- ASCII is valid UTF-8.
use chat_hub.Prelude.{◌≡◌, refl, true, [], ◌∷◌, leb, All, Bytes, length}
use chat_hub.Utf8.{utf8_loop, is_valid_utf8}

abbrev pub IsAscii : Bytes → Type 0
IsAscii = All (λ c. leb c 0x7f ≡ true)

ascii_loop : (s : Bytes) → IsAscii s → utf8_loop (length s) s ≡ true
unfolding utf8_loop
ascii_loop [] h = refl
ascii_loop (c ∷ s) h = rw h.0 (ascii_loop s h.1)

pub ascii_valid : (s : Bytes) → IsAscii s → is_valid_utf8 s ≡ true
unfolding is_valid_utf8
ascii_valid s h = ascii_loop s h
