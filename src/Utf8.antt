-- ===== src/Utf8.antt =====
-- `isValidUtf8` of shared/include/chathub/contracts/frame.hpp.
pub mod Scalars
mod Rounds
mod Decodes
pub mod Accepts
pub mod Ascii
use chat_hub.Prelude.{
  ℕ, zero, suc, ◌+◌, ◌-◌, List, [], ◌∷◌, Bool, true, false, not, ◌&&◌, ◌||◌, ◌==◌, leb, ltb, within,
  if◌then◌else◌, Bytes, length, get_or, drop, bit_and,
}

-- The length that the first byte of a sequence of several announces; 0 where the loop returns false.
unfoldable pub sequence_length : ℕ → ℕ
sequence_length c =
    if leb 0xc2 c && leb c 0xdf
    then 2
    else if leb 0xe0 c && leb c 0xef
    then 3
    else if leb 0xf0 c && leb c 0xf4
    then 4
    else 0

-- `(data[i + j] & 0xC0) != 0x80` fails for no j from 1 on; `rest` is what stands behind data[i],
-- and `count` is the number of rounds left.
unfoldable pub continuations : ℕ → Bytes → Bool
continuations zero rest = true
continuations (suc count) [] = false
continuations (suc count) (b ∷ rest) = bit_and b 0xc0 == 0x80 && continuations count rest

-- The four tests on the second byte: overlong forms, surrogates, values above U+10FFFF.
unfoldable pub second_allowed : ℕ → ℕ → Bool
second_allowed c second =
    not (c == 0xe0 && ltb second 0xa0)
    && not (c == 0xed && ltb 0x9f second)
    && not (c == 0xf0 && ltb second 0x90)
    && not (c == 0xf4 && ltb 0x8f second)

-- The `while` loop at the suffix that starts at `i`, on fuel.
pub utf8_loop : ℕ → Bytes → Bool
utf8_loop fuel [] = true
utf8_loop zero (c ∷ rest) = false
utf8_loop (suc fuel) (c ∷ rest) =
    let next = utf8_loop fuel rest in
    let count = sequence_length c in
    let beyond = utf8_loop fuel (drop (count - 1) rest) in
    if leb c 0x7f
    then next
    else if count == 0
    then false
    else if ltb (length (c ∷ rest)) count
    then false
    else if not (continuations (count - 1) rest)
    then false
    else if not (second_allowed c (get_or rest 0 0))
    then false
    else beyond

-- Each round takes a byte at least, so the length of the text is fuel enough.
unfoldable pub is_valid_utf8 : Bytes → Bool
unfolding utf8_loop sequence_length continuations second_allowed
is_valid_utf8 text = utf8_loop (length text) text
