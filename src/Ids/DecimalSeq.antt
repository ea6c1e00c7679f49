-- ===== src/Ids/DecimalSeq.antt =====
-- `DecimalSeq` of shared/include/chathub/contracts/ids.hpp, with the two functions of the standard
-- library that it calls, at the type `uint64_t` and base 10.
pub mod Digits
pub mod Canonical
use chat_hub.Prelude.{
  ℕ, zero, suc, ◌+◌, ◌-◌, ◌*◌, ◌/◌, ◌%◌, ◌^◌, List, [], ◌∷◌, ◌++◌, Bool, true, false, not, ◌||◌,
  ◌&&◌, ◌==◌, ltb, within, if◌then◌else◌, Bytes, length, get_or, Option, none, some,
}

-- `std::errc` as `std::from_chars` sets it.
pub data Errc : Type 0 where
  fine invalid_argument result_out_of_range : Errc

-- `std::from_chars_result`, with the place that `ptr` has reached and the parsed value.
pub record FromChars : Type 0 where
  pub ec : Errc
  pub ptr : ℕ
  pub parsed : ℕ

unfoldable pub is_digit : ℕ → Bool
is_digit c = within b'0' b'9' c

-- The longest run of digits at the front.
unfoldable pub digit_run : Bytes → Bytes
unfolding is_digit
digit_run [] = []
digit_run (c ∷ rest) = if is_digit c then c ∷ digit_run rest else []

-- The number that digits spell behind `n`.
unfoldable pub digits_value : ℕ → Bytes → ℕ
digits_value n [] = n
digits_value n (c ∷ rest) = digits_value (n * 10 + (c - b'0')) rest

-- `std::from_chars(text, text + size, parsed, 10)`: no digit, too large a value, or the value; in
-- the first two cases `parsed` stays 0.
unfoldable pub from_chars : Bytes → FromChars
unfolding digit_run digits_value
from_chars text =
    let run = digit_run text in
    if length run == 0
    then record { ec = invalid_argument; ptr = 0; parsed = 0 }
    else if ltb (digits_value 0 run) (2 ^ 64)
    then record { ec = fine; ptr = length run; parsed = digits_value 0 run }
    else record { ec = result_out_of_range; ptr = length run; parsed = 0 }

is_fine : Errc → Bool
is_fine fine = true
is_fine _ = false

pub record DecimalSeq (Tag : Type 0) : Type 0 where
  pub value : ℕ

pub data DeliverySeqTag : Type 0 where
  delivery_seq_tag : DeliverySeqTag

pub data ConversationSeqTag : Type 0 where
  conversation_seq_tag : ConversationSeqTag

abbrev pub DeliverySeq : Type 0
DeliverySeq = DecimalSeq DeliverySeqTag

abbrev pub ConversationSeq : Type 0
ConversationSeq = DecimalSeq ConversationSeqTag

-- `DecimalSeq::parse`.
unfoldable pub parse : {Tag : Type 0} → Bytes → Option (DecimalSeq Tag)
unfolding from_chars is_fine
parse text =
    let result = from_chars text in
    if length text == 0 || (ltb 1 (length text) && get_or text 0 0 == b'0')
    then none
    else if not (is_fine result.ec) || not (result.ptr == length text)
    then none
    else some (record { value = result.parsed })

abbrev pub of : {Tag : Type 0} → ℕ → DecimalSeq Tag
of value = record { value = value }

-- The digits of `n` in front of `out`, on fuel: one round for each digit.
unfoldable pub print : ℕ → ℕ → Bytes → Bytes
print zero n out = out
print (suc fuel) n out =
    let next = print fuel (n / 10) ((b'0' + n % 10) ∷ out) in
    if ltb n 10 then (b'0' + n) ∷ out else next

-- `std::to_string` of a `uint64_t`, which has twenty digits at most.
unfoldable pub to_string : ℕ → Bytes
to_string n = print 20 n []

unfoldable pub to_decimal_string : {Tag : Type 0} → DecimalSeq Tag → Bytes
unfolding to_string
to_decimal_string s = to_string s.value
