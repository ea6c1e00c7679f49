-- ===== src/Ids/UuidId.antt =====
-- `detail::isUuid` and `UuidId` of shared/include/chathub/contracts/ids.hpp.
mod Chars
mod Cut
pub mod Shape
use chat_hub.Prelude.{
  ℕ, ◌+◌, List, [], ◌∷◌, Bool, true, false, not, ◌||◌, ◌&&◌, ◌==◌, within, if◌then◌else◌, Bytes,
  length, get_or, Option, none, some,
}
use chat_hub.Ids.Ascii.{to_lower_ascii}

-- `i == 8 || i == 13 || i == 18 || i == 23`.
unfoldable pub is_dash_index : ℕ → Bool
is_dash_index i = i == 8 || i == 13 || i == 18 || i == 23

unfoldable pub is_hex : ℕ → Bool
is_hex c = within b'0' b'9' c || within b'a' b'f' c

-- The loop from index `i` on, over the characters from there.
unfoldable pub uuid_chars : ℕ → Bytes → Bool
uuid_chars i [] = true
uuid_chars i (c ∷ rest) =
    let next = uuid_chars (i + 1) rest in
    if is_dash_index i
    then (if not (c == b'-') then false else next)
    else if not (is_hex c)
    then false
    else next

-- The test on `id[19]`.
unfoldable pub is_variant : ℕ → Bool
is_variant c = c == b'8' || c == b'9' || c == b'a' || c == b'b'

unfoldable pub is_uuid : Bytes → Bool
is_uuid id =
    if not (length id == 36)
    then false
    else if not (uuid_chars 0 id)
    then false
    else if not (get_or id 14 0 == b'4')
    then false
    else is_variant (get_or id 19 0)

-- The tag is only in the type: it tells identities of different kinds apart.
pub record UuidId (Tag : Type 0) : Type 0 where
  pub value : Bytes

pub data MessageIdTag : Type 0 where
  message_id_tag : MessageIdTag

pub data LocalMessageIdTag : Type 0 where
  local_message_id_tag : LocalMessageIdTag

pub data RequestIdTag : Type 0 where
  request_id_tag : RequestIdTag

abbrev pub MessageId : Type 0
MessageId = UuidId MessageIdTag

abbrev pub LocalMessageId : Type 0
LocalMessageId = UuidId LocalMessageIdTag

abbrev pub RequestId : Type 0
RequestId = UuidId RequestIdTag

-- `UuidId()`: the empty text.
abbrev pub no_id : {Tag : Type 0} → UuidId Tag
no_id = record { value = [] }

unfoldable pub parse : {Tag : Type 0} → Bytes → Option (UuidId Tag)
parse id = if not (is_uuid id) then none else some (record { value = to_lower_ascii id })
