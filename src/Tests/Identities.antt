-- ===== src/Tests/Identities.antt =====
-- Account names, UUIDs and decimal sequence numbers.
use chat_hub.Prelude.{codes, ◌^◌, ◌<◌, ◌≡◌, refl, ◌↔◌, Bytes, none, some}
use chat_hub.Ids.AccountName.{AccountName, IsName, account_parse_iff}
use chat_hub.Ids.AccountName.{parse as parse_account, is_account_name}
use chat_hub.Ids.Ascii.{SameUpToCase, AreLowered, to_lower_ascii, is_alnum}
use chat_hub.Ids.DecimalSeq.{DeliverySeqTag, DeliverySeq, of, to_decimal_string}
use chat_hub.Ids.DecimalSeq.{parse as parse_decimal}
use chat_hub.Ids.DecimalSeq.Canonical.{decimal_parse_iff}
use chat_hub.Ids.UuidId.{MessageId, is_uuid, uuid_chars, is_hex, is_dash_index, is_variant}
use chat_hub.Ids.UuidId.{parse as parse_uuid}
use chat_hub.Ids.UuidId.Shape.{IsUuid4, uuid_parse_iff}

abbrev alice_text : Bytes
alice_text = codes "Alice1"

abbrev shouted : Bytes
shouted = codes "aLICE1"

abbrev alice : AccountName
alice = record { value = codes "alice1" }

alice_parsed : parse_account alice_text ≡ some alice
unfolding parse_account is_account_name is_alnum to_lower_ascii
alice_parsed = refl

alice_case : SameUpToCase alice_text shouted
unfolding to_lower_ascii
alice_case = refl

account_parse_iff_example :
    (parse_account alice_text ≡ some alice)
    ↔ (IsName alice_text × AreLowered alice_text alice.value)
account_parse_iff_example = account_parse_iff alice_text alice

abbrev uuid : Bytes
uuid = codes "6ba7b810-9dad-41d1-80b4-00c04fd430c8"

abbrev message_id : MessageId
message_id = record { value = uuid }

uuid_parsed : parse_uuid uuid ≡ some message_id
unfolding parse_uuid is_uuid uuid_chars is_hex is_dash_index is_variant to_lower_ascii
uuid_parsed = refl

uuid_parse_iff_example : (parse_uuid uuid ≡ some message_id) ↔ (IsUuid4 uuid × (uuid ≡ uuid))
uuid_parse_iff_example = uuid_parse_iff uuid message_id

leading_zero : parse_decimal {Tag = DeliverySeqTag} (codes "042") ≡ none
unfolding parse_decimal
leading_zero = refl

too_large : parse_decimal {Tag = DeliverySeqTag} (codes "18446744073709551616") ≡ none
unfolding parse_decimal
too_large = refl

abbrev delivered : DeliverySeq
delivered = of 420

decimal_parse_iff_example :
    (parse_decimal (codes "420") ≡ some delivered)
    ↔ ((420 < 2 ^ 64) × (to_decimal_string delivered ≡ codes "420"))
decimal_parse_iff_example = decimal_parse_iff (codes "420") delivered
