-- ===== src/Exchange/Texts.antt =====
-- Texts on their way: capabilities, and UUIDs, which are ASCII.
use chat_hub.Prelude.{
  ℕ, ◌+◌, ◌≡◌, refl, ap, ◌∙◌, true, arith, List, [], ◌∷◌, map, All, Bytes, length, some,
}
use chat_hub.Codec.{JsonLibrary}
use chat_hub.Codec.Fields.{AreTexts}
use chat_hub.Exchange.{Views, KeepsUtf8, IsField}
use chat_hub.Hello.{CapabilitySet, contains, of_values}
use chat_hub.Hello.Sets.{Built, built_of, Built-unique, contains-of_values}
use chat_hub.Ids.UuidId.{UuidId, is_hex, uuid_chars, is_uuid, parse}
use chat_hub.Json.{Json, texts, each_item}
use chat_hub.Utf8.{is_valid_utf8}
use chat_hub.Utf8.Ascii.{IsAscii, ascii_valid}

uuid_chars-IsAscii : (i : ℕ) (s : Bytes) → uuid_chars i s ≡ true → IsAscii s
unfolding uuid_chars is_hex
uuid_chars-IsAscii i [] h = tt
uuid_chars-IsAscii i (c ∷ s) h = (ground arith, uuid_chars-IsAscii (i + 1) s (ground arith))

is_uuid-chars : (s : Bytes) → is_uuid s ≡ true → uuid_chars 0 s ≡ true
unfolding is_uuid
is_uuid-chars s h = ground arith

parse-is_uuid : {Tag : Type 0} (s : Bytes) (id : UuidId Tag) → parse s ≡ some id → is_uuid s ≡ true
unfolding parse
parse-is_uuid s id h = ground arith

-- An accepted UUID is valid UTF-8.
pub parse-is_valid_utf8 :
    {Tag : Type 0} (s : Bytes) (id : UuidId Tag) → parse s ≡ some id → is_valid_utf8 s ≡ true
parse-is_valid_utf8 s id h =
    ascii_valid s (uuid_chars-IsAscii 0 s (is_uuid-chars s (parse-is_uuid s id h)))

-- Texts of valid UTF-8 pass through `QString` unchanged.
pub map_keeps :
    (from : Bytes → Bytes) (limit : ℕ) (ts : List Bytes)
    → KeepsUtf8 from
    → All (IsField limit) ts
    → map from ts ≡ ts
map_keeps from limit [] keeps h = refl
map_keeps from limit (t ∷ ts) keeps h = λ i. keeps t h.0.1 i ∷ map_keeps from limit ts keeps h.1 i

-- The capabilities of an array as they were written.
pub AreTexts-texts :
    {Value Object : Type 0} {json : JsonLibrary Value Object} (views : Views json) (ts : List Bytes)
    → All (IsField 64) ts
    → AreTexts json (each_item views.view (texts ts)) ts
unfolding texts each_item
AreTexts-texts views [] h = tt
AreTexts-texts views (t ∷ ts) h = (views.of_string t, h.0.0, AreTexts-texts views ts h.1)

pub length-texts :
    {Value : Type 0} (view : Json → Value) (ts : List Bytes)
    → length (each_item view (texts ts)) ≡ length ts
unfolding texts each_item
length-texts view [] = refl
length-texts view (t ∷ ts) = ap ℕ.suc (length-texts view ts)

-- Inserting the texts of a set one by one builds the set again.
pub of_values-value : (set : CapabilitySet) → Built set → of_values set.value ≡ set
of_values-value set built =
    Built-unique (of_values set.value) set (built_of set.value) built
      (λ w. contains-of_values set.value w ∙ unfold contains in refl)
