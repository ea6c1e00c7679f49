-- ===== src/Codec.antt =====
-- What the two codecs of the hello exchange, chat-server/src/hello_codec.cpp and
-- client-qt/src/hello_codec.cpp, do alike: their errors and the tests of a text field and of the
-- capabilities. The JSON libraries, Boost.JSON and Qt's, are parameters.
pub mod Fields
pub mod Failures
pub mod Refusals
use Prim.Native.String.{String}
use chat_hub.Prelude.{
  ℕ, List, [], ◌∷◌, Bool, true, false, ◌||◌, ◌==◌, ltb, if◌then◌else◌, Bytes, length, Option, none,
  some,
}
use chat_hub.Hello.{
  CapabilitySet, no_capabilities, insert, max_capability_value_bytes, max_capability_count,
}
use chat_hub.Outcome.{Error, Outcome, require, and_then}

-- What a decoder calls of the JSON library: each accessor is `none` on a value of another kind,
-- `find` on a missing key, and `parse` on a text that is no JSON.
pub record JsonLibrary (Value Object : Type 0) : Type 0 where
  pub parse : Bytes → Option Value
  pub as_object : Value → Option Object
  pub as_string : Value → Option Bytes
  pub as_array : Value → Option (List Value)
  pub find : Object → String → Option Value

-- `kInvalidJson`, `kInvalidRequestId` and `kInvalidRequest`.
abbrev pub invalid_json_code : String
invalid_json_code = "invalid_json"

abbrev pub invalid_request_id_code : String
invalid_request_id_code = "invalid_request_id"

abbrev pub invalid_request_code : String
invalid_request_code = "invalid_request"

abbrev pub invalid_json : String → Error
invalid_json detail = record { code = invalid_json_code; detail = detail }

abbrev pub invalid_request_id : String → Error
invalid_request_id detail = record { code = invalid_request_id_code; detail = detail }

abbrev pub invalid_request : String → Error
invalid_request detail = record { code = invalid_request_code; detail = detail }

-- A text that is not empty and has at most `limit` bytes.
unfoldable pub limited : ℕ → String → Bytes → Outcome Bytes
limited limit detail text =
    if length text == 0 || ltb limit (length text)
    then Outcome.failed (invalid_request detail)
    else Outcome.ok text

-- A lookup and a test of the kind of value that it finds.
unfoldable pub kind_of : {A B : Type 0} → (A → Option B) → Option A → Option B
kind_of kind none = none
kind_of kind (some v) = kind v

module _ {Value Object : Type 0} (json : JsonLibrary Value Object) where
  abbrev pub string_at : Object → String → Option Bytes
  string_at object key = kind_of json.as_string (json.find object key)

  abbrev pub object_at : Object → String → Option Object
  object_at object key = kind_of json.as_object (json.find object key)

  abbrev pub array_at : Object → String → Option (List Value)
  array_at object key = kind_of json.as_array (json.find object key)

  -- The loop over the capabilities.
  unfoldable pub read_capabilities : List Value → CapabilitySet → Outcome CapabilitySet
  read_capabilities [] set = Outcome.ok set
  read_capabilities (item ∷ items) set =
      and_then (require (invalid_request "capability 非字符串") (json.as_string item)) (λ text.
        and_then (limited max_capability_value_bytes "capability 长度非法" text)
          (λ text. read_capabilities items (insert set text)))

  unfoldable pub at_most_16 : List Value → Outcome (List Value)
  at_most_16 items =
      if ltb max_capability_count (length items)
      then Outcome.failed (invalid_request "capabilities 数量超限")
      else Outcome.ok items

  -- The lookup of `capabilities` and its tests.
  unfoldable pub capability_list : Object → Outcome CapabilitySet
  capability_list fields =
      and_then (require (invalid_request "capabilities 缺失或非数组") (array_at fields "capabilities"))
        (λ items. and_then (at_most_16 items) (λ items. read_capabilities items no_capabilities))

  -- The lookup of a string and the tests of its length.
  unfoldable pub text_field : ℕ → String → String → String → Object → Outcome Bytes
  text_field limit key missing bad_length fields =
      and_then (require (invalid_request missing) (string_at fields key)) (limited limit bad_length)
