-- ===== src/Tests/Codec.antt =====
-- `decodeHelloRequest` over a JSON library that knows one text: the request of a client with two
-- capabilities.
use Prim.Native.String.{String}
use text.Mathlib.Text.{◌==◌ as str_eq}
use chat_hub.Prelude.{
  codes, true, false, ◌≡◌, ◌↔◌, refl, List, [], ◌∷◌, ◌==◌, if◌then◌else◌, Bytes, length, Option,
  none, some,
}
use chat_hub.Hello.{
  HelloRequest, text_less, emplace, insert, insert_each, of_values, capability_text_v1,
}
use chat_hub.Ids.Ascii.{to_lower_ascii}
use chat_hub.Ids.UuidId.{
  RequestId, no_id, parse, is_uuid, uuid_chars, is_hex, is_dash_index, is_variant,
}
use chat_hub.Outcome.{ok, all_snake, is_snake_case_code, failed, require, and_then}
use chat_hub.Codec.{
  JsonLibrary, limited, kind_of, read_capabilities, at_most_16, capability_list, text_field,
  invalid_json,
}
use chat_hub.ServerCodec.{decode_fields, decode_data, decode_id, decode_root, decode_hello_request}
use chat_hub.ServerCodec.Accepts.{HasRoot, HasId, HasData, decode_hello_request_iff}

data Value : Type 0 where
  a_text : Bytes → Value
  many_texts : List Bytes → Value
  root_value fields_value : Value

data Object : Type 0 where
  root_object fields_object : Object

abbrev request_id : Bytes
request_id = codes "6ba7b810-9dad-41d1-80b4-00c04fd430c8"

abbrev version : Bytes
version = codes "1.0"

abbrev windows : Bytes
windows = codes "win"

abbrev voice_v1 : Bytes
voice_v1 = codes "voice"

-- The text that the library knows.
abbrev braces : Bytes
braces = b'{' ∷ b'}' ∷ []

abbrev parse_known : Bytes → Option Value
parse_known s = if length s == 2 then some root_value else none

abbrev object_of : Value → Option Object
object_of root_value = some root_object
object_of fields_value = some fields_object
object_of (a_text t) = none
object_of (many_texts t) = none

abbrev string_of : Value → Option Bytes
string_of (a_text t) = some t
string_of (many_texts t) = none
string_of root_value = none
string_of fields_value = none

abbrev values_of : List Bytes → List Value
values_of [] = []
values_of (t ∷ rest) = a_text t ∷ values_of rest

abbrev array_of : Value → Option (List Value)
array_of (many_texts t) = some (values_of t)
array_of (a_text t) = none
array_of root_value = none
array_of fields_value = none

abbrev find_key : Object → String → Option Value
find_key root_object key =
    if str_eq key "request_id"
    then some (a_text request_id)
    else if str_eq key "data"
    then some fields_value
    else none
find_key fields_object key =
    if str_eq key "client_version"
    then some (a_text version)
    else if str_eq key "platform"
    then some (a_text windows)
    else if str_eq key "capabilities"
    then some (many_texts (voice_v1 ∷ capability_text_v1 ∷ voice_v1 ∷ []))
    else none

abbrev library : JsonLibrary Value Object
library = record {
  parse = parse_known;
  as_object = object_of;
  as_string = string_of;
  as_array = array_of;
  find = find_key;
}

abbrev hello_sent : HelloRequest
hello_sent = record {
  client_version = version;
  platform = windows;
  capabilities = of_values (capability_text_v1 ∷ voice_v1 ∷ []);
}

abbrev decoded_id : RequestId
decoded_id = record { value = request_id }

snake_case :
    (is_snake_case_code (codes "a_1") ≡ true)
    × (is_snake_case_code (codes "a_") ≡ false)
    × (is_snake_case_code (codes "A") ≡ false)
    × (is_snake_case_code [] ≡ false)
unfolding is_snake_case_code all_snake
snake_case = (refl, refl, refl, refl)

decoded : decode_hello_request library braces no_id ≡ (ok hello_sent, decoded_id)
unfolding decode_hello_request decode_root decode_id decode_data decode_fields text_field
    capability_list at_most_16 read_capabilities kind_of limited require and_then of_values
    insert_each insert emplace text_less parse is_uuid uuid_chars is_hex is_dash_index is_variant
    to_lower_ascii
decoded = refl

no_json :
    decode_hello_request library [] no_id ≡ (failed (invalid_json "hello_request 非合法 JSON"), no_id)
unfolding decode_hello_request decode_root require and_then
no_json = refl

decode_hello_request_iff_example :
    (decode_hello_request library braces no_id ≡ (ok hello_sent, decoded_id)) ↔ (
      (root : Object) × HasRoot library braces root
      × HasId library root decoded_id
      × HasData library root hello_sent)
decode_hello_request_iff_example =
    decode_hello_request_iff library braces no_id decoded_id hello_sent
