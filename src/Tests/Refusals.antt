-- ===== src/Tests/Refusals.antt =====
-- Texts that the two decoders refuse, over the libraries of Tests/Exchange.antt.
use chat_hub.Prelude.{◌≡◌, ◌↔◌, refl, true, Bytes, codes, inl}
use chat_hub.ClientCodec.{
  decode_response_id, decode_response_root, parse_document, decode_hello_response,
}
use chat_hub.ClientCodec.Failures.{ResponseRefused, decode_hello_response_fails_iff}
use chat_hub.Codec.{kind_of}
use chat_hub.Codec.Refusals.{IsFailure}
use chat_hub.Exchange.ErrorCodes.{decoders_fail-is_snake_case_code}
use chat_hub.Ids.UuidId.{no_id}
use chat_hub.Json.{no_fields, lookup}
use chat_hub.Outcome.{is_snake_case_code, require, and_then}
use chat_hub.ServerCodec.{decode_id, decode_root, decode_hello_request}
use chat_hub.ServerCodec.Failures.{Refused, decode_hello_request_fails_iff}
use chat_hub.Tests.Exchange.{reader, qt_reader}

-- The text of an object without fields.
abbrev empty_object : Bytes
empty_object = codes "{}"

empty_request :
    IsFailure
      (decode_hello_request (reader no_fields) empty_object no_id)
      "invalid_request_id"
      no_id
unfolding decode_hello_request decode_root decode_id kind_of require and_then lookup
empty_request = ("request_id 缺失或非字符串", refl)

empty_response :
    IsFailure
      (decode_hello_response (qt_reader no_fields) empty_object no_id)
      "invalid_request_id"
      no_id
unfolding decode_hello_response decode_response_root parse_document decode_response_id kind_of
    require and_then lookup
empty_response = ("request_id 缺失或非字符串", refl)

decode_hello_request_fails_iff_example :
    IsFailure
      (decode_hello_request (reader no_fields) empty_object no_id)
      "invalid_request_id"
      no_id
    ↔ Refused (reader no_fields) empty_object no_id "invalid_request_id" no_id
decode_hello_request_fails_iff_example =
    decode_hello_request_fails_iff (reader no_fields) empty_object no_id "invalid_request_id" no_id

decode_hello_response_fails_iff_example :
    IsFailure
      (decode_hello_response (qt_reader no_fields) empty_object no_id)
      "invalid_request_id"
      no_id
    ↔ ResponseRefused (qt_reader no_fields) empty_object no_id "invalid_request_id" no_id
decode_hello_response_fails_iff_example =
    decode_hello_response_fails_iff (qt_reader no_fields) empty_object no_id "invalid_request_id"
      no_id

decoders_fail-is_snake_case_code_example : is_snake_case_code (codes "invalid_request_id") ≡ true
decoders_fail-is_snake_case_code_example =
    decoders_fail-is_snake_case_code (reader no_fields) (qt_reader no_fields) empty_object no_id
      "invalid_request_id" no_id (inl empty_request)
