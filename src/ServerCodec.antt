-- ===== src/ServerCodec.antt =====
-- chat-server/src/hello_codec.cpp: `decodeHelloRequest` and `encodeHelloResponse`. Boost.JSON is a
-- parameter.
pub mod Accepts
pub mod Failures
use Prim.Native.String.{String}
use chat_hub.Prelude.{
  ℕ, List, [], ◌∷◌, Bool, true, false, ltb, if◌then◌else◌, Bytes, length, Option, none, some, pos,
}
use chat_hub.Codec.{
  JsonLibrary, kind_of, string_at, object_at, array_at, invalid_json, invalid_request_id,
  invalid_request, text_field, capability_list,
}
use chat_hub.Json.{string, number, flag, array, object, Fields, no_fields, put, texts}
use chat_hub.Hello.{
  CapabilitySet, HelloRequest, HelloResponse, max_json_bytes, max_client_version_bytes,
  max_platform_bytes,
}
use chat_hub.Ids.UuidId.{RequestId, parse}
use chat_hub.Outcome.{Error, Outcome, require, and_then}

module _ {Value Object : Type 0} (json : JsonLibrary Value Object) where
  -- The fields of `data`.
  unfoldable pub decode_fields : Object → Outcome HelloRequest
  decode_fields fields =
      and_then
        (text_field json max_client_version_bytes "client_version" "client_version 缺失或非字符串"
          "client_version 长度非法" fields)
        (λ version.
          and_then
            (text_field json max_platform_bytes "platform" "platform 缺失或非字符串" "platform 长度非法"
              fields)
            (λ platform. and_then (capability_list json fields) (λ set.
              Outcome.ok
                (record { client_version = version; platform = platform; capabilities = set }))))

  -- The part behind the request id.
  unfoldable pub decode_data : Object → Outcome HelloRequest
  decode_data root =
      and_then (require (invalid_request "data 缺失或非对象") (object_at json root "data")) decode_fields

  -- The request id of the root object.
  unfoldable pub decode_id : Object → Outcome RequestId
  decode_id root =
      and_then
        (require (invalid_request_id "request_id 缺失或非字符串") (string_at json root "request_id"))
        (λ text. require (invalid_request_id "request_id 非合法 UUID") (parse text))

  -- The root object of the text.
  unfoldable pub decode_root : Bytes → Outcome Object
  decode_root text =
      if ltb max_json_bytes (length text)
      then Outcome.failed (invalid_request "正文超过 64 KiB")
      else and_then (require (invalid_json "hello_request 非合法 JSON") (json.parse text))
          (λ value. require (invalid_request "hello_request 根必须是对象") (json.as_object value))

  with_id : Object → RequestId → Outcome RequestId → Outcome HelloRequest × RequestId
  with_id root out_request_id (Outcome.failed e) = (Outcome.failed e, out_request_id)
  with_id root out_request_id (Outcome.ok id) = (decode_data root, id)

  with_root : RequestId → Outcome Object → Outcome HelloRequest × RequestId
  with_root out_request_id (Outcome.failed e) = (Outcome.failed e, out_request_id)
  with_root out_request_id (Outcome.ok root) = with_id root out_request_id (decode_id root)

  -- `decodeHelloRequest`, with what `out_request_id` holds behind the call.
  unfoldable pub decode_hello_request : Bytes → RequestId → Outcome HelloRequest × RequestId
  unfolding with_id with_root
  decode_hello_request text out_request_id = with_root out_request_id (decode_root text)

-- The object `data` of a response.
abbrev pub response_data : HelloResponse → Fields
response_data response = put "capabilities" (array (texts response.capabilities.value)) (
    put "timeout" (number (pos response.timeout)) (
      put "heartbeat_idle" (number (pos response.heartbeat_idle)) (
        put "max_text" (number (pos response.max_text)) (
          put "max_json" (number (pos response.max_json)) (
            put "server_time" (number response.server_time)
              (put "server_version" (string response.server_version) no_fields))))))

-- The object `root` of a response.
abbrev pub response_root : RequestId → HelloResponse → Fields
response_root request_id response =
    put "data" (object (response_data response))
      (put "ok" (flag true) (put "request_id" (string request_id.value) no_fields))

-- `encodeHelloResponse`, over `boost::json::serialize`.
unfoldable pub encode_hello_response : (Fields → Bytes) → RequestId → HelloResponse → Bytes
encode_hello_response serialize request_id response = serialize (response_root request_id response)
