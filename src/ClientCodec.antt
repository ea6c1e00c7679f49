-- ===== src/ClientCodec.antt =====
-- client-qt/src/hello_codec.cpp: `encodeHelloRequest` and `decodeHelloResponse`. Qt's JSON classes
-- are a parameter. A `QString` is represented by what its `toStdString` returns.
pub mod Parameters
pub mod Accepts
pub mod Failures
use Prim.Native.String.{String}
use chat_hub.Prelude.{
  ℕ, ◌-◌, ◌^◌, List, [], ◌∷◌, map, Bool, true, false, ltb, if◌then◌else◌, Bytes, length, pos,
  Option, none, some,
}
use chat_hub.Codec.{
  JsonLibrary, kind_of, string_at, object_at, array_at, invalid_json, invalid_request_id,
  invalid_request, text_field, capability_list,
}
use chat_hub.Double.{Double, read_integer}
use chat_hub.Hello.{
  CapabilitySet, HelloRequest, HelloResponse, max_json_bytes, max_client_version_bytes,
}
use chat_hub.Ids.UuidId.{RequestId, parse}
use chat_hub.Json.{Json, string, number, flag, array, object, Fields, no_fields, put, texts}
use chat_hub.Outcome.{Error, Outcome, require, and_then}

-- What the client calls of Qt: the JSON reader with three more accessors, the writer `toJson` for a
-- compact document, and `QString::fromStdString`.
pub record QtLibrary (Value Object : Type 0) : Type 0 where
  pub json : JsonLibrary Value Object
  pub is_null : Value → Bool
  pub as_bool : Value → Option Bool
  pub as_double : Value → Option Double
  pub to_json : Fields → Bytes
  pub from_std_string : Bytes → Bytes

-- `kMaxSafeInteger`.
abbrev pub max_safe_integer : ℕ
max_safe_integer = 9007199254740991

module _ {Value Object : Type 0} (qt : QtLibrary Value Object) where
  -- The object `data` of a request.
  abbrev pub request_data : HelloRequest → Fields
  request_data request =
      put "capabilities" (array (texts (map qt.from_std_string request.capabilities.value))) (
        put "platform" (string (qt.from_std_string request.platform))
          (put "client_version" (string (qt.from_std_string request.client_version)) no_fields))

  -- The object `root` of a request.
  abbrev pub request_root : RequestId → HelloRequest → Fields
  request_root request_id request =
      put "data" (object (request_data request))
        (put "request_id" (string (qt.from_std_string request_id.value)) no_fields)

  unfoldable pub encode_hello_request : RequestId → HelloRequest → Outcome Bytes
  encode_hello_request request_id request =
      Outcome.ok (qt.to_json (request_root request_id request))

  -- A number that is a double and an integer from 0 to `max`.
  unfoldable pub number_at : ℕ → Object → String → Option ℕ
  number_at max fields key =
      kind_of (read_integer max) (kind_of qt.as_double (qt.json.find fields key))

  -- `server_time`, whose two refusals differ in their detail.
  unfoldable pub server_time : Object → Outcome ℕ
  server_time fields =
      and_then
        (require (invalid_request "server_time 非数值")
          (kind_of qt.as_double (qt.json.find fields "server_time")))
        (λ time. require (invalid_request "server_time 非法") (read_integer max_safe_integer time))

  -- `read_uint32`, where false is answered by an error.
  unfoldable pub read_uint32 : Object → String → Outcome ℕ
  read_uint32 fields key = require (invalid_request "连接参数字段缺失或非法") (number_at 4294967295 fields key)

  -- The fields of `data`.
  unfoldable pub decode_response_fields : Object → Outcome HelloResponse
  decode_response_fields fields =
      and_then
        (text_field qt.json max_client_version_bytes "server_version" "server_version 缺失或非字符串"
          "server_version 长度非法" fields)
        (λ version. and_then (server_time fields) (λ time.
          and_then (read_uint32 fields "max_json") (λ max_json.
            and_then (read_uint32 fields "max_text") (λ max_text.
              and_then (read_uint32 fields "heartbeat_idle") (λ heartbeat_idle.
                and_then (read_uint32 fields "timeout") (λ timeout.
                  and_then (capability_list qt.json fields) (λ set. Outcome.ok (record {
                    server_version = version;
                    server_time = pos time;
                    max_json = max_json;
                    max_text = max_text;
                    heartbeat_idle = heartbeat_idle;
                    timeout = timeout;
                    capabilities = set;
                  }))))))))

  is_true : Bool → Option Bool
  is_true true = some true
  is_true false = none

  -- `ok` and `data` of the root object.
  unfoldable pub decode_response_data : Object → Outcome HelloResponse
  unfolding is_true
  decode_response_data root =
      and_then
        (require (invalid_request "hello_response ok 非 true")
          (kind_of is_true (kind_of qt.as_bool (qt.json.find root "ok"))))
        (λ ok.
          and_then (require (invalid_request "data 缺失或非对象") (object_at qt.json root "data"))
            decode_response_fields)

  -- The request id of the root object.
  unfoldable pub decode_response_id : Object → Outcome RequestId
  decode_response_id root =
      and_then
        (require (invalid_request_id "request_id 缺失或非字符串") (string_at qt.json root "request_id"))
        (λ id. require (invalid_request_id "request_id 非合法 UUID") (parse id))

  -- A document that is not null.
  unfoldable pub parse_document : Bytes → Option Value
  parse_document text =
      kind_of (λ document. if qt.is_null document then none else some document) (qt.json.parse text)

  -- The root object of the text.
  unfoldable pub decode_response_root : Bytes → Outcome Object
  decode_response_root text =
      if ltb max_json_bytes (length text)
      then Outcome.failed (invalid_request "正文超过 64 KiB")
      else and_then (require (invalid_json "hello_response 非合法 JSON") (parse_document text))
          (λ document.
            require (invalid_request "hello_response 根必须是对象") (qt.json.as_object document))

  with_response_id : Object → RequestId → Outcome RequestId → Outcome HelloResponse × RequestId
  with_response_id root out_request_id (Outcome.failed e) = (Outcome.failed e, out_request_id)
  with_response_id root out_request_id (Outcome.ok id) = (decode_response_data root, id)

  with_response_root : RequestId → Outcome Object → Outcome HelloResponse × RequestId
  with_response_root out_request_id (Outcome.failed e) = (Outcome.failed e, out_request_id)
  with_response_root out_request_id (Outcome.ok root) =
      with_response_id root out_request_id (decode_response_id root)

  -- `decodeHelloResponse`, with what `out_request_id` holds behind the call.
  unfoldable pub decode_hello_response : Bytes → RequestId → Outcome HelloResponse × RequestId
  unfolding with_response_id with_response_root
  decode_hello_response text out_request_id =
      with_response_root out_request_id (decode_response_root text)
