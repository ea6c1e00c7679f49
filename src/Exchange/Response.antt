-- ===== src/Exchange/Response.antt =====
-- A response of the server, as the client decodes it.
use Prim.Native.String.{String}
use chat_hub.Prelude.{ℕ, ◌≤◌, ◌<◌, ◌^◌, ◌≡◌, refl, ap, true, arith, Bytes, length, pos, some}
use chat_hub.ClientCodec.{QtLibrary, decode_hello_response}
use chat_hub.ClientCodec.Accepts.{HasResponse, HasResponseId, decode_hello_response_iff}
use chat_hub.ClientCodec.Parameters.{HasNumber, HasResponseFields}
use chat_hub.Codec.{kind_of}
use chat_hub.Exchange.{QtViews, ReadsBack, IsField, AreCapabilities}
use chat_hub.Exchange.Lookups.{string_at_view, object_at_view, capabilities_view}
use chat_hub.Hello.{HelloResponse}
use chat_hub.Ids.UuidId.{RequestId, parse}
use chat_hub.Json.{number, object, Fields, put, lookup}
use chat_hub.ServerCodec.{response_data, response_root, encode_hello_response}
use chat_hub.Outcome.{ok}

-- A response that passes: its numbers are of their types, and its time is an exact double.
pub record IsResponse (r : HelloResponse) : Type 0 where
  pub version : IsField 32 r.server_version
  pub time : ℕ
  pub server_time : r.server_time ≡ pos time
  pub time_fits : time ≤ 9007199254740991
  pub max_json : r.max_json < 2 ^ 32
  pub max_text : r.max_text < 2 ^ 32
  pub heartbeat_idle : r.heartbeat_idle < 2 ^ 32
  pub timeout : r.timeout < 2 ^ 32
  pub capabilities : AreCapabilities r.capabilities

module _ {Value Object : Type 0} {qt : QtLibrary Value Object} (reader : QtViews qt)
    (serialize : Fields → Bytes) where
  number_at_view :
      (max : ℕ) (fs : Fields) (key : String) (n : ℕ)
      → max ≤ 9007199254740991
      → n ≤ max
      → lookup key fs ≡ some (number (pos n))
      → HasNumber qt max (reader.views.view_fields fs) key n
  unfolding kind_of
  number_at_view max fs key n small fits h =
      let (d, shown, value) = reader.of_number n (omega arith) in
      (d, rw (reader.views.of_field fs key, h) shown, (value, fits))

  response_fields :
      (r : HelloResponse)
      → IsResponse r
      → HasResponseFields qt (reader.views.view_fields (response_data r)) r
  unfolding put lookup
  response_fields r is_response =
      let fs = response_data r in
      (
        (
          string_at_view reader.views fs "server_version" r.server_version refl,
          is_response.version.0,
        ),
        (
          is_response.time,
          number_at_view 9007199254740991 fs "server_time" is_response.time (omega arith)
              is_response.time_fits (ap (λ z. some (number z)) is_response.server_time),
          is_response.server_time,
        ),
        number_at_view 4294967295 fs "max_json" r.max_json (omega arith)
            (omega (arith, is_response.max_json)) refl,
        number_at_view 4294967295 fs "max_text" r.max_text (omega arith)
            (omega (arith, is_response.max_text)) refl,
        number_at_view 4294967295 fs "heartbeat_idle" r.heartbeat_idle (omega arith)
            (omega (arith, is_response.heartbeat_idle)) refl,
        number_at_view 4294967295 fs "timeout" r.timeout (omega arith)
            (omega (arith, is_response.timeout)) refl,
        capabilities_view reader.views fs r.capabilities is_response.capabilities refl,
      )

  response_of_root :
      (id : RequestId) (r : HelloResponse)
      → IsResponse r
      → HasResponse qt (reader.views.view_fields (response_root id r)) r
  unfolding put lookup kind_of
  response_of_root id r is_response = (
    rw (reader.views.of_field (response_root id r) "ok") (reader.of_flag true),
    (
      reader.views.view_fields (response_data r),
      object_at_view reader.views (response_root id r) "data" (response_data r) refl,
      response_fields r is_response,
    ),
  )

  id_of_root :
      (id : RequestId) (r : HelloResponse)
      → parse id.value ≡ some id
      → HasResponseId qt (reader.views.view_fields (response_root id r)) id
  unfolding put lookup
  id_of_root id r valid =
      (id.value, string_at_view reader.views (response_root id r) "request_id" id.value refl, valid)

  -- The client decodes what the server encodes: the same request id and the same response, if its
  -- version and capabilities are within the limits of the decoder, its time is from 0 to 2^53-1 and
  -- the text has at most 64 KiB. It is assumed that Qt reads back the document that Boost.JSON has
  -- written.
  pub decode-encode_hello_response :
      (id out : RequestId) (r : HelloResponse)
      → IsResponse r
      → parse id.value ≡ some id
      → ReadsBack reader.views (encode_hello_response serialize id r) (response_root id r)
      → length (encode_hello_response serialize id r) ≤ 65536
      → decode_hello_response qt (encode_hello_response serialize id r) out ≡ (ok r, id)
  decode-encode_hello_response id out r is_response valid written small =
      let root = response_root id r in
      (decode_hello_response_iff qt (encode_hello_response serialize id r) out id r).1 (
        reader.views.view_fields root,
        (
          small,
          (
            reader.views.view (object root),
            written,
            reader.of_document root,
            reader.views.of_object root,
          ),
        ),
        id_of_root id r valid,
        response_of_root id r is_response,
      )
