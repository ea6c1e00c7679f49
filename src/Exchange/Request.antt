-- ===== src/Exchange/Request.antt =====
-- A request of the client, as the server decodes it.
use chat_hub.Prelude.{◌≤◌, ◌≡◌, refl, ap, length, some}
use chat_hub.ClientCodec.{QtLibrary, request_data, request_root, encode_hello_request}
use chat_hub.Codec.{JsonLibrary}
use chat_hub.Exchange.{Views, KeepsUtf8, ReadsBack, IsField, AreCapabilities}
use chat_hub.Exchange.Texts.{parse-is_valid_utf8, map_keeps}
use chat_hub.Hello.{HelloRequest}
use chat_hub.Ids.UuidId.{RequestId, parse}
use chat_hub.Json.{string, array, object, put, lookup, texts}
use chat_hub.Outcome.{ok}
use chat_hub.ServerCodec.{decode_hello_request}
use chat_hub.ServerCodec.Accepts.{HasFields, HasData, HasId, decode_hello_request_iff}
use chat_hub.Exchange.Lookups.{string_at_view, object_at_view, capabilities_view}

-- A request that passes.
pub record IsRequest (r : HelloRequest) : Type 0 where
  pub version : IsField 32 r.client_version
  pub platform : IsField 16 r.platform
  pub capabilities : AreCapabilities r.capabilities

module _ {Value Object QtValue QtObject : Type 0} {json : JsonLibrary Value Object}
    (views : Views json) (qt : QtLibrary QtValue QtObject)
    (keeps : KeepsUtf8 qt.from_std_string) where
  data_fields :
      (r : HelloRequest) → IsRequest r → HasFields json (views.view_fields (request_data qt r)) r
  unfolding put lookup
  data_fields r is_request = (
    (
      string_at_view views (request_data qt r) "client_version" r.client_version
          (ap (λ t. some (string t)) (keeps r.client_version is_request.version.1)),
      is_request.version.0,
    ),
    (
      string_at_view views (request_data qt r) "platform" r.platform
          (ap (λ t. some (string t)) (keeps r.platform is_request.platform.1)),
      is_request.platform.0,
    ),
    capabilities_view views (request_data qt r) r.capabilities is_request.capabilities (
        ap (λ ts. some (array (texts ts)))
          (map_keeps qt.from_std_string 64 r.capabilities.value keeps
            is_request.capabilities.each)),
  )

  root_data :
      (id : RequestId) (r : HelloRequest)
      → IsRequest r
      → HasData json (views.view_fields (request_root qt id r)) r
  unfolding put lookup
  root_data id r is_request = (
    views.view_fields (request_data qt r),
    object_at_view views (request_root qt id r) "data" (request_data qt r) refl,
    data_fields r is_request,
  )

  root_id :
      (id : RequestId) (r : HelloRequest)
      → parse id.value ≡ some id
      → HasId json (views.view_fields (request_root qt id r)) id
  unfolding put lookup
  root_id id r valid = (
    id.value,
    string_at_view views (request_root qt id r) "request_id" id.value
        (ap (λ t. some (string t)) (keeps id.value (parse-is_valid_utf8 id.value id valid))),
    valid,
  )

  -- The server decodes what the client encodes: the same request id and the same request, the set of
  -- capabilities included, if its fields are valid UTF-8 within the limits of the decoder and the
  -- text has at most 64 KiB; the encoder always succeeds. It is assumed that Boost.JSON reads back
  -- the document that Qt has written, and that a `QString` keeps valid UTF-8.
  pub decode-encode_hello_request :
      (id out : RequestId) (r : HelloRequest)
      → IsRequest r
      → parse id.value ≡ some id
      → ReadsBack views (qt.to_json (request_root qt id r)) (request_root qt id r)
      → length (qt.to_json (request_root qt id r)) ≤ 65536
      → (encode_hello_request qt id r ≡ ok (qt.to_json (request_root qt id r)))
        × (decode_hello_request json (qt.to_json (request_root qt id r)) out ≡ (ok r, id))
  unfolding encode_hello_request
  decode-encode_hello_request id out r is_request valid written small = (
    refl,
    (decode_hello_request_iff json (qt.to_json (request_root qt id r)) out id r).1 (
      views.view_fields (request_root qt id r),
      (small, (views.view (object (request_root qt id r)), written, views.of_object _)),
      root_id id r valid,
      root_data id r is_request,
    ),
  )
