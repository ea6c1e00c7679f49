-- ===== src/Exchange/Wire.antt =====
-- The hello exchange over the connection: encoded, framed, cut into chunks, unframed and decoded.
use chat_hub.Prelude.{◌≤◌, ◌≡◌, sym, ap, subst, ◌∙◌, List, [], ◌∷◌, Bytes, length, some}
use chat_hub.ClientCodec.{QtLibrary, request_root, encode_hello_request, decode_hello_response}
use chat_hub.Codec.{JsonLibrary}
use chat_hub.Exchange.{Views, QtViews, KeepsUtf8, ReadsBack}
use chat_hub.Exchange.Request.{IsRequest, decode-encode_hello_request}
use chat_hub.Exchange.Response.{IsResponse, decode-encode_hello_response}
use chat_hub.Frame.{Frame, new_decoder, encode_frame}
use chat_hub.Frame.RoundTrip.{encode_frame_iff, sendable_small, encode_frames_one, decode-encode}
use chat_hub.Frame.Session.{Call, fed, run, delivered}
use chat_hub.Hello.{HelloRequest, HelloResponse}
use chat_hub.Ids.UuidId.{RequestId, parse}
use chat_hub.Json.{Fields}
use chat_hub.Outcome.{ok}
use chat_hub.Protocol.Types.{ProtocolType, hello_request, hello_response}
use chat_hub.ServerCodec.{response_root, encode_hello_response, decode_hello_request}

-- What fits into a frame is small enough for the decoders.
framed_small :
    (t : ProtocolType) (body w : Bytes) → encode_frame t body ≡ some w → length body ≤ 65536
framed_small t body w h = sendable_small ((encode_frame_iff t body w).0 h).0

-- One frame comes out as it went in.
framed_delivered :
    (t : ProtocolType) (body : Bytes) (calls : List Call)
    → encode_frame t body ≡ some (fed calls)
    → delivered (run new_decoder calls) ≡ record { type = t; body = body } ∷ []
framed_delivered t body calls h =
    let f : Frame = record { type = t; body = body } in
    (decode-encode (f ∷ []) calls (encode_frames_one f (fed calls) h)).0

module _ {ClientValue ClientObject ServerValue ServerObject : Type 0}
    {json : JsonLibrary ServerValue ServerObject} (server : Views json)
    {qt : QtLibrary ClientValue ClientObject} (client : QtViews qt) where
  -- A request that the client encodes and frames reaches the server: from the bytes of the frame, in
  -- whatever chunks they arrive, its decoder takes this one frame, whose body the server decodes to
  -- the same request id and the same request. The fields are valid UTF-8 within the limits of the
  -- decoder, Boost.JSON reads back the document that Qt has written, and a `QString` keeps valid
  -- UTF-8.
  pub request_over_wire :
      (id out : RequestId) (r : HelloRequest) (text : Bytes) (calls : List Call)
      → KeepsUtf8 qt.from_std_string
      → IsRequest r
      → parse id.value ≡ some id
      → ReadsBack server (qt.to_json (request_root qt id r)) (request_root qt id r)
      → encode_hello_request qt id r ≡ ok text
      → encode_frame hello_request text ≡ some (fed calls)
      → (delivered (run new_decoder calls) ≡ record { type = hello_request; body = text } ∷ [])
        × (decode_hello_request json text out ≡ (ok r, id))
  unfolding encode_hello_request
  request_over_wire id out r text calls keeps is_request valid written encoded framed =
      let same : qt.to_json (request_root qt id r) ≡ text = ok_injective encoded in
      let small =
        subst (λ t. length t ≤ 65536) (sym same) (framed_small hello_request text _ framed) in
      let (_, decoded) =
        decode-encode_hello_request server qt keeps id out r is_request valid written small in
      (
        framed_delivered hello_request text calls framed,
        ap (λ t. decode_hello_request json t out) (sym same) ∙ decoded,
      )
    where
      ok_injective : {a b : Bytes} → ok a ≡ ok b → a ≡ b
      ok_injective e = cc

module _ {Value Object : Type 0} {qt : QtLibrary Value Object} (client : QtViews qt) where
  -- A response that the server encodes and frames reaches the client in the same way, if its version
  -- and capabilities are within the limits of the decoder, its time is from 0 to 2^53-1 and its four
  -- numbers are below 2^32, and Qt reads back the document that Boost.JSON has written.
  pub response_over_wire :
      (serialize : Fields → Bytes) (id out : RequestId) (r : HelloResponse) (calls : List Call)
      → IsResponse r
      → parse id.value ≡ some id
      → ReadsBack client.views (encode_hello_response serialize id r) (response_root id r)
      → encode_frame hello_response (encode_hello_response serialize id r) ≡ some (fed calls)
      → (delivered (run new_decoder calls)
          ≡ record { type = hello_response; body = encode_hello_response serialize id r } ∷ [])
        × (decode_hello_response qt (encode_hello_response serialize id r) out ≡ (ok r, id))
  response_over_wire serialize id out r calls is_response valid written framed =
      let text = encode_hello_response serialize id r in
      (
        framed_delivered hello_response text calls framed,
        decode-encode_hello_response client serialize id out r is_response valid written
            (framed_small hello_response text _ framed),
      )
