-- ===== src/Exchange/Negotiation.antt =====
-- The negotiation of the capabilities: a client asks for a set, the server answers with the texts
-- of it that it has itself.
use chat_hub.Prelude.{ℕ, ◌≤◌, ◌≡◌, refl, sym, subst, ◌&&◌, arith, List, [], ◌∷◌, Bytes, pos, some}
use chat_hub.ClientCodec.{QtLibrary, decode_hello_response}
use chat_hub.Codec.{JsonLibrary}
use chat_hub.Exchange.{QtViews, ReadsBack, IsField, AreCapabilities}
use chat_hub.Exchange.Response.{IsResponse}
use chat_hub.Exchange.Wire.{response_over_wire}
use chat_hub.Frame.{new_decoder, encode_frame}
use chat_hub.Frame.Session.{Call, fed, run, delivered}
use chat_hub.Hello.{
  CapabilitySet, HelloRequest, HelloResponse, default_response, contains, intersect,
}
use chat_hub.Hello.Bounds.{length-intersect, intersect-All}
use chat_hub.Hello.Sets.{Built, built_of, built_intersect, contains-intersect}
use chat_hub.Ids.UuidId.{RequestId, parse}
use chat_hub.Ids.UuidId.Shape.{uuid_parse_iff}
use chat_hub.Json.{Fields}
use chat_hub.Outcome.{ok}
use chat_hub.Protocol.Types.{hello_response}
use chat_hub.ServerCodec.{response_root, encode_hello_response, decode_hello_request}
use chat_hub.ServerCodec.Accepts.{decode_hello_request_iff}
use chat_hub.Utf8.{is_valid_utf8}

-- What an acceptable set has in common with another is acceptable.
intersect-AreCapabilities :
    (a b : CapabilitySet) → AreCapabilities a → Built b → AreCapabilities (intersect a b)
intersect-AreCapabilities a b has built = record {
  built = built_intersect has.built built;
  few = omega (arith, length-intersect a b, has.few);
  each = intersect-All (IsField 64) a b has.each;
}

-- The answer of a server with these capabilities: the defaults, its time and the common set.
abbrev pub answer_of : CapabilitySet → ℕ → HelloRequest → HelloResponse
answer_of own time r = record default_response {
  server_time = pos time;
  capabilities = intersect own r.capabilities;
}

answer_of-IsResponse :
    (own : CapabilitySet) (time : ℕ) (r : HelloRequest)
    → AreCapabilities own
    → time ≤ 9007199254740991
    → Built r.capabilities
    → IsResponse (answer_of own time r)
unfolding is_valid_utf8
answer_of-IsResponse own time r has fits built = record {
  version = ((omega arith, omega arith), refl);
  time = time;
  server_time = refl;
  time_fits = fits;
  max_json = omega arith;
  max_text = omega arith;
  heartbeat_idle = omega arith;
  timeout = omega arith;
  capabilities = intersect-AreCapabilities own r.capabilities has built;
}

-- What the server has decoded: a set of capabilities that its constructor has built, and an id that
-- `UuidId::parse` accepts.
module _ {Value Object : Type 0} (json : JsonLibrary Value Object) where
  decoded-Built :
      (text : Bytes) (out id : RequestId) (r : HelloRequest)
      → decode_hello_request json text out ≡ (ok r, id)
      → Built r.capabilities
  decoded-Built text out id r h =
      let (_, _, _, (_, _, (_, _, (_, _, _, (texts, _, same))))) =
        (decode_hello_request_iff json text out id r).0 h in
      subst Built same (built_of texts)

  decoded_parses :
      (text : Bytes) (out id : RequestId) (r : HelloRequest)
      → decode_hello_request json text out ≡ (ok r, id)
      → parse id.value ≡ some id
  decoded_parses text out id r h =
      let (_, _, (t, _, parsed), _) = (decode_hello_request_iff json text out id r).0 h in
      let (_, same) = (uuid_parse_iff t id).0 parsed in
      subst (λ u. parse u ≡ some id) (sym same) parsed

module _ {ServerValue ServerObject ClientValue ClientObject : Type 0}
    (json : JsonLibrary ServerValue ServerObject) {qt : QtLibrary ClientValue ClientObject}
    (client : QtViews qt) (serialize : Fields → Bytes) where
  -- Whatever request the server has decoded, its answer, with the default parameters, a time up to
  -- 2^53-1 and the intersection of its own capabilities with those asked for, is delivered to the
  -- client and decoded with the id of the request, whatever the chunks; and the set that the client
  -- then has holds a text exactly if the server has it and the request asked for it. The server's own
  -- set is within the limits of the decoder, and Qt reads back the document that Boost.JSON has written.
  pub answer_over_wire :
      (text : Bytes) (out id out' : RequestId) (r : HelloRequest) (own : CapabilitySet) (time : ℕ)
      (calls : List Call)
      → decode_hello_request json text out ≡ (ok r, id)
      → AreCapabilities own
      → time ≤ 9007199254740991
      → ReadsBack client.views
          (encode_hello_response serialize id (answer_of own time r))
          (response_root id (answer_of own time r))
      → encode_frame hello_response (encode_hello_response serialize id (answer_of own time r))
        ≡ some (fed calls)
      → (delivered (run new_decoder calls)
          ≡ record {
            type = hello_response;
            body = encode_hello_response serialize id (answer_of own time r);
          }
            ∷ [])
        × (decode_hello_response qt (encode_hello_response serialize id (answer_of own time r)) out'
            ≡ (ok (answer_of own time r), id))
        × ((w : Bytes)
            → contains (answer_of own time r).capabilities w
              ≡ (contains own w && contains r.capabilities w))
  answer_over_wire text out id out' r own time calls decoded has fits written framed =
      let is_response =
        answer_of-IsResponse own time r has fits (decoded-Built json text out id r decoded) in
      let (arrived, read) =
        response_over_wire client serialize id out' (answer_of own time r) calls is_response
          (decoded_parses json text out id r decoded) written framed in
      (arrived, read, contains-intersect own r.capabilities)
