-- ===== src/Tests/Negotiation.antt =====
-- The negotiation of the capabilities, over the libraries of Tests/Exchange.antt.
use chat_hub.Prelude.{codes, ◌≡◌, ◌&&◌, refl, [], ◌∷◌, Bytes, arith, some}
use chat_hub.ClientCodec.{encode_hello_request, decode_hello_response}
use chat_hub.Exchange.{AreCapabilities}
use chat_hub.Exchange.Negotiation.{answer_of, answer_over_wire}
use chat_hub.Exchange.Wire.{request_over_wire}
use chat_hub.Frame.{new_decoder, encode_frame}
use chat_hub.Frame.Session.{fed, run, delivered}
use chat_hub.Hello.{
  CapabilitySet, insert, insert_each, of_values, emplace, text_less, same_text, member, contains,
  intersect, capability_text_v1,
}
use chat_hub.Hello.Sets.{built_of}
use chat_hub.Ids.UuidId.{no_id}
use chat_hub.Json.{Fields}
use chat_hub.Outcome.{ok}
use chat_hub.Protocol.{find_in, find_protocol}
use chat_hub.Protocol.Types.{hello_response}
use chat_hub.ServerCodec.{response_root, encode_hello_response, decode_hello_request}
use chat_hub.Tests.Exchange.{
  reader, qt_reader, views, qt_views, request_id, id_parses, hello_sent, is_request, request_calls,
  framed_request, sent_request, serialize, response_calls, capabilities,
}
use chat_hub.Utf8.{is_valid_utf8}

-- The server has two capabilities, of which the client knows one.
abbrev own : CapabilitySet
own = of_values (capability_text_v1 ∷ (codes "ack") ∷ [])

own-AreCapabilities : AreCapabilities own
unfolding of_values insert_each insert emplace text_less is_valid_utf8
own-AreCapabilities = record {
  built = built_of (capability_text_v1 ∷ (codes "ack") ∷ []);
  few = omega arith;
  each = (((omega arith, omega arith), refl), (((omega arith, omega arith), refl), tt));
}

abbrev answered : Fields
answered = response_root request_id (answer_of own 1234 hello_sent)

framed_answer :
    encode_frame hello_response
      (encode_hello_response serialize request_id (answer_of own 1234 hello_sent))
    ≡ some (fed response_calls)
unfolding encode_frame find_protocol find_in is_valid_utf8 encode_hello_response
framed_answer = refl

encoded : encode_hello_request (qt_reader answered) request_id hello_sent ≡ ok (codes "{}")
unfolding encode_hello_request
encoded = refl

decoded :
    decode_hello_request (reader sent_request) (codes "{}") no_id ≡ (ok hello_sent, request_id)
unfolding views qt_views
decoded =
    (request_over_wire (views sent_request) (qt_views answered) request_id no_id hello_sent
      (codes "{}") request_calls (λ t valid. refl) is_request id_parses refl encoded
      framed_request).1

answer_over_wire_example :
    (delivered (run new_decoder response_calls)
      ≡ record {
        type = hello_response;
        body = encode_hello_response serialize request_id (answer_of own 1234 hello_sent);
      }
        ∷ [])
    × (decode_hello_response
          (qt_reader answered)
          (encode_hello_response serialize request_id (answer_of own 1234 hello_sent))
          no_id
        ≡ (ok (answer_of own 1234 hello_sent), request_id))
    × ((w : Bytes)
        → contains (intersect own capabilities) w ≡ (contains own w && contains capabilities w))
unfolding views qt_views
answer_over_wire_example =
    answer_over_wire (reader sent_request) (qt_views answered) serialize (codes "{}") no_id
      request_id no_id hello_sent own 1234 response_calls decoded own-AreCapabilities (omega arith)
      refl framed_answer

-- They agree on the one.
agreed : (intersect own capabilities).value ≡ capability_text_v1 ∷ []
unfolding intersect of_values insert_each insert emplace text_less member same_text
agreed = refl
