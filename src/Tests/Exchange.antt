-- ===== src/Tests/Exchange.antt =====
-- The hello exchange over JSON libraries whose values are the JSON values themselves, and whose one
-- text, `{}`, stands for the document of the test.
use chat_hub.Prelude.{
  codes, ◌+◌, ◌≡◌, ◌↔◌, inl, refl, List, [], ◌∷◌, Bool, true, false, Bytes, pos, negsuc, Option,
  none, some, arith,
}
use chat_hub.ClientCodec.{QtLibrary, request_root, encode_hello_request, decode_hello_response}
use chat_hub.ClientCodec.Accepts.{
  HasDocument, HasResponseId, HasResponse, decode_hello_response_iff,
}
use chat_hub.Codec.{JsonLibrary}
use chat_hub.Double.{Double, of_nat}
use chat_hub.Exchange.{view_of, Views, QtViews, AreCapabilities}
use chat_hub.Exchange.Request.{IsRequest}
use chat_hub.Exchange.Response.{IsResponse}
use chat_hub.Exchange.Wire.{request_over_wire, response_over_wire}
use chat_hub.Frame.{new_decoder, encode_frame}
use chat_hub.Frame.Session.{Call, feeds, pops, fed, run, delivered}
use chat_hub.Hello.{
  CapabilitySet, HelloRequest, HelloResponse, default_response, insert, insert_each, of_values,
  emplace, capability_text_v1, support_client_version, desktop_platform,
}
use chat_hub.Hello.Sets.{built_of}
use chat_hub.Ids.Ascii.{to_lower_ascii}
use chat_hub.Ids.UuidId.{
  RequestId, no_id, parse, is_uuid, uuid_chars, is_hex, is_dash_index, is_variant,
}
use chat_hub.Json.{Json, string, number, flag, array, object, Fields, no_fields, lookup, each_item}
use chat_hub.Outcome.{ok}
use chat_hub.Protocol.{find_in, find_protocol}
use chat_hub.Protocol.Types.{hello_request, hello_response}
use chat_hub.ServerCodec.{response_root, encode_hello_response, decode_hello_request}
use chat_hub.Utf8.{is_valid_utf8}

abbrev fields_of : Json → Option Fields
fields_of (object fs) = some fs
fields_of (string t) = none
fields_of (number z) = none
fields_of (flag b) = none
fields_of (array items) = none

abbrev text_of : Json → Option Bytes
text_of (string t) = some t
text_of (object fs) = none
text_of (number z) = none
text_of (flag b) = none
text_of (array items) = none

abbrev items_of : Json → Option (List Json)
items_of (array items) = some (each_item (λ j. j) items)
items_of (string t) = none
items_of (object fs) = none
items_of (number z) = none
items_of (flag b) = none

abbrev flag_of : Json → Option Bool
flag_of (flag b) = some b
flag_of (string t) = none
flag_of (object fs) = none
flag_of (number z) = none
flag_of (array items) = none

abbrev double_of : Json → Option Double
double_of (number (pos n)) = some (of_nat n)
double_of (number (negsuc n)) = some (record { negative = true; mantissa = n + 1; scale = 0 })
double_of (string t) = none
double_of (object fs) = none
double_of (flag b) = none
double_of (array items) = none

-- A reader for which every text is this document.
abbrev pub reader : Fields → JsonLibrary Json Fields
reader root = record {
  parse = λ text. some (object root);
  as_object = fields_of;
  as_string = text_of;
  as_array = items_of;
  find = λ fs key. lookup key fs;
}

abbrev pub qt_reader : Fields → QtLibrary Json Fields
qt_reader root = record {
  json = reader root;
  is_null = λ j. false;
  as_bool = flag_of;
  as_double = double_of;
  to_json = λ fs. b'{' ∷ b'}' ∷ [];
  from_std_string = λ t. t;
}

pub view_self : (o : Option Json) → o ≡ view_of (λ j. j) o
view_self none = refl
view_self (some j) = refl

unfoldable pub views : (root : Fields) → Views (reader root)
views root = record {
  view = λ j. j;
  view_fields = λ fs. fs;
  of_string = λ t. refl;
  of_object = λ fs. refl;
  of_array = λ items. refl;
  of_field = λ fs key. view_self (lookup key fs);
}

unfoldable pub qt_views : (root : Fields) → QtViews (qt_reader root)
unfolding views
qt_views root = record {
  views = views root;
  of_document = λ fs. refl;
  of_flag = λ b. refl;
  of_number = λ n h. (of_nat n, refl, (omega arith, inl refl));
}

abbrev pub request_id : RequestId
request_id = record { value = codes "6ba7b810-9dad-41d1-80b4-00c04fd430c8" }

pub id_parses : parse request_id.value ≡ some request_id
unfolding parse is_uuid uuid_chars is_hex is_dash_index is_variant to_lower_ascii
id_parses = refl

abbrev pub capabilities : CapabilitySet
capabilities = of_values (capability_text_v1 ∷ [])

pub are_capabilities : AreCapabilities capabilities
unfolding of_values insert_each insert emplace is_valid_utf8
are_capabilities = record {
  built = built_of (capability_text_v1 ∷ []);
  few = omega arith;
  each = (((omega arith, omega arith), refl), tt);
}

abbrev pub hello_sent : HelloRequest
hello_sent = record {
  client_version = support_client_version;
  platform = desktop_platform;
  capabilities = capabilities;
}

pub is_request : IsRequest hello_sent
unfolding is_valid_utf8
is_request = record {
  version = ((omega arith, omega arith), refl);
  platform = ((omega arith, omega arith), refl);
  capabilities = are_capabilities;
}

-- The framed text `{}`, cut into two chunks.
abbrev pub request_calls : List Call
request_calls =
    feeds (0x43 ∷ 0x48 ∷ 1 ∷ 4 ∷ 0 ∷ []) ∷ feeds (0 ∷ 0 ∷ 2 ∷ b'{' ∷ b'}' ∷ []) ∷ pops ∷ []

pub framed_request : encode_frame hello_request (b'{' ∷ b'}' ∷ []) ≡ some (fed request_calls)
unfolding encode_frame find_protocol find_in is_valid_utf8
framed_request = refl

abbrev pub sent_request : Fields
sent_request = request_root (qt_reader no_fields) request_id hello_sent

encoded : encode_hello_request (qt_reader no_fields) request_id hello_sent ≡ ok (b'{' ∷ b'}' ∷ [])
unfolding encode_hello_request
encoded = refl

request_over_wire_example :
    (delivered (run new_decoder request_calls)
      ≡ record { type = hello_request; body = (b'{' ∷ b'}' ∷ []) } ∷ [])
    × (decode_hello_request (reader sent_request) (b'{' ∷ b'}' ∷ []) no_id
        ≡ (ok hello_sent, request_id))
unfolding views
request_over_wire_example =
    request_over_wire (views sent_request) (qt_views no_fields) request_id no_id hello_sent
      (b'{' ∷ b'}' ∷ []) request_calls (λ t valid. refl) is_request id_parses refl encoded
      framed_request

abbrev hello_answer : HelloResponse
hello_answer = record default_response { server_time = pos 1234; capabilities = capabilities }

is_response : IsResponse hello_answer
unfolding is_valid_utf8
is_response = record {
  version = ((omega arith, omega arith), refl);
  time = 1234;
  server_time = refl;
  time_fits = omega arith;
  max_json = omega arith;
  max_text = omega arith;
  heartbeat_idle = omega arith;
  timeout = omega arith;
  capabilities = are_capabilities;
}

abbrev sent_response : Fields
sent_response = response_root request_id hello_answer

abbrev pub serialize : Fields → Bytes
serialize fs = b'{' ∷ b'}' ∷ []

abbrev pub response_calls : List Call
response_calls = feeds (0x43 ∷ 0x48 ∷ 1 ∷ 5 ∷ 0 ∷ 0 ∷ 0 ∷ 2 ∷ b'{' ∷ b'}' ∷ []) ∷ []

framed_response :
    encode_frame hello_response (encode_hello_response serialize request_id hello_answer)
    ≡ some (fed response_calls)
unfolding encode_frame find_protocol find_in is_valid_utf8 encode_hello_response
framed_response = refl

read_back :
    (reader sent_response).parse (encode_hello_response serialize request_id hello_answer)
    ≡ some (object sent_response)
read_back = refl

response_over_wire_example :
    (delivered (run new_decoder response_calls)
      ≡ record {
        type = hello_response;
        body = encode_hello_response serialize request_id hello_answer;
      }
        ∷ [])
    × (decode_hello_response
          (qt_reader sent_response)
          (encode_hello_response serialize request_id hello_answer)
          no_id
        ≡ (ok hello_answer, request_id))
unfolding views qt_views
response_over_wire_example =
    response_over_wire (qt_views sent_response) serialize request_id no_id hello_answer
      response_calls is_response id_parses read_back framed_response

decode_hello_response_iff_example :
    (decode_hello_response (qt_reader sent_response) (b'{' ∷ b'}' ∷ []) no_id
      ≡ (ok hello_answer, request_id))
    ↔ ((root : Fields) × HasDocument (qt_reader sent_response) (b'{' ∷ b'}' ∷ []) root
        × HasResponseId (qt_reader sent_response) root request_id
        × HasResponse (qt_reader sent_response) root hello_answer)
decode_hello_response_iff_example =
    decode_hello_response_iff (qt_reader sent_response) (b'{' ∷ b'}' ∷ []) no_id request_id
      hello_answer
