-- ===== src/Tests/Registry.antt =====
-- The registry at single descriptors.
use chat_hub.Prelude.{◌≡◌, refl, ◌↔◌, none, some}
use chat_hub.Protocol.{find_in, find_protocol}
use chat_hub.Protocol.Checks.{Registered}
use chat_hub.Protocol.ConnectionStates
use chat_hub.Protocol.ConnectionStates.{ConnectionState, join, has_state}
use chat_hub.Protocol.Descriptor.{Direction, ProtocolDescriptor, descriptor, max_json_body}
use chat_hub.Protocol.Ownership.{response_owner}
use chat_hub.Protocol.Pairing.{AnsweredBy, request_answered}
use chat_hub.Protocol.Policy.{in_phase, allowed_by_phase, HasLimits, type_limits}
use chat_hub.Protocol.Registry.{find_protocol_iff}
use chat_hub.Protocol.Types.{heartbeat, hello_request, hello_response}

abbrev heartbeat_row : ProtocolDescriptor
heartbeat_row =
    descriptor heartbeat "heartbeat" Direction.bidirectional
      (join ConnectionStates.only_unauthenticated ConnectionStates.only_authenticated) "" 0 0 none

abbrev request_row : ProtocolDescriptor
request_row =
    descriptor hello_request "hello_request" Direction.request ConnectionStates.only_awaiting_hello
      "" max_json_body 5000 (some hello_response)

abbrev response_row : ProtocolDescriptor
response_row =
    descriptor hello_response "hello_response" Direction.response
      ConnectionStates.only_awaiting_hello "" max_json_body 0 none

heartbeat_row-Registered : Registered heartbeat_row
heartbeat_row-Registered = (1, refl)

request_row-Registered : Registered request_row
request_row-Registered = (2, refl)

response_row-Registered : Registered response_row
response_row-Registered = (3, refl)

unregistered : find_protocol 0x03 ≡ none
unfolding find_protocol find_in
unregistered = refl

find_protocol_iff_example :
    (find_protocol heartbeat ≡ some heartbeat_row)
    ↔ (Registered heartbeat_row × (heartbeat_row.type ≡ heartbeat))
find_protocol_iff_example = find_protocol_iff heartbeat heartbeat_row

request_answered_example : (r : ProtocolDescriptor) × AnsweredBy request_row r
request_answered_example = request_answered request_row request_row-Registered refl

response_owner_example :
    (q : ProtocolDescriptor) × Registered q × (q.response ≡ some response_row.type)
response_owner_example = response_owner response_row response_row-Registered refl

allowed_by_phase_example :
    has_state heartbeat_row.allowed_states ConnectionState.awaiting_hello
    ≡ in_phase ConnectionState.awaiting_hello heartbeat_row.type
allowed_by_phase_example =
    allowed_by_phase ConnectionState.awaiting_hello heartbeat_row heartbeat_row-Registered

heartbeat_limits : HasLimits heartbeat_row
heartbeat_limits = type_limits heartbeat_row heartbeat_row-Registered
