-- ===== src/Protocol/Table.antt =====
-- `kProtocolDescriptors` of shared/include/chathub/contracts/protocol_descriptor.hpp, in its order.
use chat_hub.Prelude.{List, [], ◌∷◌, none, some}
use chat_hub.Protocol.ConnectionStates
use chat_hub.Protocol.ConnectionStates.{join}
use chat_hub.Protocol.Descriptor.{Direction, ProtocolDescriptor, descriptor, max_json_body}
use chat_hub.Protocol.Types.{
  protocol_error, heartbeat, hello_request, hello_response, register_prepare_request,
  register_prepare_response, register_finalize_request, register_finalize_response, login_request,
  login_response, session_resume_request, session_resume_response, password_reset_request,
  password_reset_response, logout_request, logout_response, profile_update_request,
  profile_update_response, user_lookup_request, user_lookup_response, friend_request_create_request,
  friend_request_create_response, friend_request_list_request, friend_request_list_response,
  friend_request_accept_request, friend_request_accept_response, friend_request_reject_request,
  friend_request_reject_response, friend_request_withdraw_request, friend_request_withdraw_response,
  friend_delete_request, friend_delete_response, contact_list_request, contact_list_response,
  message_send_request, message_send_response, delivery_progress_request,
  delivery_progress_response, conversation_list_request, conversation_list_response,
  conversation_history_request, conversation_history_response, conversation_read_request,
  conversation_read_response, conversation_clear_request, conversation_clear_response,
  session_terminated_push, profile_updated_push, friend_request_received_push,
  friendship_changed_push, friend_request_changed_push, conversation_event_push,
  message_received_push, delivery_sync_complete_push,
}

abbrev pub protocol_descriptors : List ProtocolDescriptor
protocol_descriptors =
    descriptor protocol_error "protocol_error" Direction.push ConnectionStates.all "" max_json_body
      0 none
    ∷ descriptor heartbeat "heartbeat" Direction.bidirectional
        (join ConnectionStates.only_unauthenticated ConnectionStates.only_authenticated) "" 0 0 none
    ∷ descriptor hello_request "hello_request" Direction.request
        ConnectionStates.only_awaiting_hello "" max_json_body 5000 (some hello_response)
    ∷ descriptor hello_response "hello_response" Direction.response
        ConnectionStates.only_awaiting_hello "" max_json_body 0 none
    ∷ descriptor register_prepare_request "register_prepare_request" Direction.request
        ConnectionStates.only_unauthenticated "" max_json_body 10000
        (some register_prepare_response)
    ∷ descriptor register_prepare_response "register_prepare_response" Direction.response
        ConnectionStates.only_unauthenticated "" max_json_body 0 none
    ∷ descriptor register_finalize_request "register_finalize_request" Direction.request
        ConnectionStates.only_unauthenticated "" max_json_body 10000
        (some register_finalize_response)
    ∷ descriptor register_finalize_response "register_finalize_response" Direction.response
        ConnectionStates.only_unauthenticated "" max_json_body 0 none
    ∷ descriptor login_request "login_request" Direction.request
        ConnectionStates.only_unauthenticated "" max_json_body 10000 (some login_response)
    ∷ descriptor login_response "login_response" Direction.response
        ConnectionStates.only_unauthenticated "" max_json_body 0 none
    ∷ descriptor session_resume_request "session_resume_request" Direction.request
        ConnectionStates.only_unauthenticated "" max_json_body 10000 (some session_resume_response)
    ∷ descriptor session_resume_response "session_resume_response" Direction.response
        ConnectionStates.only_unauthenticated "" max_json_body 0 none
    ∷ descriptor password_reset_request "password_reset_request" Direction.request
        ConnectionStates.only_unauthenticated "" max_json_body 10000 (some password_reset_response)
    ∷ descriptor password_reset_response "password_reset_response" Direction.response
        ConnectionStates.only_unauthenticated "" max_json_body 0 none
    ∷ descriptor logout_request "logout_request" Direction.request
        ConnectionStates.only_authenticated "" max_json_body 2000 (some logout_response)
    ∷ descriptor logout_response "logout_response" Direction.response
        ConnectionStates.only_authenticated "" max_json_body 0 none
    ∷ descriptor profile_update_request "profile_update_request" Direction.request
        ConnectionStates.only_authenticated "" max_json_body 5000 (some profile_update_response)
    ∷ descriptor profile_update_response "profile_update_response" Direction.response
        ConnectionStates.only_authenticated "" max_json_body 0 none
    ∷ descriptor user_lookup_request "user_lookup_request" Direction.request
        ConnectionStates.only_authenticated "" max_json_body 5000 (some user_lookup_response)
    ∷ descriptor user_lookup_response "user_lookup_response" Direction.response
        ConnectionStates.only_authenticated "" max_json_body 0 none
    ∷ descriptor friend_request_create_request "friend_request_create_request" Direction.request
        ConnectionStates.only_authenticated "" max_json_body 5000
        (some friend_request_create_response)
    ∷ descriptor friend_request_create_response "friend_request_create_response" Direction.response
        ConnectionStates.only_authenticated "" max_json_body 0 none
    ∷ descriptor friend_request_list_request "friend_request_list_request" Direction.request
        ConnectionStates.only_authenticated "" max_json_body 10000
        (some friend_request_list_response)
    ∷ descriptor friend_request_list_response "friend_request_list_response" Direction.response
        ConnectionStates.only_authenticated "" max_json_body 0 none
    ∷ descriptor friend_request_accept_request "friend_request_accept_request" Direction.request
        ConnectionStates.only_authenticated "" max_json_body 5000
        (some friend_request_accept_response)
    ∷ descriptor friend_request_accept_response "friend_request_accept_response" Direction.response
        ConnectionStates.only_authenticated "" max_json_body 0 none
    ∷ descriptor friend_request_reject_request "friend_request_reject_request" Direction.request
        ConnectionStates.only_authenticated "" max_json_body 5000
        (some friend_request_reject_response)
    ∷ descriptor friend_request_reject_response "friend_request_reject_response" Direction.response
        ConnectionStates.only_authenticated "" max_json_body 0 none
    ∷ descriptor friend_request_withdraw_request "friend_request_withdraw_request" Direction.request
        ConnectionStates.only_authenticated "" max_json_body 5000
        (some friend_request_withdraw_response)
    ∷ descriptor friend_request_withdraw_response "friend_request_withdraw_response"
        Direction.response ConnectionStates.only_authenticated "" max_json_body 0 none
    ∷ descriptor friend_delete_request "friend_delete_request" Direction.request
        ConnectionStates.only_authenticated "" max_json_body 5000 (some friend_delete_response)
    ∷ descriptor friend_delete_response "friend_delete_response" Direction.response
        ConnectionStates.only_authenticated "" max_json_body 0 none
    ∷ descriptor contact_list_request "contact_list_request" Direction.request
        ConnectionStates.only_authenticated "" max_json_body 10000 (some contact_list_response)
    ∷ descriptor contact_list_response "contact_list_response" Direction.response
        ConnectionStates.only_authenticated "" max_json_body 0 none
    ∷ descriptor message_send_request "message_send_request" Direction.request
        ConnectionStates.only_authenticated "text_v1" max_json_body 5000
        (some message_send_response)
    ∷ descriptor message_send_response "message_send_response" Direction.response
        ConnectionStates.only_authenticated "text_v1" max_json_body 0 none
    ∷ descriptor delivery_progress_request "delivery_progress_request" Direction.request
        ConnectionStates.only_authenticated "" max_json_body 5000 (some delivery_progress_response)
    ∷ descriptor delivery_progress_response "delivery_progress_response" Direction.response
        ConnectionStates.only_authenticated "" max_json_body 0 none
    ∷ descriptor conversation_list_request "conversation_list_request" Direction.request
        ConnectionStates.only_authenticated "" max_json_body 10000 (some conversation_list_response)
    ∷ descriptor conversation_list_response "conversation_list_response" Direction.response
        ConnectionStates.only_authenticated "" max_json_body 0 none
    ∷ descriptor conversation_history_request "conversation_history_request" Direction.request
        ConnectionStates.only_authenticated "" max_json_body 10000
        (some conversation_history_response)
    ∷ descriptor conversation_history_response "conversation_history_response" Direction.response
        ConnectionStates.only_authenticated "" max_json_body 0 none
    ∷ descriptor conversation_read_request "conversation_read_request" Direction.request
        ConnectionStates.only_authenticated "" max_json_body 5000 (some conversation_read_response)
    ∷ descriptor conversation_read_response "conversation_read_response" Direction.response
        ConnectionStates.only_authenticated "" max_json_body 0 none
    ∷ descriptor conversation_clear_request "conversation_clear_request" Direction.request
        ConnectionStates.only_authenticated "" max_json_body 5000 (some conversation_clear_response)
    ∷ descriptor conversation_clear_response "conversation_clear_response" Direction.response
        ConnectionStates.only_authenticated "" max_json_body 0 none
    ∷ descriptor session_terminated_push "session_terminated_push" Direction.push
        ConnectionStates.only_authenticated "" max_json_body 0 none
    ∷ descriptor profile_updated_push "profile_updated_push" Direction.push
        ConnectionStates.only_authenticated "" max_json_body 0 none
    ∷ descriptor friend_request_received_push "friend_request_received_push" Direction.push
        ConnectionStates.only_authenticated "" max_json_body 0 none
    ∷ descriptor friendship_changed_push "friendship_changed_push" Direction.push
        ConnectionStates.only_authenticated "" max_json_body 0 none
    ∷ descriptor friend_request_changed_push "friend_request_changed_push" Direction.push
        ConnectionStates.only_authenticated "" max_json_body 0 none
    ∷ descriptor conversation_event_push "conversation_event_push" Direction.push
        ConnectionStates.only_authenticated "" max_json_body 0 none
    ∷ descriptor message_received_push "message_received_push" Direction.push
        ConnectionStates.only_authenticated "text_v1" max_json_body 0 none
    ∷ descriptor delivery_sync_complete_push "delivery_sync_complete_push" Direction.push
        ConnectionStates.only_authenticated "" max_json_body 0 none
    ∷ []
