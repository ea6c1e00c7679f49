-- ===== src/Protocol/Types.antt =====
-- `ProtocolType` of shared/include/chathub/contracts/protocol_descriptor.hpp. The enumeration has
-- the underlying type `uint8_t`, and `static_cast<ProtocolType>(byte)` makes a value of any byte, so
-- a value of it is modelled as its byte and each enumerator as a constant.
use chat_hub.Prelude.{ℕ}

abbrev pub ProtocolType : Type 0
ProtocolType = ℕ

abbrev pub protocol_error : ProtocolType
protocol_error = 0x01

abbrev pub heartbeat : ProtocolType
heartbeat = 0x02

abbrev pub hello_request : ProtocolType
hello_request = 0x04

abbrev pub hello_response : ProtocolType
hello_response = 0x05

abbrev pub register_prepare_request : ProtocolType
register_prepare_request = 0x10

abbrev pub register_prepare_response : ProtocolType
register_prepare_response = 0x11

abbrev pub register_finalize_request : ProtocolType
register_finalize_request = 0x12

abbrev pub register_finalize_response : ProtocolType
register_finalize_response = 0x13

abbrev pub login_request : ProtocolType
login_request = 0x14

abbrev pub login_response : ProtocolType
login_response = 0x15

abbrev pub session_resume_request : ProtocolType
session_resume_request = 0x16

abbrev pub session_resume_response : ProtocolType
session_resume_response = 0x17

abbrev pub password_reset_request : ProtocolType
password_reset_request = 0x18

abbrev pub password_reset_response : ProtocolType
password_reset_response = 0x19

abbrev pub logout_request : ProtocolType
logout_request = 0x1a

abbrev pub logout_response : ProtocolType
logout_response = 0x1b

abbrev pub profile_update_request : ProtocolType
profile_update_request = 0x1c

abbrev pub profile_update_response : ProtocolType
profile_update_response = 0x1d

abbrev pub user_lookup_request : ProtocolType
user_lookup_request = 0x30

abbrev pub user_lookup_response : ProtocolType
user_lookup_response = 0x31

abbrev pub friend_request_create_request : ProtocolType
friend_request_create_request = 0x32

abbrev pub friend_request_create_response : ProtocolType
friend_request_create_response = 0x33

abbrev pub friend_request_list_request : ProtocolType
friend_request_list_request = 0x34

abbrev pub friend_request_list_response : ProtocolType
friend_request_list_response = 0x35

abbrev pub friend_request_accept_request : ProtocolType
friend_request_accept_request = 0x36

abbrev pub friend_request_accept_response : ProtocolType
friend_request_accept_response = 0x37

abbrev pub friend_request_reject_request : ProtocolType
friend_request_reject_request = 0x38

abbrev pub friend_request_reject_response : ProtocolType
friend_request_reject_response = 0x39

abbrev pub friend_request_withdraw_request : ProtocolType
friend_request_withdraw_request = 0x3a

abbrev pub friend_request_withdraw_response : ProtocolType
friend_request_withdraw_response = 0x3b

abbrev pub friend_delete_request : ProtocolType
friend_delete_request = 0x3c

abbrev pub friend_delete_response : ProtocolType
friend_delete_response = 0x3d

abbrev pub contact_list_request : ProtocolType
contact_list_request = 0x3e

abbrev pub contact_list_response : ProtocolType
contact_list_response = 0x3f

abbrev pub message_send_request : ProtocolType
message_send_request = 0x50

abbrev pub message_send_response : ProtocolType
message_send_response = 0x51

abbrev pub delivery_progress_request : ProtocolType
delivery_progress_request = 0x52

abbrev pub delivery_progress_response : ProtocolType
delivery_progress_response = 0x53

abbrev pub conversation_list_request : ProtocolType
conversation_list_request = 0x54

abbrev pub conversation_list_response : ProtocolType
conversation_list_response = 0x55

abbrev pub conversation_history_request : ProtocolType
conversation_history_request = 0x56

abbrev pub conversation_history_response : ProtocolType
conversation_history_response = 0x57

abbrev pub conversation_read_request : ProtocolType
conversation_read_request = 0x58

abbrev pub conversation_read_response : ProtocolType
conversation_read_response = 0x59

abbrev pub conversation_clear_request : ProtocolType
conversation_clear_request = 0x5a

abbrev pub conversation_clear_response : ProtocolType
conversation_clear_response = 0x5b

abbrev pub session_terminated_push : ProtocolType
session_terminated_push = 0x80

abbrev pub profile_updated_push : ProtocolType
profile_updated_push = 0x81

abbrev pub friend_request_received_push : ProtocolType
friend_request_received_push = 0x82

abbrev pub friendship_changed_push : ProtocolType
friendship_changed_push = 0x83

abbrev pub friend_request_changed_push : ProtocolType
friend_request_changed_push = 0x84

abbrev pub conversation_event_push : ProtocolType
conversation_event_push = 0x85

abbrev pub message_received_push : ProtocolType
message_received_push = 0x86

abbrev pub delivery_sync_complete_push : ProtocolType
delivery_sync_complete_push = 0x87
