-- ===== src/Protocol/Names.antt =====
-- common/protocol: the names of message types and protocol errors, which go to logs and error replies.
use nebula_im.Base.{◌≡◌, refl, sym, ap, ◌∙◌, Option, none, some, List, [], ◌∷◌, if◌then◌else◌}
use nebula_im.Base.Keys.{Text, text, text_beq}
use nebula_im.Protocol.MessageType.{
  MessageType, unknown, login_req, login_resp, register_req, register_resp, resume_session_req,
  resume_session_resp, heartbeat_req, heartbeat_resp, send_single_msg_req, send_single_msg_resp,
  send_group_msg_req, send_group_msg_resp, push_msg, ack_req, ack_resp, pull_offline_msg_req,
  pull_offline_msg_resp, error_resp,
}
use nebula_im.Protocol.Codec.{
  ProtocolError, ok, incomplete_packet, invalid_magic, invalid_version, invalid_message_type,
  body_too_large, invalid_header, internal_error,
}

unfoldable pub message_type_to_string : MessageType → Text
message_type_to_string unknown = text "UNKNOWN"
message_type_to_string login_req = text "LOGIN_REQ"
message_type_to_string login_resp = text "LOGIN_RESP"
message_type_to_string register_req = text "REGISTER_REQ"
message_type_to_string register_resp = text "REGISTER_RESP"
message_type_to_string resume_session_req = text "RESUME_SESSION_REQ"
message_type_to_string resume_session_resp = text "RESUME_SESSION_RESP"
message_type_to_string heartbeat_req = text "HEARTBEAT_REQ"
message_type_to_string heartbeat_resp = text "HEARTBEAT_RESP"
message_type_to_string send_single_msg_req = text "SEND_SINGLE_MSG_REQ"
message_type_to_string send_single_msg_resp = text "SEND_SINGLE_MSG_RESP"
message_type_to_string send_group_msg_req = text "SEND_GROUP_MSG_REQ"
message_type_to_string send_group_msg_resp = text "SEND_GROUP_MSG_RESP"
message_type_to_string push_msg = text "PUSH_MSG"
message_type_to_string ack_req = text "ACK_REQ"
message_type_to_string ack_resp = text "ACK_RESP"
message_type_to_string pull_offline_msg_req = text "PULL_OFFLINE_MSG_REQ"
message_type_to_string pull_offline_msg_resp = text "PULL_OFFLINE_MSG_RESP"
message_type_to_string error_resp = text "ERROR_RESP"

unfoldable pub protocol_error_to_string : ProtocolError → Text
protocol_error_to_string ok = text "OK"
protocol_error_to_string incomplete_packet = text "INCOMPLETE_PACKET"
protocol_error_to_string invalid_magic = text "INVALID_MAGIC"
protocol_error_to_string invalid_version = text "INVALID_VERSION"
protocol_error_to_string invalid_message_type = text "INVALID_MESSAGE_TYPE"
protocol_error_to_string body_too_large = text "BODY_TOO_LARGE"
protocol_error_to_string invalid_header = text "INVALID_HEADER"
protocol_error_to_string internal_error = text "INTERNAL_ERROR"

-- The first of some values with a name.
unfoldable named : {A : Type 0} → (A → Text) → Text → List A → Option A
named name t [] = none
named name t (x ∷ xs) = if text_beq (name x) t then some x else named name t xs

abbrev all_types : List MessageType
all_types =
    unknown ∷ login_req ∷ login_resp ∷ register_req ∷ register_resp ∷ resume_session_req
    ∷ resume_session_resp ∷ heartbeat_req ∷ heartbeat_resp ∷ send_single_msg_req
    ∷ send_single_msg_resp ∷ send_group_msg_req ∷ send_group_msg_resp ∷ push_msg ∷ ack_req
    ∷ ack_resp ∷ pull_offline_msg_req ∷ pull_offline_msg_resp ∷ error_resp ∷ []

abbrev all_errors : List ProtocolError
all_errors =
    ok ∷ incomplete_packet ∷ invalid_magic ∷ invalid_version ∷ invalid_message_type ∷ body_too_large
    ∷ invalid_header ∷ internal_error ∷ []

type_named :
    (t : MessageType) → named message_type_to_string (message_type_to_string t) all_types ≡ some t
unfolding named message_type_to_string
type_named unknown = refl
type_named login_req = refl
type_named login_resp = refl
type_named register_req = refl
type_named register_resp = refl
type_named resume_session_req = refl
type_named resume_session_resp = refl
type_named heartbeat_req = refl
type_named heartbeat_resp = refl
type_named send_single_msg_req = refl
type_named send_single_msg_resp = refl
type_named send_group_msg_req = refl
type_named send_group_msg_resp = refl
type_named push_msg = refl
type_named ack_req = refl
type_named ack_resp = refl
type_named pull_offline_msg_req = refl
type_named pull_offline_msg_resp = refl
type_named error_resp = refl

error_named :
    (e : ProtocolError)
    → named protocol_error_to_string (protocol_error_to_string e) all_errors ≡ some e
unfolding named protocol_error_to_string
error_named ok = refl
error_named incomplete_packet = refl
error_named invalid_magic = refl
error_named invalid_version = refl
error_named invalid_message_type = refl
error_named body_too_large = refl
error_named invalid_header = refl
error_named internal_error = refl

some_cancel : {A : Type 0} {a b : A} → some a ≡ some b → a ≡ b
some_cancel h = cc

-- Two message types with the same name from messageTypeToString are the same.
message_type_names_distinct :
    (s t : MessageType) → message_type_to_string s ≡ message_type_to_string t → s ≡ t
message_type_names_distinct s t h =
    some_cancel
      (sym (type_named s) ∙ ap (λ n. named message_type_to_string n all_types) h ∙ type_named t)

-- Two protocol errors with the same name from protocolErrorToString are the same.
protocol_error_names_distinct :
    (d e : ProtocolError) → protocol_error_to_string d ≡ protocol_error_to_string e → d ≡ e
protocol_error_names_distinct d e h =
    some_cancel (
      sym (error_named d) ∙ ap (λ n. named protocol_error_to_string n all_errors) h ∙ error_named e)
