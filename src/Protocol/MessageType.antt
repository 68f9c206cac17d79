-- ===== src/Protocol/MessageType.antt =====
-- common/protocol/MessageType.{h,cpp}.
use nebula_im.Base.{ℕ, ◌<◌, ◌≡◌, ◌≢◌, refl, Bool, true, false, ◌==◌, if◌then◌else◌, arith, not}

pub data MessageType : Type 0 where
  unknown : MessageType
  login_req login_resp register_req register_resp resume_session_req resume_session_resp :
      MessageType
  heartbeat_req heartbeat_resp : MessageType
  send_single_msg_req send_single_msg_resp send_group_msg_req send_group_msg_resp : MessageType
  push_msg ack_req ack_resp pull_offline_msg_req pull_offline_msg_resp error_resp : MessageType

-- The enumerators' values, which `static_cast<uint16_t>` gives.
unfoldable pub to_uint16 : MessageType → ℕ
to_uint16 unknown = 0
to_uint16 login_req = 1001
to_uint16 login_resp = 1002
to_uint16 register_req = 1003
to_uint16 register_resp = 1004
to_uint16 resume_session_req = 1005
to_uint16 resume_session_resp = 1006
to_uint16 heartbeat_req = 1101
to_uint16 heartbeat_resp = 1102
to_uint16 send_single_msg_req = 2001
to_uint16 send_single_msg_resp = 2002
to_uint16 send_group_msg_req = 2101
to_uint16 send_group_msg_resp = 2102
to_uint16 push_msg = 3001
to_uint16 ack_req = 4001
to_uint16 ack_resp = 4002
to_uint16 pull_offline_msg_req = 5001
to_uint16 pull_offline_msg_resp = 5002
to_uint16 error_resp = 9001

-- The `switch` of `messageTypeFromUint16`.
unfoldable pub message_type_from_uint16 : ℕ → MessageType
message_type_from_uint16 n =
    if n == 1001
    then login_req
    else if n == 1002
    then login_resp
    else if n == 1003
    then register_req
    else if n == 1004
    then register_resp
    else if n == 1005
    then resume_session_req
    else if n == 1006
    then resume_session_resp
    else if n == 1101
    then heartbeat_req
    else if n == 1102
    then heartbeat_resp
    else if n == 2001
    then send_single_msg_req
    else if n == 2002
    then send_single_msg_resp
    else if n == 2101
    then send_group_msg_req
    else if n == 2102
    then send_group_msg_resp
    else if n == 3001
    then push_msg
    else if n == 4001
    then ack_req
    else if n == 4002
    then ack_resp
    else if n == 5001
    then pull_offline_msg_req
    else if n == 5002
    then pull_offline_msg_resp
    else if n == 9001
    then error_resp
    else unknown

abbrev pub is_unknown : MessageType → Bool
is_unknown unknown = true
is_unknown _ = false

unfoldable pub is_valid_message_type : ℕ → Bool
is_valid_message_type n = not (is_unknown (message_type_from_uint16 n))

-- Reading back an enumerator's value gives the enumerator.
pub from-to_uint16 : (t : MessageType) → message_type_from_uint16 (to_uint16 t) ≡ t
unfolding message_type_from_uint16 to_uint16
from-to_uint16 unknown = refl
from-to_uint16 _ = refl

-- A number that isValidMessageType accepts is the value of the message type that
-- messageTypeFromUint16 reads it as.
pub to-from_uint16 :
    (n : ℕ) → is_valid_message_type n ≡ true → to_uint16 (message_type_from_uint16 n) ≡ n
unfolding message_type_from_uint16 to_uint16 is_valid_message_type
to-from_uint16 n h = ground arith

pub is_valid-to_uint16 :
    (t : MessageType) → t ≢ unknown → is_valid_message_type (to_uint16 t) ≡ true
unfolding is_valid_message_type
is_valid-to_uint16 t h = ground (arith, from-to_uint16 t)

pub to_uint16-lt : (t : MessageType) → to_uint16 t < 65536
unfolding to_uint16
to_uint16-lt unknown = omega arith
to_uint16-lt _ = omega arith
