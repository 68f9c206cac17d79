-- ===== src/Fault/ErrorCode.antt =====
-- common/error/ErrorCode.{h,cpp}: the error codes, their numbers and their names.
use nebula_im.Base.{
  ◌⊎◌, inl, inr, ℕ, ◌≡◌, refl, sym, ap, ◌∙◌, Option, none, some, List, [], ◌∷◌, ◌==◌, if◌then◌else◌,
}
use nebula_im.Base.Keys.{Text, text, text_beq}

pub data ErrorCode : Type 0 where
  ok : ErrorCode
  unknown_error : ErrorCode
  invalid_argument : ErrorCode
  config_load_failed : ErrorCode
  internal_error : ErrorCode
  network_error : ErrorCode
  connection_closed : ErrorCode
  packet_invalid : ErrorCode
  packet_too_large : ErrorCode
  auth_failed : ErrorCode
  token_invalid : ErrorCode
  user_not_found : ErrorCode
  user_already_exists : ErrorCode
  password_too_short : ErrorCode
  username_empty : ErrorCode
  password_empty : ErrorCode
  token_expired : ErrorCode
  db_error : ErrorCode
  redis_error : ErrorCode
  kafka_error : ErrorCode
  friend_already_exists : ErrorCode
  friend_not_found : ErrorCode
  cannot_add_self : ErrorCode
  group_not_found : ErrorCode
  group_already_joined : ErrorCode
  group_not_member : ErrorCode
  group_owner_cannot_leave : ErrorCode
  group_permission_denied : ErrorCode
  message_empty : ErrorCode
  message_too_large : ErrorCode
  message_not_found : ErrorCode
  message_duplicated : ErrorCode
  message_persist_failed : ErrorCode
  message_kafka_failed : ErrorCode
  message_ack_failed : ErrorCode
  message_permission_denied : ErrorCode
  invalid_conversation : ErrorCode
  push_failed : ErrorCode
  push_gateway_not_found : ErrorCode
  push_gateway_rpc_failed : ErrorCode
  push_offline_save_failed : ErrorCode
  push_retry_failed : ErrorCode
  push_dlq_failed : ErrorCode
  push_invalid_message : ErrorCode
  gateway_not_authenticated : ErrorCode
  gateway_already_authenticated : ErrorCode
  gateway_invalid_packet : ErrorCode
  gateway_backend_rpc_failed : ErrorCode
  gateway_connection_not_found : ErrorCode
  gateway_online_state_failed : ErrorCode
  gateway_permission_denied : ErrorCode
  gateway_heartbeat_timeout : ErrorCode
  rate_limited : ErrorCode
  service_unavailable : ErrorCode
  circuit_open : ErrorCode
  friend_request_not_found : ErrorCode
  friend_request_already_exists : ErrorCode
  friend_request_already_handled : ErrorCode
  conversation_not_found : ErrorCode
  message_recall_timeout : ErrorCode
  message_recall_permission_denied : ErrorCode
  message_already_recalled : ErrorCode
  device_not_found : ErrorCode
  token_refresh_failed : ErrorCode
  outbox_event_not_found : ErrorCode
  outbox_publish_failed : ErrorCode

unfoldable pub to_int : ErrorCode → ℕ
to_int ok = 0
to_int unknown_error = 1000
to_int invalid_argument = 1001
to_int config_load_failed = 1002
to_int internal_error = 1003
to_int network_error = 2000
to_int connection_closed = 2001
to_int packet_invalid = 2002
to_int packet_too_large = 2003
to_int auth_failed = 3000
to_int token_invalid = 3001
to_int user_not_found = 3002
to_int user_already_exists = 3003
to_int password_too_short = 3004
to_int username_empty = 3005
to_int password_empty = 3006
to_int token_expired = 3007
to_int db_error = 4000
to_int redis_error = 5000
to_int kafka_error = 6000
to_int friend_already_exists = 7001
to_int friend_not_found = 7002
to_int cannot_add_self = 7003
to_int group_not_found = 7101
to_int group_already_joined = 7102
to_int group_not_member = 7103
to_int group_owner_cannot_leave = 7104
to_int group_permission_denied = 7105
to_int message_empty = 8001
to_int message_too_large = 8002
to_int message_not_found = 8003
to_int message_duplicated = 8004
to_int message_persist_failed = 8005
to_int message_kafka_failed = 8006
to_int message_ack_failed = 8007
to_int message_permission_denied = 8008
to_int invalid_conversation = 8009
to_int push_failed = 9001
to_int push_gateway_not_found = 9002
to_int push_gateway_rpc_failed = 9003
to_int push_offline_save_failed = 9004
to_int push_retry_failed = 9005
to_int push_dlq_failed = 9006
to_int push_invalid_message = 9007
to_int gateway_not_authenticated = 10001
to_int gateway_already_authenticated = 10002
to_int gateway_invalid_packet = 10003
to_int gateway_backend_rpc_failed = 10004
to_int gateway_connection_not_found = 10005
to_int gateway_online_state_failed = 10006
to_int gateway_permission_denied = 10007
to_int gateway_heartbeat_timeout = 10008
to_int rate_limited = 11001
to_int service_unavailable = 11002
to_int circuit_open = 11003
to_int friend_request_not_found = 12001
to_int friend_request_already_exists = 12002
to_int friend_request_already_handled = 12003
to_int conversation_not_found = 13001
to_int message_recall_timeout = 14001
to_int message_recall_permission_denied = 14002
to_int message_already_recalled = 14003
to_int device_not_found = 15001
to_int token_refresh_failed = 15002
to_int outbox_event_not_found = 16001
to_int outbox_publish_failed = 16002

unfoldable pub error_code_to_string : ErrorCode → Text
error_code_to_string ok = text "OK"
error_code_to_string unknown_error = text "UNKNOWN_ERROR"
error_code_to_string invalid_argument = text "INVALID_ARGUMENT"
error_code_to_string config_load_failed = text "CONFIG_LOAD_FAILED"
error_code_to_string internal_error = text "INTERNAL_ERROR"
error_code_to_string network_error = text "NETWORK_ERROR"
error_code_to_string connection_closed = text "CONNECTION_CLOSED"
error_code_to_string packet_invalid = text "PACKET_INVALID"
error_code_to_string packet_too_large = text "PACKET_TOO_LARGE"
error_code_to_string auth_failed = text "AUTH_FAILED"
error_code_to_string token_invalid = text "TOKEN_INVALID"
error_code_to_string user_not_found = text "USER_NOT_FOUND"
error_code_to_string user_already_exists = text "USER_ALREADY_EXISTS"
error_code_to_string password_too_short = text "PASSWORD_TOO_SHORT"
error_code_to_string username_empty = text "USERNAME_EMPTY"
error_code_to_string password_empty = text "PASSWORD_EMPTY"
error_code_to_string token_expired = text "TOKEN_EXPIRED"
error_code_to_string db_error = text "DB_ERROR"
error_code_to_string redis_error = text "REDIS_ERROR"
error_code_to_string kafka_error = text "KAFKA_ERROR"
error_code_to_string friend_already_exists = text "FRIEND_ALREADY_EXISTS"
error_code_to_string friend_not_found = text "FRIEND_NOT_FOUND"
error_code_to_string cannot_add_self = text "CANNOT_ADD_SELF"
error_code_to_string group_not_found = text "GROUP_NOT_FOUND"
error_code_to_string group_already_joined = text "GROUP_ALREADY_JOINED"
error_code_to_string group_not_member = text "GROUP_NOT_MEMBER"
error_code_to_string group_owner_cannot_leave = text "GROUP_OWNER_CANNOT_LEAVE"
error_code_to_string group_permission_denied = text "GROUP_PERMISSION_DENIED"
error_code_to_string message_empty = text "MESSAGE_EMPTY"
error_code_to_string message_too_large = text "MESSAGE_TOO_LARGE"
error_code_to_string message_not_found = text "MESSAGE_NOT_FOUND"
error_code_to_string message_duplicated = text "MESSAGE_DUPLICATED"
error_code_to_string message_persist_failed = text "MESSAGE_PERSIST_FAILED"
error_code_to_string message_kafka_failed = text "MESSAGE_KAFKA_FAILED"
error_code_to_string message_ack_failed = text "MESSAGE_ACK_FAILED"
error_code_to_string message_permission_denied = text "MESSAGE_PERMISSION_DENIED"
error_code_to_string invalid_conversation = text "INVALID_CONVERSATION"
error_code_to_string push_failed = text "PUSH_FAILED"
error_code_to_string push_gateway_not_found = text "PUSH_GATEWAY_NOT_FOUND"
error_code_to_string push_gateway_rpc_failed = text "PUSH_GATEWAY_RPC_FAILED"
error_code_to_string push_offline_save_failed = text "PUSH_OFFLINE_SAVE_FAILED"
error_code_to_string push_retry_failed = text "PUSH_RETRY_FAILED"
error_code_to_string push_dlq_failed = text "PUSH_DLQ_FAILED"
error_code_to_string push_invalid_message = text "PUSH_INVALID_MESSAGE"
error_code_to_string gateway_not_authenticated = text "GATEWAY_NOT_AUTHENTICATED"
error_code_to_string gateway_already_authenticated = text "GATEWAY_ALREADY_AUTHENTICATED"
error_code_to_string gateway_invalid_packet = text "GATEWAY_INVALID_PACKET"
error_code_to_string gateway_backend_rpc_failed = text "GATEWAY_BACKEND_RPC_FAILED"
error_code_to_string gateway_connection_not_found = text "GATEWAY_CONNECTION_NOT_FOUND"
error_code_to_string gateway_online_state_failed = text "GATEWAY_ONLINE_STATE_FAILED"
error_code_to_string gateway_permission_denied = text "GATEWAY_PERMISSION_DENIED"
error_code_to_string gateway_heartbeat_timeout = text "GATEWAY_HEARTBEAT_TIMEOUT"
error_code_to_string rate_limited = text "RATE_LIMITED"
error_code_to_string service_unavailable = text "SERVICE_UNAVAILABLE"
error_code_to_string circuit_open = text "CIRCUIT_OPEN"
error_code_to_string friend_request_not_found = text "FRIEND_REQUEST_NOT_FOUND"
error_code_to_string friend_request_already_exists = text "FRIEND_REQUEST_ALREADY_EXISTS"
error_code_to_string friend_request_already_handled = text "FRIEND_REQUEST_ALREADY_HANDLED"
error_code_to_string conversation_not_found = text "CONVERSATION_NOT_FOUND"
error_code_to_string message_recall_timeout = text "MESSAGE_RECALL_TIMEOUT"
error_code_to_string message_recall_permission_denied = text "MESSAGE_RECALL_PERMISSION_DENIED"
error_code_to_string message_already_recalled = text "MESSAGE_ALREADY_RECALLED"
error_code_to_string device_not_found = text "DEVICE_NOT_FOUND"
error_code_to_string token_refresh_failed = text "TOKEN_REFRESH_FAILED"
error_code_to_string outbox_event_not_found = text "OUTBOX_EVENT_NOT_FOUND"
error_code_to_string outbox_publish_failed = text "OUTBOX_PUBLISH_FAILED"

abbrev all_codes : List ErrorCode
all_codes =
    ok ∷ unknown_error ∷ invalid_argument ∷ config_load_failed ∷ internal_error ∷ network_error
    ∷ connection_closed ∷ packet_invalid ∷ packet_too_large ∷ auth_failed ∷ token_invalid
    ∷ user_not_found ∷ user_already_exists ∷ password_too_short ∷ username_empty ∷ password_empty
    ∷ token_expired ∷ db_error ∷ redis_error ∷ kafka_error ∷ friend_already_exists
    ∷ friend_not_found ∷ cannot_add_self ∷ group_not_found ∷ group_already_joined ∷ group_not_member
    ∷ group_owner_cannot_leave ∷ group_permission_denied ∷ message_empty ∷ message_too_large
    ∷ message_not_found ∷ message_duplicated ∷ message_persist_failed ∷ message_kafka_failed
    ∷ message_ack_failed ∷ message_permission_denied ∷ invalid_conversation ∷ push_failed
    ∷ push_gateway_not_found ∷ push_gateway_rpc_failed ∷ push_offline_save_failed
    ∷ push_retry_failed ∷ push_dlq_failed ∷ push_invalid_message ∷ gateway_not_authenticated
    ∷ gateway_already_authenticated ∷ gateway_invalid_packet ∷ gateway_backend_rpc_failed
    ∷ gateway_connection_not_found ∷ gateway_online_state_failed ∷ gateway_permission_denied
    ∷ gateway_heartbeat_timeout ∷ rate_limited ∷ service_unavailable ∷ circuit_open
    ∷ friend_request_not_found ∷ friend_request_already_exists ∷ friend_request_already_handled
    ∷ conversation_not_found ∷ message_recall_timeout ∷ message_recall_permission_denied
    ∷ message_already_recalled ∷ device_not_found ∷ token_refresh_failed ∷ outbox_event_not_found
    ∷ outbox_publish_failed ∷ []

unfoldable numbered : ℕ → List ErrorCode → Option ErrorCode
numbered n [] = none
numbered n (c ∷ cs) = if to_int c == n then some c else numbered n cs

unfoldable named : Text → List ErrorCode → Option ErrorCode
named t [] = none
named t (c ∷ cs) = if text_beq (error_code_to_string c) t then some c else named t cs

numbered-to_int : (c : ErrorCode) → numbered (to_int c) all_codes ≡ some c
unfolding numbered to_int
numbered-to_int ok = refl
numbered-to_int unknown_error = refl
numbered-to_int invalid_argument = refl
numbered-to_int config_load_failed = refl
numbered-to_int internal_error = refl
numbered-to_int network_error = refl
numbered-to_int connection_closed = refl
numbered-to_int packet_invalid = refl
numbered-to_int packet_too_large = refl
numbered-to_int auth_failed = refl
numbered-to_int token_invalid = refl
numbered-to_int user_not_found = refl
numbered-to_int user_already_exists = refl
numbered-to_int password_too_short = refl
numbered-to_int username_empty = refl
numbered-to_int password_empty = refl
numbered-to_int token_expired = refl
numbered-to_int db_error = refl
numbered-to_int redis_error = refl
numbered-to_int kafka_error = refl
numbered-to_int friend_already_exists = refl
numbered-to_int friend_not_found = refl
numbered-to_int cannot_add_self = refl
numbered-to_int group_not_found = refl
numbered-to_int group_already_joined = refl
numbered-to_int group_not_member = refl
numbered-to_int group_owner_cannot_leave = refl
numbered-to_int group_permission_denied = refl
numbered-to_int message_empty = refl
numbered-to_int message_too_large = refl
numbered-to_int message_not_found = refl
numbered-to_int message_duplicated = refl
numbered-to_int message_persist_failed = refl
numbered-to_int message_kafka_failed = refl
numbered-to_int message_ack_failed = refl
numbered-to_int message_permission_denied = refl
numbered-to_int invalid_conversation = refl
numbered-to_int push_failed = refl
numbered-to_int push_gateway_not_found = refl
numbered-to_int push_gateway_rpc_failed = refl
numbered-to_int push_offline_save_failed = refl
numbered-to_int push_retry_failed = refl
numbered-to_int push_dlq_failed = refl
numbered-to_int push_invalid_message = refl
numbered-to_int gateway_not_authenticated = refl
numbered-to_int gateway_already_authenticated = refl
numbered-to_int gateway_invalid_packet = refl
numbered-to_int gateway_backend_rpc_failed = refl
numbered-to_int gateway_connection_not_found = refl
numbered-to_int gateway_online_state_failed = refl
numbered-to_int gateway_permission_denied = refl
numbered-to_int gateway_heartbeat_timeout = refl
numbered-to_int rate_limited = refl
numbered-to_int service_unavailable = refl
numbered-to_int circuit_open = refl
numbered-to_int friend_request_not_found = refl
numbered-to_int friend_request_already_exists = refl
numbered-to_int friend_request_already_handled = refl
numbered-to_int conversation_not_found = refl
numbered-to_int message_recall_timeout = refl
numbered-to_int message_recall_permission_denied = refl
numbered-to_int message_already_recalled = refl
numbered-to_int device_not_found = refl
numbered-to_int token_refresh_failed = refl
numbered-to_int outbox_event_not_found = refl
numbered-to_int outbox_publish_failed = refl

named-to_string : (c : ErrorCode) → named (error_code_to_string c) all_codes ≡ some c
unfolding named error_code_to_string
named-to_string ok = refl
named-to_string unknown_error = refl
named-to_string invalid_argument = refl
named-to_string config_load_failed = refl
named-to_string internal_error = refl
named-to_string network_error = refl
named-to_string connection_closed = refl
named-to_string packet_invalid = refl
named-to_string packet_too_large = refl
named-to_string auth_failed = refl
named-to_string token_invalid = refl
named-to_string user_not_found = refl
named-to_string user_already_exists = refl
named-to_string password_too_short = refl
named-to_string username_empty = refl
named-to_string password_empty = refl
named-to_string token_expired = refl
named-to_string db_error = refl
named-to_string redis_error = refl
named-to_string kafka_error = refl
named-to_string friend_already_exists = refl
named-to_string friend_not_found = refl
named-to_string cannot_add_self = refl
named-to_string group_not_found = refl
named-to_string group_already_joined = refl
named-to_string group_not_member = refl
named-to_string group_owner_cannot_leave = refl
named-to_string group_permission_denied = refl
named-to_string message_empty = refl
named-to_string message_too_large = refl
named-to_string message_not_found = refl
named-to_string message_duplicated = refl
named-to_string message_persist_failed = refl
named-to_string message_kafka_failed = refl
named-to_string message_ack_failed = refl
named-to_string message_permission_denied = refl
named-to_string invalid_conversation = refl
named-to_string push_failed = refl
named-to_string push_gateway_not_found = refl
named-to_string push_gateway_rpc_failed = refl
named-to_string push_offline_save_failed = refl
named-to_string push_retry_failed = refl
named-to_string push_dlq_failed = refl
named-to_string push_invalid_message = refl
named-to_string gateway_not_authenticated = refl
named-to_string gateway_already_authenticated = refl
named-to_string gateway_invalid_packet = refl
named-to_string gateway_backend_rpc_failed = refl
named-to_string gateway_connection_not_found = refl
named-to_string gateway_online_state_failed = refl
named-to_string gateway_permission_denied = refl
named-to_string gateway_heartbeat_timeout = refl
named-to_string rate_limited = refl
named-to_string service_unavailable = refl
named-to_string circuit_open = refl
named-to_string friend_request_not_found = refl
named-to_string friend_request_already_exists = refl
named-to_string friend_request_already_handled = refl
named-to_string conversation_not_found = refl
named-to_string message_recall_timeout = refl
named-to_string message_recall_permission_denied = refl
named-to_string message_already_recalled = refl
named-to_string device_not_found = refl
named-to_string token_refresh_failed = refl
named-to_string outbox_event_not_found = refl
named-to_string outbox_publish_failed = refl

some_cancel : {a b : ErrorCode} → some a ≡ some b → a ≡ b
some_cancel h = cc

-- Two error codes with the same number, or with the same name from errorCodeToString, are the
-- same code.
error_code_distinct :
    (a b : ErrorCode)
    → (to_int a ≡ to_int b) ⊎ (error_code_to_string a ≡ error_code_to_string b)
    → a ≡ b
error_code_distinct a b (inl h) =
    some_cancel (sym (numbered-to_int a) ∙ ap (λ n. numbered n all_codes) h ∙ numbered-to_int b)
error_code_distinct a b (inr h) =
    some_cancel (sym (named-to_string a) ∙ ap (λ t. named t all_codes) h ∙ named-to_string b)
