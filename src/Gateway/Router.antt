-- ===== src/Gateway/Router.antt =====
-- common/gateway/GatewayRouter.{h,cpp}: what the router does with a packet, up to the job that it
-- submits to the RPC executor. Protobuf's parsing is given; a `TcpConnectionPtr` is a number, as in
-- the connection manager. `outbox` lists the packets handed to the sender, `jobs` the jobs that
-- were submitted, `online_tasks` the tasks queued at the online manager,
-- and `force_closed` the connections that `bindUser` closes.
pub mod Handlers
pub mod Outcome
pub mod Completion
pub mod Settled
pub mod Opening
pub mod Runs
use nebula_im.Base.{
  ℕ, Bool, true, false, not, ◌||◌, Option, none, some, List, [], ◌∷◌, ◌++◌, ◌==◌, if◌then◌else◌,
}
use nebula_im.Base.Keys.{Text, text}
use nebula_im.Fault.ErrorCode.{
  ErrorCode, gateway_invalid_packet, gateway_not_authenticated, gateway_permission_denied,
  rate_limited, circuit_open, service_unavailable,
}
use nebula_im.Fault.CircuitBreaker.{Breakers, manager_allow_request}
use nebula_im.Fault.RateLimiter.{TokenBucket, RateLimiter, allow_login, allow_message}
use nebula_im.Protocol.MessageType.{
  MessageType, login_req, register_req, resume_session_req, heartbeat_req, send_single_msg_req,
  send_group_msg_req, ack_req, pull_offline_msg_req,
}
use nebula_im.Protocol.Codec.{Packet}
use nebula_im.Gateway.ConnectionManager.{
  ConnectionManager, ConnectionContext, is_empty, update_active_time, get_context,
}

pub record LoginRequest : Type 0 where
  pub request_id : Text
  pub device_id : Text
  pub platform : Text
  pub rest : List ℕ

pub record ResumeSessionRequest : Type 0 where
  pub request_id : Text
  pub token : Text
  pub device_id : Text
  pub platform : Text

-- The requests that a user makes of the message service. `user_id` is `from_user_id` of the two
-- that send, and `rest` stands for the fields that the router does not read.
pub data UserCall : Type 0 where
  single_call : UserCall
  group_call : UserCall
  ack_call : UserCall
  pull_call : UserCall

pub record UserRequest : Type 0 where
  pub request_id : Text
  pub user_id : ℕ
  pub rest : List ℕ

-- `parseBody`: whether it succeeded, and what it left in the message.
pub record Parser : Type 0 where
  pub parse_register : List ℕ → Bool × LoginRequest
  pub parse_login : List ℕ → Bool × LoginRequest
  pub parse_resume : List ℕ → Bool × ResumeSessionRequest
  pub parse_call : UserCall → List ℕ → Bool × UserRequest

-- What a job needs to run and to answer.
pub data Job : Type 0 where
  register_job : Text → ℕ → LoginRequest → Job
  login_job : Text → ℕ → LoginRequest → Job
  resume_job : Text → ℕ → ResumeSessionRequest → Job
  call_job : UserCall → Text → ℕ → UserRequest → Job

-- The fields of the answers to a login or a resumed session that the router reads or sets.
pub record SessionResponse : Type 0 where
  pub code : ℕ
  pub message : Text
  pub request_id : Text
  pub user_id : ℕ
  pub token : Text

-- What a response carries: an error, or the backend's answer, whose bytes are not looked into.
pub data Body : Type 0 where
  error_body : ErrorCode → Text → Text → Body
  ok_body : Body
  backend_body : List ℕ → Body
  session_body : SessionResponse → Body

pub data Reply : Type 0 where
  error_reply : ℕ → Body → Reply
  heartbeat_reply : ℕ → Body → Reply
  register_reply : ℕ → Body → Reply
  login_reply : ℕ → Body → Reply
  resume_reply : ℕ → Body → Reply
  call_reply : UserCall → ℕ → Body → Reply

pub data OnlineTask : Type 0 where
  refresh_online : ℕ → Text → Text → OnlineTask
  set_offline : ℕ → Text → Text → OnlineTask

pub record Router (B : Type 0) : Type 0 where
  pub manager : ConnectionManager
  pub limiter : RateLimiter B
  pub breakers : Breakers
  pub has_executor : Bool
  pub outbox : List (ℕ × Reply)
  pub jobs : List Job
  pub online_tasks : List OnlineTask
  pub force_closed : List ℕ

-- A packet's connection and its address, and the times that its handling reads: of the wall
-- clock in ms, and of the steady clock in s and ms.
pub record Arrival : Type 0 where
  pub conn : ℕ
  pub ip : Text
  pub connection_id : Text
  pub packet : Packet
  pub now_ms : ℕ
  pub seconds : ℕ
  pub steady_ms : ℕ

abbrev pub user_service : Text
user_service = text "user_service"

abbrev pub message_service : Text
message_service = text "message_service"

-- Which handlers ask the rate limiter for messages.
abbrev pub is_limited : UserCall → Bool
is_limited single_call = true
is_limited group_call = true
is_limited _ = false

abbrev pub bad_body : UserCall → Text
bad_body single_call = text "bad single body"
bad_body group_call = text "bad group body"
bad_body ack_call = text "bad ack body"
bad_body pull_call = text "bad pull body"

-- `if (req.user_id() == 0) req.set_user_id(auth->user_id);`
abbrev pub filled_in : ConnectionContext → UserRequest → UserRequest
filled_in auth req = record req { user_id = if req.user_id == 0 then auth.user_id else req.user_id }

module _ {B : Type 0} where
  -- The packet's time is its connection's last activity.
  abbrev pub touched : Arrival → Router B → Router B
  touched a g = record g { manager = (update_active_time g.manager a.connection_id a.now_ms).1 }

  abbrev pub send_packet : ℕ → Reply → Router B → Router B
  send_packet conn reply g = record g { outbox = g.outbox ++ ((conn, reply) ∷ []) }

  unfoldable pub send_error : ℕ → ℕ → ErrorCode → Text → Text → Router B → Router B
  send_error conn sequence_id code message request_id g =
      send_packet conn (error_reply sequence_id (error_body code message request_id)) g

  abbrev pub queue_online : OnlineTask → Router B → Router B
  queue_online t g = record g { online_tasks = g.online_tasks ++ (t ∷ []) }

  -- A handler's last part: the job, or an error where there is no executor.
  unfoldable pub submit : Arrival → Text → Job → Router B → Router B
  unfolding send_error
  submit a request_id job g =
      if g.has_executor
      then record g { jobs = g.jobs ++ (job ∷ []) }
      else send_error a.conn a.packet.sequence_id service_unavailable
          (text "gateway rpc executor unavailable") request_id g

  -- The user that the connection is logged in as.
  unfoldable pub require_auth : Arrival → Router B → Option ConnectionContext
  require_auth a g = elim (get_context g.manager a.connection_id) [
    | none ↦ none
    | some ctx ↦ if ctx.authenticated then some ctx else none
  ]

  unfoldable pub open_call : UserCall → Arrival → UserRequest → Router B → Router B
  unfolding submit send_error
  open_call kind a req g =
      let (allowed, breakers) = manager_allow_request g.breakers message_service a.steady_ms in
      if allowed
      then submit a req.request_id (call_job kind a.connection_id a.packet.sequence_id req)
          (record g { breakers = breakers })
      else send_error a.conn a.packet.sequence_id circuit_open (text "message service circuit open")
          req.request_id (record g { breakers = breakers })

  module _ (tokens : TokenBucket B) where
    -- The rate limiter's answer for a message, where the handler asks it.
    abbrev pub message_allowed : UserCall → Arrival → ℕ → Router B → Bool × RateLimiter B
    message_allowed kind a user_id g =
        if is_limited kind
        then allow_message tokens g.limiter user_id a.seconds
        else (true, g.limiter)

    unfoldable pub limited_call :
        UserCall → Arrival → ConnectionContext → UserRequest → Router B → Router B
    unfolding open_call send_error
    limited_call kind a auth req g =
        let (allowed, limiter) = message_allowed kind a auth.user_id g in
        if allowed
        then open_call kind a req (record g { limiter = limiter })
        else send_error a.conn a.packet.sequence_id rate_limited (text "message rate limited")
            req.request_id (record g { limiter = limiter })

    unfoldable pub own_call :
        UserCall → Arrival → ConnectionContext → UserRequest → Router B → Router B
    unfolding limited_call send_error
    own_call kind a auth req g =
        if req.user_id == auth.user_id
        then limited_call kind a auth req g
        else send_error a.conn a.packet.sequence_id gateway_permission_denied
            (text "permission denied") req.request_id g

    unfoldable pub parsed_call :
        UserCall → Arrival → ConnectionContext → Bool × UserRequest → Router B → Router B
    unfolding own_call send_error
    parsed_call kind a auth (false, req) g =
        send_error a.conn a.packet.sequence_id gateway_invalid_packet (bad_body kind) [] g
    parsed_call kind a auth (true, req) g = own_call kind a auth (filled_in auth req) g
