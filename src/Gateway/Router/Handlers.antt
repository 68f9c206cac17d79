-- ===== src/Gateway/Router/Handlers.antt =====
-- common/gateway/GatewayRouter.cpp: the handlers, and `handlePacket` that chooses among them.
use nebula_im.Base.{not, ◌||◌, Option, none, some, [], if◌then◌else◌}
use nebula_im.Base.Keys.{Text, text}
use nebula_im.Fault.ErrorCode.{
  gateway_invalid_packet, gateway_not_authenticated, rate_limited, circuit_open,
  service_unavailable,
}
use nebula_im.Fault.CircuitBreaker.{manager_allow_request}
use nebula_im.Fault.RateLimiter.{TokenBucket, allow_login}
use nebula_im.Protocol.MessageType.{
  MessageType, login_req, register_req, resume_session_req, heartbeat_req, send_single_msg_req,
  send_group_msg_req, ack_req, pull_offline_msg_req,
}
use nebula_im.Gateway.ConnectionManager.{ConnectionContext, is_empty, get_context}
use nebula_im.Gateway.Router.{
  ResumeSessionRequest, UserCall, single_call, group_call, ack_call, pull_call, Parser, Job,
  register_job, login_job, resume_job, ok_body, heartbeat_reply, refresh_online, Router, Arrival,
  user_service, send_packet, touched, send_error, queue_online, submit, require_auth, parsed_call,
}

module _ {B : Type 0} (tokens : TokenBucket B) (parser : Parser) where
  open parser use {parse_register, parse_login, parse_resume, parse_call}

  -- A handler that only a logged-in connection gets through.
  unfoldable pub user_call : UserCall → Arrival → Router B → Router B
  user_call kind a g = elim (require_auth a g) [
    | none ↦
        send_error a.conn a.packet.sequence_id gateway_not_authenticated (text "not authenticated")
          [] g
    | some auth ↦ parsed_call tokens kind a auth (parse_call kind a.packet.body) g
  ]

  abbrev pub handle_send_single_message : Arrival → Router B → Router B
  handle_send_single_message = user_call single_call

  abbrev pub handle_send_group_message : Arrival → Router B → Router B
  handle_send_group_message = user_call group_call

  abbrev pub handle_ack : Arrival → Router B → Router B
  handle_ack = user_call ack_call

  abbrev pub handle_pull_offline_messages : Arrival → Router B → Router B
  handle_pull_offline_messages = user_call pull_call

  -- The circuit breaker's guard of `handleRegister` and `handleLogin`.
  unfoldable pub open_login : Arrival → Text → Job → Router B → Router B
  open_login a request_id job g =
      let (allowed, breakers) = manager_allow_request g.breakers user_service a.steady_ms in
      if allowed
      then submit a request_id job (record g { breakers = breakers })
      else send_error a.conn a.packet.sequence_id circuit_open (text "user service circuit open")
          request_id (record g { breakers = breakers })

  -- Both their guards, with the text for a refusal by the rate limiter.
  unfoldable pub limited_login : Text → Arrival → Text → Job → Router B → Router B
  unfolding open_login
  limited_login refusal a request_id job g =
      let (allowed, limiter) = allow_login tokens g.limiter a.ip a.seconds in
      if allowed
      then open_login a request_id job (record g { limiter = limiter })
      else send_error a.conn a.packet.sequence_id rate_limited refusal request_id
          (record g { limiter = limiter })

  unfoldable pub handle_register : Arrival → Router B → Router B
  unfolding limited_login
  handle_register a g =
      let (parsed, req) = parse_register a.packet.body in
      if parsed
      then limited_login (text "register rate limited") a req.request_id
          (register_job a.connection_id a.packet.sequence_id req) g
      else send_error a.conn a.packet.sequence_id gateway_invalid_packet (text "bad register body")
          [] g

  unfoldable pub handle_login : Arrival → Router B → Router B
  unfolding limited_login
  handle_login a g =
      let (parsed, req) = parse_login a.packet.body in
      if parsed
      then limited_login (text "login rate limited") a req.request_id
          (login_job a.connection_id a.packet.sequence_id req) g
      else send_error a.conn a.packet.sequence_id gateway_invalid_packet (text "bad login body") []
          g

  unfoldable pub open_resume : Arrival → ResumeSessionRequest → Router B → Router B
  open_resume a req g =
      let (allowed, breakers) = manager_allow_request g.breakers user_service a.steady_ms in
      if not allowed || not g.has_executor
      then send_error a.conn a.packet.sequence_id service_unavailable
          (text "user service unavailable") req.request_id (record g { breakers = breakers })
      else submit a req.request_id (resume_job a.connection_id a.packet.sequence_id req)
          (record g { breakers = breakers })

  unfoldable pub handle_resume_session : Arrival → Router B → Router B
  unfolding open_resume
  handle_resume_session a g =
      let (parsed, req) = parse_resume a.packet.body in
      if not parsed || (is_empty req.token || is_empty req.device_id)
      then send_error a.conn a.packet.sequence_id gateway_invalid_packet
          (text "invalid resume session request") req.request_id g
      else (let (allowed, limiter) = allow_login tokens g.limiter a.ip a.seconds in
          if allowed
          then open_resume a req (record g { limiter = limiter })
          else send_error a.conn a.packet.sequence_id rate_limited
              (text "session resume rate limited") req.request_id (record g { limiter = limiter }))

  unfoldable pub refreshed : Arrival → Option ConnectionContext → Router B → Router B
  refreshed a none g = g
  refreshed a (some ctx) g =
      if ctx.authenticated
      then queue_online (refresh_online ctx.user_id ctx.device_id a.connection_id) g
      else g

  unfoldable pub handle_heartbeat : Arrival → Router B → Router B
  unfolding refreshed
  handle_heartbeat a g =
      send_packet a.conn (heartbeat_reply a.packet.sequence_id ok_body)
        (refreshed a (get_context g.manager a.connection_id) g)

  unfoldable pub dispatch : MessageType → Arrival → Router B → Router B
  dispatch register_req = handle_register
  dispatch login_req = handle_login
  dispatch resume_session_req = handle_resume_session
  dispatch heartbeat_req = handle_heartbeat
  dispatch send_single_msg_req = handle_send_single_message
  dispatch send_group_msg_req = handle_send_group_message
  dispatch ack_req = handle_ack
  dispatch pull_offline_msg_req = handle_pull_offline_messages
  dispatch _ = λ a g.
      send_error a.conn a.packet.sequence_id gateway_invalid_packet (text "unsupported packet") [] g

  unfoldable pub handle_packet : Arrival → Router B → Router B
  unfolding dispatch
  handle_packet a g = dispatch a.packet.type a (touched a g)
