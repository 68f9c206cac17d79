-- ===== src/Gateway/Router/Outcome.antt =====
-- Every packet gets one reply at once, or becomes one job.
use nebula_im.Base.{
  ◌≡◌, refl, ap, Bool, true, false, not, ◌||◌, Option, none, some, [], ◌∷◌, ◌++◌, ◌==◌,
  if◌then◌else◌, ◌⊎◌, inl, inr, arith, Option-cases, Bool-cases, ==_iff,
}
use nebula_im.Base.Keys.{Text, text, text_eq}
use nebula_im.Base.Dict.{lookup}
use nebula_im.Fault.ErrorCode.{
  ErrorCode, gateway_invalid_packet, gateway_not_authenticated, gateway_permission_denied,
  rate_limited, circuit_open, service_unavailable,
}
use nebula_im.Fault.CircuitBreaker.{manager_allow_request}
use nebula_im.Fault.RateLimiter.{TokenBucket, allow_login}
use nebula_im.Protocol.MessageType.{
  MessageType, login_req, register_req, resume_session_req, heartbeat_req, send_single_msg_req,
  send_group_msg_req, ack_req, pull_offline_msg_req,
}
use nebula_im.Gateway.ConnectionManager.{
  ConnectionManager, ConnectionContext, is_empty, get_context,
}
use nebula_im.Gateway.Router.{
  ResumeSessionRequest, UserCall, UserRequest, Parser, Job, register_job, login_job, resume_job,
  call_job, Reply, heartbeat_reply, ok_body, Router, Arrival, single_call, group_call, ack_call,
  pull_call, user_service, message_service, bad_body, filled_in, message_allowed, touched,
  send_error, submit, require_auth, open_call, limited_call, own_call, parsed_call,
}
use nebula_im.Gateway.Router.Handlers.{
  user_call, open_login, limited_login, handle_register, handle_login, open_resume,
  handle_resume_session, refreshed, handle_heartbeat, dispatch, handle_packet,
}

-- A job is for the packet's connection and answers its sequence id; a call of the message
-- service is in the name of the user that the connection is logged in as.
abbrev pub Permitted : Arrival → ConnectionManager → Job → Type 0
Permitted a m (register_job c sequence_id req) =
    (c ≡ a.connection_id) × (sequence_id ≡ a.packet.sequence_id)
Permitted a m (login_job c sequence_id req) =
    (c ≡ a.connection_id) × (sequence_id ≡ a.packet.sequence_id)
Permitted a m (resume_job c sequence_id req) =
    (c ≡ a.connection_id) × (sequence_id ≡ a.packet.sequence_id)
Permitted a m (call_job kind c sequence_id req) =
    (c ≡ a.connection_id)
    × (sequence_id ≡ a.packet.sequence_id)
    × ((auth : ConnectionContext) × (lookup a.connection_id m.contexts ≡ some auth)
        × (auth.authenticated ≡ true)
        × (req.user_id ≡ auth.user_id))

module _ {B : Type 0} where
  -- One reply on the packet's connection, or one job; and never both.
  abbrev pub Outcome : Arrival → Router B → Router B → Type 0
  Outcome a g g' =
      (g'.manager ≡ g.manager)
      × (((r : Reply) × (g'.outbox ≡ g.outbox ++ ((a.conn, r) ∷ [])) × (g'.jobs ≡ g.jobs))
          ⊎ ((j : Job) × (g'.outbox ≡ g.outbox)
              × (g'.jobs ≡ g.jobs ++ (j ∷ []))
              × Permitted a g.manager j))

  send_error-Outcome :
      (a : Arrival) (code : ErrorCode) (message request_id : Text) (g : Router B)
      → Outcome a g (send_error a.conn a.packet.sequence_id code message request_id g)
  unfolding send_error
  send_error-Outcome a code message request_id g = (refl, inl (_, refl, refl))

  if-Outcome :
      (a : Arrival) (g : Router B) (b : Bool) (x y : Router B)
      → (b ≡ true → Outcome a g x)
      → Outcome a g y
      → Outcome a g (if b then x else y)
  if-Outcome a g true x y h k = h refl
  if-Outcome a g false x y h k = k

  submit-Outcome :
      (a : Arrival) (request_id : Text) (job : Job) (g : Router B)
      → Permitted a g.manager job
      → Outcome a g (submit a request_id job g)
  unfolding submit
  submit-Outcome a request_id job g h =
      if-Outcome a g g.has_executor _ _ (λ e. (refl, inr (job, refl, refl, h)))
        (send_error-Outcome a service_unavailable (text "gateway rpc executor unavailable")
          request_id g)

  open_call-Outcome :
      (kind : UserCall) (a : Arrival) (auth : ConnectionContext) (req : UserRequest) (g : Router B)
      → lookup a.connection_id g.manager.contexts ≡ some auth
      → auth.authenticated ≡ true
      → req.user_id ≡ auth.user_id
      → Outcome a g (open_call kind a req g)
  unfolding open_call
  open_call-Outcome kind a auth req g known logged_in own =
      let (allowed, breakers) = manager_allow_request g.breakers message_service a.steady_ms in
      if-Outcome a g allowed _ _
        (λ e.
          submit-Outcome a req.request_id (call_job kind a.connection_id a.packet.sequence_id req)
            (record g { breakers = breakers }) (refl, refl, (auth, known, logged_in, own)))
        (send_error-Outcome a circuit_open (text "message service circuit open") req.request_id
          (record g { breakers = breakers }))

  module _ (tokens : TokenBucket B) where
    own_call-Outcome :
        (kind : UserCall) (a : Arrival) (auth : ConnectionContext) (req : UserRequest)
        (g : Router B)
        → lookup a.connection_id g.manager.contexts ≡ some auth
        → auth.authenticated ≡ true
        → Outcome a g (own_call tokens kind a auth req g)
    unfolding own_call limited_call
    own_call-Outcome kind a auth req g known logged_in =
        let (allowed, limiter) = message_allowed tokens kind a auth.user_id g in
        if-Outcome a g (req.user_id == auth.user_id) _ _
          (λ own.
            if-Outcome a g allowed _ _
              (λ e.
                open_call-Outcome kind a auth req (record g { limiter = limiter }) known logged_in
                  ((==_iff req.user_id auth.user_id).0 own))
              (send_error-Outcome a rate_limited (text "message rate limited") req.request_id
                (record g { limiter = limiter })))
          (send_error-Outcome a gateway_permission_denied (text "permission denied") req.request_id
            g)

    parsed_call-Outcome :
        (kind : UserCall) (a : Arrival) (auth : ConnectionContext) (p : Bool × UserRequest)
        (g : Router B)
        → lookup a.connection_id g.manager.contexts ≡ some auth
        → auth.authenticated ≡ true
        → Outcome a g (parsed_call tokens kind a auth p g)
    unfolding parsed_call
    parsed_call-Outcome kind a auth (false, req) g known logged_in =
        send_error-Outcome a gateway_invalid_packet (bad_body kind) [] g
    parsed_call-Outcome kind a auth (true, req) g known logged_in =
        own_call-Outcome kind a auth (filled_in auth req) g known logged_in

-- What a login that is required gives.
require_auth-some :
    {B : Type 0} (a : Arrival) (g : Router B)
    → (require_auth a g ≡ none)
      ⊎ ((auth : ConnectionContext) × (require_auth a g ≡ some auth)
          × (lookup a.connection_id g.manager.contexts ≡ some auth)
          × (auth.authenticated ≡ true))
unfolding require_auth get_context
require_auth-some a g = elim (Option-cases (lookup a.connection_id g.manager.contexts)) [
  | inl absent ↦ inl (rw (absent, require_auth) refl)
  | inr (auth, present) ↦ elim (Bool-cases auth.authenticated) [
    | inl yes_ ↦ inr (auth, rw (present, yes_, require_auth) refl, present, yes_)
    | inr no_ ↦ inl (rw (present, no_, require_auth) refl)
  ]
]

module _ {B : Type 0} (tokens : TokenBucket B) (parser : Parser) where
  user_call-Outcome :
      (kind : UserCall) (a : Arrival) (g : Router B)
      → Outcome a g (user_call tokens parser kind a g)
  unfolding user_call
  user_call-Outcome kind a g = elim (require_auth-some a g) [
    | inl absent ↦
        rw (absent, user_call)
          (send_error-Outcome a gateway_not_authenticated (text "not authenticated") [] g)
    | inr (auth, e, known, logged_in) ↦
        rw (e, user_call)
          (parsed_call-Outcome tokens kind a auth (parser.parse_call kind a.packet.body) g known
            logged_in)
  ]

  open_login-Outcome :
      (a : Arrival) (request_id : Text) (job : Job) (g : Router B)
      → Permitted a g.manager job
      → Outcome a g (open_login tokens parser a request_id job g)
  unfolding open_login
  open_login-Outcome a request_id job g h =
      let (allowed, breakers) = manager_allow_request g.breakers user_service a.steady_ms in
      if-Outcome a g allowed _ _
        (λ e. submit-Outcome a request_id job (record g { breakers = breakers }) h)
        (send_error-Outcome a circuit_open (text "user service circuit open") request_id
          (record g { breakers = breakers }))

  limited_login-Outcome :
      (refusal : Text) (a : Arrival) (request_id : Text) (job : Job) (g : Router B)
      → Permitted a g.manager job
      → Outcome a g (limited_login tokens parser refusal a request_id job g)
  unfolding limited_login
  limited_login-Outcome refusal a request_id job g h =
      let (allowed, limiter) = allow_login tokens g.limiter a.ip a.seconds in
      if-Outcome a g allowed _ _
        (λ e. open_login-Outcome a request_id job (record g { limiter = limiter }) h)
        (send_error-Outcome a rate_limited refusal request_id (record g { limiter = limiter }))

  handle_register-Outcome :
      (a : Arrival) (g : Router B) → Outcome a g (handle_register tokens parser a g)
  unfolding handle_register
  handle_register-Outcome a g =
      let (parsed, req) = parser.parse_register a.packet.body in
      if-Outcome a g parsed _ _
        (λ e.
          limited_login-Outcome (text "register rate limited") a req.request_id
            (register_job a.connection_id a.packet.sequence_id req) g (refl, refl))
        (send_error-Outcome a gateway_invalid_packet (text "bad register body") [] g)

  handle_login-Outcome : (a : Arrival) (g : Router B) → Outcome a g (handle_login tokens parser a g)
  unfolding handle_login
  handle_login-Outcome a g =
      let (parsed, req) = parser.parse_login a.packet.body in
      if-Outcome a g parsed _ _
        (λ e.
          limited_login-Outcome (text "login rate limited") a req.request_id
            (login_job a.connection_id a.packet.sequence_id req) g (refl, refl))
        (send_error-Outcome a gateway_invalid_packet (text "bad login body") [] g)

  open_resume-Outcome :
      (a : Arrival) (req : ResumeSessionRequest) (g : Router B)
      → Outcome a g (open_resume tokens parser a req g)
  unfolding open_resume
  open_resume-Outcome a req g =
      let (allowed, breakers) = manager_allow_request g.breakers user_service a.steady_ms in
      if-Outcome a g (not allowed || not g.has_executor) _ _
        (λ e.
          send_error-Outcome a service_unavailable (text "user service unavailable") req.request_id
            (record g { breakers = breakers }))
        (submit-Outcome a req.request_id (resume_job a.connection_id a.packet.sequence_id req)
          (record g { breakers = breakers }) (refl, refl))

  handle_resume_session-Outcome :
      (a : Arrival) (g : Router B) → Outcome a g (handle_resume_session tokens parser a g)
  unfolding handle_resume_session
  handle_resume_session-Outcome a g =
      let (parsed, req) = parser.parse_resume a.packet.body in
      let (allowed, limiter) = allow_login tokens g.limiter a.ip a.seconds in
      if-Outcome a g (not parsed || (is_empty req.token || is_empty req.device_id)) _ _
        (λ e.
          send_error-Outcome a gateway_invalid_packet (text "invalid resume session request")
            req.request_id g)
        (if-Outcome a g allowed _ _
          (λ e. open_resume-Outcome a req (record g { limiter = limiter }))
          (send_error-Outcome a rate_limited (text "session resume rate limited") req.request_id
            (record g { limiter = limiter })))

  refreshed_same :
      (a : Arrival) (ctx : Option ConnectionContext) (g : Router B)
      → ((refreshed tokens parser a ctx g).outbox ≡ g.outbox)
        × ((refreshed tokens parser a ctx g).jobs ≡ g.jobs)
        × ((refreshed tokens parser a ctx g).manager ≡ g.manager)
  unfolding refreshed
  refreshed_same a none g = (refl, refl, refl)
  refreshed_same a (some ctx) g = ground arith

  handle_heartbeat-Outcome :
      (a : Arrival) (g : Router B) → Outcome a g (handle_heartbeat tokens parser a g)
  unfolding handle_heartbeat
  handle_heartbeat-Outcome a g =
      let reply = heartbeat_reply a.packet.sequence_id ok_body in
      let (out, jobs, manager) = refreshed_same a (get_context g.manager a.connection_id) g in
      (manager, inl (reply, ap (λ t. t ++ ((a.conn, reply) ∷ [])) out, jobs))

  dispatch-Outcome :
      (t : MessageType) (a : Arrival) (g : Router B) → Outcome a g (dispatch tokens parser t a g)
  unfolding dispatch
  dispatch-Outcome register_req a g = handle_register-Outcome a g
  dispatch-Outcome login_req a g = handle_login-Outcome a g
  dispatch-Outcome resume_session_req a g = handle_resume_session-Outcome a g
  dispatch-Outcome heartbeat_req a g = handle_heartbeat-Outcome a g
  dispatch-Outcome send_single_msg_req a g = user_call-Outcome single_call a g
  dispatch-Outcome send_group_msg_req a g = user_call-Outcome group_call a g
  dispatch-Outcome ack_req a g = user_call-Outcome ack_call a g
  dispatch-Outcome pull_offline_msg_req a g = user_call-Outcome pull_call a g
  dispatch-Outcome _ a g =
      send_error-Outcome a gateway_invalid_packet (text "unsupported packet") [] g

  -- Whatever a packet holds, handlePacket either sends exactly one reply on its connection
  -- and submits no job, or sends nothing and submits exactly one job for that connection and
  -- sequence id; a job that calls the message service is submitted only for a connection
  -- whose context is authenticated, and its request is in the name of that context's user.
  -- The connection manager changes only by the time of the connection.
  pub handle_packet-Outcome :
      (a : Arrival) (g : Router B) → Outcome a (touched a g) (handle_packet tokens parser a g)
  unfolding handle_packet
  handle_packet-Outcome a g = dispatch-Outcome a.packet.type a (touched a g)
