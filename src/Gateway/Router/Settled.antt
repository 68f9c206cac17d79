-- ===== src/Gateway/Router/Settled.antt =====
-- A session ends in one of two ways: its connection is logged in, or the user is set offline.
use nebula_im.Base.{
  ℕ, ◌≡◌, refl, sym, ap, ◌∙◌, subst, Bool, true, false, not, ◌&&◌, ◌||◌, Option, none, some, [],
  ◌∷◌, ◌++◌, ◌==◌, if◌then◌else◌, ◌⊎◌, inl, inr, arith, Option-cases, Bool-cases,
}
use nebula_im.Base.Keys.{Text, text_eq, beq_self}
use nebula_im.Base.Dict.{lookup, lookup-insert}
use nebula_im.Fault.ErrorCode.{to_int}
use nebula_im.Fault.CircuitBreaker.{Breakers}
use nebula_im.Gateway.ConnectionManager.{
  ConnectionManager, ConnectionContext, is_empty, bind_user, bind_context, bound_to,
}
use nebula_im.Gateway.Router.{
  LoginRequest, ResumeSessionRequest, SessionResponse, Body, Reply, login_reply, set_offline,
  Router, session_body, send_packet, queue_online,
}
use nebula_im.Gateway.Router.Completion.{
  Rpc, rpc_error, rpc_answer, ValidateTokenResponse, SessionResult, login_device, run_login,
  is_accepted, live_connection, closing, bound, bind_session, done_session, done_login,
}

-- The connection is logged in as the user, on the device.
abbrev pub LoggedIn : Text → ℕ → Text → ConnectionManager → Type 0
LoggedIn c user_id device m =
    (ctx : ConnectionContext) × (lookup c m.contexts ≡ some ctx)
    × (ctx.authenticated ≡ true)
    × (ctx.user_id ≡ user_id)
    × (ctx.device_id ≡ device)

abbrev Answered : Text → ℕ → Text → Bool × Option ℕ × ConnectionManager → Type 0
Answered c user_id device (true, replaced, m) = LoggedIn c user_id device m
Answered c user_id device (false, replaced, m) = Unit {0}

bind_user-Answered :
    (m : ConnectionManager) (c : Text) (user_id : ℕ) (token device platform : Text) (now : ℕ)
    → Answered c user_id device (bind_user m c user_id token device platform now)
unfolding bind_user bind_context
bind_user-Answered m c user_id token device platform now =
    elim (Bool-cases ((user_id == 0) || is_empty device)) [
      | inl bad ↦ rw (bad, bind_user) tt
      | inr good ↦ elim (Option-cases (lookup c m.contexts)) [
        | inl absent ↦ rw (good, absent, bind_user) tt
        | inr (ctx, present) ↦
            rw (good, present, bind_user)
              (
                bound_to ctx user_id token device platform now,
                lookup-insert c c (bound_to ctx user_id token device platform now) m.contexts
                    ∙ ap
                        (λ t.
                          if t
                          then some (bound_to ctx user_id token device platform now)
                          else lookup c m.contexts)
                        (beq_self c),
                refl,
                refl,
                refl,
              )
      ]
    ]

-- The backend accepts the login, and the user is set online.
abbrev pub login_opens : (ℕ → Text → Text → Bool) → Text → LoginRequest → Rpc SessionResponse → Bool
login_opens set_online c req (rpc_error message) = false
login_opens set_online c req (rpc_answer resp) =
    (resp.code == 0) && set_online resp.user_id (login_device c req) c

login_accepted :
    (set_online : ℕ → Text → Text → Bool) (c : Text) (req : LoginRequest) (now : ℕ)
    (answer : Rpc SessionResponse) (breakers : Breakers)
    → is_accepted (run_login set_online c req now answer breakers).0
      ≡ login_opens set_online c req answer
unfolding run_login to_int
login_accepted set_online c req now (rpc_error message) breakers = refl
login_accepted set_online c req now (rpc_answer resp) breakers = ground arith

-- The token is valid, and its user is set online.
abbrev pub resume_opens :
    (ℕ → Text → Text → Bool) → Text → ResumeSessionRequest → Rpc ValidateTokenResponse → Bool
resume_opens set_online c req (rpc_error message) = false
resume_opens set_online c req (rpc_answer v) =
    (v.code == 0) && (v.valid && (not (v.user_id == 0) && set_online v.user_id req.device_id c))

module _ {B : Type 0} where
  -- A session that is open leaves a connection that is logged in, or the task that sets the user
  -- offline; any other changes neither the connections nor the tasks.
  abbrev pub Settled : Bool → Text → ℕ → Text → Router B → Router B → Type 0
  Settled true c user_id device g g' =
      (LoggedIn c user_id device g'.manager × (g'.online_tasks ≡ g.online_tasks))
      ⊎ ((g'.manager ≡ g.manager)
          × (g'.online_tasks ≡ g.online_tasks ++ (set_offline user_id device c ∷ [])))
  Settled false c user_id device g g' =
      (g'.manager ≡ g.manager) × (g'.online_tasks ≡ g.online_tasks)

  closing_same :
      (replaced : Option ℕ) (g : Router B)
      → ((closing replaced g).manager ≡ g.manager)
        × ((closing replaced g).online_tasks ≡ g.online_tasks)
  closing_same none g = (refl, refl)
  closing_same (some conn) g = (refl, refl)

  module _ (is_connected : ℕ → Bool) where
    bound-Settled :
        (user_id : ℕ) (device c : Text) (resp : SessionResponse)
        (x : Bool × Option ℕ × ConnectionManager) (g : Router B)
        → Answered c user_id device x
        → Settled true c user_id device g (bound user_id device c resp x g).1
    unfolding bound
    bound-Settled user_id device c resp (true, replaced, m) g h =
        let (same, tasks) = closing_same replaced (record g { manager = m }) in
        inl (subst (LoggedIn c user_id device) (sym same) h, tasks)
    bound-Settled user_id device c resp (false, replaced, m) g h = inr (refl, refl)

    bind_session-Settled :
        (token device platform c : Text) (now : ℕ) (r : SessionResult) (g : Router B)
        → Settled
            (is_accepted r)
            c
            r.resp.user_id
            device
            g
            (bind_session token device platform c now r g).1
    unfolding bind_session
    bind_session-Settled token device platform c now r g = elim (Bool-cases (is_accepted r)) [
      | inl yes_ ↦
          rw (yes_, bind_session)
            (bound-Settled r.resp.user_id device c r.resp
              (bind_user g.manager c r.resp.user_id token device platform now) g
              (bind_user-Answered g.manager c r.resp.user_id token device platform now))
      | inr no_ ↦ rw (no_, bind_session) (refl, refl)
    ]

    undone-Settled :
        (b : Bool) (user_id : ℕ) (device c : Text) (g : Router B)
        → Settled b c user_id device g
            (if b then queue_online (set_offline user_id device c) g else g)
    undone-Settled true user_id device c g = inr (refl, refl)
    undone-Settled false user_id device c g = (refl, refl)

    sent-Settled :
        (b : Bool) (user_id : ℕ) (device c : Text) (conn : ℕ) (reply : Reply) (g g' : Router B)
        → Settled b c user_id device g g'
        → Settled b c user_id device g (send_packet conn reply g')
    sent-Settled true user_id device c conn reply g g' h = h
    sent-Settled false user_id device c conn reply g g' h = h

    done_session-Settled :
        (reply : ℕ → Body → Reply) (token device platform c : Text) (sequence_id : ℕ)
        (request_id : Text) (now : ℕ) (r : SessionResult) (g : Router B)
        → Settled (is_accepted r) c r.resp.user_id device g (
            done_session is_connected reply token device platform c sequence_id request_id now
              (is_accepted r)
              false
              r
              g)
    unfolding done_session
    done_session-Settled reply token device platform c sequence_id request_id now r g =
        elim (Option-cases (live_connection is_connected c g)) [
          | inl gone ↦
              rw (gone, done_session) (undone-Settled (is_accepted r) r.resp.user_id device c g)
          | inr (conn, live) ↦
              rw (live, done_session)
                (let (resp, g') = bind_session token device platform c now r g in
                  sent-Settled (is_accepted r) r.resp.user_id device c conn
                    (reply sequence_id (session_body resp)) g g'
                    (bind_session-Settled token device platform c now r g))
        ]

    -- Whatever the user service answers to a login whose job does not throw: if it accepts
    -- the login and the user is set online, then after the callback either the connection is
    -- authenticated as that user on that device, or the task that sets the user offline for
    -- the connection is queued, once; in every other case neither the connection manager nor
    -- the tasks change.
    pub done_login-Settled :
        (set_online : ℕ → Text → Text → Bool) (c : Text) (sequence_id : ℕ) (req : LoginRequest)
        (steady now : ℕ) (answer : Rpc SessionResponse) (g : Router B)
        → let r = (run_login set_online c req steady answer g.breakers).0 in
          Settled
            (login_opens set_online c req answer)
            c
            r.resp.user_id
            (login_device c req)
            g
            (done_login is_connected c sequence_id req now false r g)
    unfolding done_login
    done_login-Settled set_online c sequence_id req steady now answer g =
        let r = (run_login set_online c req steady answer g.breakers).0 in
        subst
          (λ b.
            Settled b c r.resp.user_id (login_device c req) g
              (done_login is_connected c sequence_id req now false r g))
          (login_accepted set_online c req steady answer g.breakers)
          (done_session-Settled login_reply r.resp.token (login_device c req) req.platform c
            sequence_id req.request_id now r g)
