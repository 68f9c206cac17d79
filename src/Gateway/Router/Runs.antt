-- ===== src/Gateway/Router/Runs.antt =====
-- A connection is logged in only as the user of a session that the backend accepted for it.
use nebula_im.Base.{
  ℕ, ◌≡◌, refl, sym, ap, ◌∙◌, Bool, true, false, some, List, [], ◌∷◌, ◌⊎◌, inl, inr,
}
use nebula_im.Base.Keys.{Text, text_eq}
use nebula_im.Base.Dict.{lookup}
use nebula_im.Fault.RateLimiter.{TokenBucket}
use nebula_im.Gateway.ConnectionManager.{ConnectionContext, ConnectionManager}
use nebula_im.Gateway.Router.{
  LoginRequest, ResumeSessionRequest, Parser, Body, Reply, Router, Arrival, login_reply,
  resume_reply,
}
use nebula_im.Gateway.Router.Handlers.{handle_packet}
use nebula_im.Gateway.Router.Outcome.{handle_packet-Outcome}
use nebula_im.Gateway.Router.Opening.{
  IsSession, Had, Opens, update_active_time-Had, done_session-Opens, done_call-manager,
}
use nebula_im.Gateway.Router.Completion.{
  SessionResult, login_device, is_accepted, done_call, done_login, done_resume,
}

-- What the loops of the gateway do with the router: packets, and results of jobs with the
-- time and whether the job failed.
pub data Event : Type 0 where
  packet_arrived : Arrival → Event
  call_done : (ℕ → Body → Reply) → Text → ℕ → Text → Body → Bool → Event
  login_done : Text → ℕ → LoginRequest → ℕ → Bool → SessionResult → Event
  resume_done : Text → ℕ → ResumeSessionRequest → ℕ → Bool → SessionResult → Event

-- The event is the accepted session of the connection, by a job that did not fail.
abbrev pub Grants : Text → ConnectionContext → Event → Type 0
Grants c ctx (login_done c' sequence_id req now error r) =
    (c' ≡ c)
    × (error ≡ false)
    × (is_accepted r ≡ true)
    × IsSession r.resp.user_id r.resp.token (login_device c' req) ctx
Grants c ctx (resume_done c' sequence_id req now error r) =
    (c' ≡ c)
    × (error ≡ false)
    × (is_accepted r ≡ true)
    × IsSession r.resp.user_id req.token req.device_id ctx
Grants c ctx (packet_arrived a) = true ≡ false
Grants c ctx (call_done reply c' sequence_id request_id body error) = true ≡ false

abbrev pub GrantedIn : Text → ConnectionContext → List Event → Type 0
GrantedIn c ctx [] = true ≡ false
GrantedIn c ctx (e ∷ es) = Grants c ctx e ⊎ GrantedIn c ctx es

IsSession-same :
    (user_id : ℕ) (token device : Text) (old ctx : ConnectionContext)
    → IsSession old.user_id old.token old.device_id ctx
    → IsSession user_id token device old
    → IsSession user_id token device ctx
IsSession-same user_id token device old ctx same s = (same.0 ∙ s.0, same.1 ∙ s.1, same.2 ∙ s.2)

Had-same :
    (m : ConnectionManager) (c : Text) (old ctx : ConnectionContext)
    → IsSession old.user_id old.token old.device_id ctx
    → Had m c old
    → Had m c ctx
Had-same m c old ctx same (first, there, on, s) =
    (first, there, on, IsSession-same first.user_id first.token first.device_id old ctx same s)

Grants-same :
    (c : Text) (old ctx : ConnectionContext) (e : Event)
    → IsSession old.user_id old.token old.device_id ctx
    → Grants c old e
    → Grants c ctx e
Grants-same c old ctx (packet_arrived a) same g = g
Grants-same c old ctx (call_done reply c' sequence_id request_id body error) same g = g
Grants-same c old ctx (login_done c' sequence_id req now error r) same (here, fine, yes_, s) = (
  here,
  fine,
  yes_,
  IsSession-same r.resp.user_id r.resp.token (login_device c' req) old ctx same s,
)
Grants-same c old ctx (resume_done c' sequence_id req now error r) same (here, fine, yes_, s) =
    (here, fine, yes_, IsSession-same r.resp.user_id req.token req.device_id old ctx same s)

module _ {B : Type 0} (is_connected : ℕ → Bool) (tokens : TokenBucket B) (parser : Parser) where
  unfoldable pub happen : Event → Router B → Router B
  happen (packet_arrived a) g = handle_packet tokens parser a g
  happen (call_done reply c sequence_id request_id body error) g =
      done_call is_connected reply c sequence_id request_id body error g
  happen (login_done c sequence_id req now error r) g =
      done_login is_connected c sequence_id req now error r g
  happen (resume_done c sequence_id req now error r) g =
      done_resume is_connected c sequence_id req now error r g

  unfoldable pub happen_all : List Event → Router B → Router B
  happen_all [] g = g
  happen_all (e ∷ es) g = happen_all es (happen e g)

  Opens-Had :
      (g : Router B) (token device c' : Text) (error : Bool) (r : SessionResult) (c : Text)
      (ctx : ConnectionContext)
      → ctx.authenticated ≡ true
      → Opens g token device c' error r c ctx
      → Had g.manager c ctx
        ⊎ ((c' ≡ c)
            × (error ≡ false)
            × (is_accepted r ≡ true)
            × IsSession r.resp.user_id token device ctx)
  Opens-Had g token device c' error r c ctx on (inl old) = inl (ctx, old, on, (refl, refl, refl))
  Opens-Had g token device c' error r c ctx on (inr new) = inr new

  happen-Grants :
      (e : Event) (g : Router B) (c : Text) (ctx : ConnectionContext)
      → lookup c (happen e g).manager.contexts ≡ some ctx
      → ctx.authenticated ≡ true
      → Had g.manager c ctx ⊎ Grants c ctx e
  unfolding happen done_login done_resume
  happen-Grants (packet_arrived a) g c ctx h on = inl (
      update_active_time-Had g.manager a.connection_id a.now_ms c ctx
        (ap (λ (t : ConnectionManager). lookup c t.contexts)
            (sym (handle_packet-Outcome tokens parser a g).0)
          ∙ h)
        on)
  happen-Grants (call_done reply c' sequence_id request_id body error) g c ctx h on = inl (
    ctx,
    ap (λ (t : ConnectionManager). lookup c t.contexts)
          (sym (done_call-manager is_connected reply c' sequence_id request_id body error g))
        ∙ h,
    on,
    (refl, refl, refl),
  )
  happen-Grants (login_done c' sequence_id req now error r) g c ctx h on =
      Opens-Had g r.resp.token (login_device c' req) c' error r c ctx on (
        done_session-Opens is_connected login_reply r.resp.token (login_device c' req) req.platform
          c' sequence_id req.request_id now _ error r g c ctx h)
  happen-Grants (resume_done c' sequence_id req now error r) g c ctx h on =
      Opens-Had g req.token req.device_id c' error r c ctx on (
        done_session-Opens is_connected resume_reply req.token req.device_id req.platform c'
          sequence_id req.request_id now _ error r g c ctx h)

  -- After any packets and finished jobs, a connection whose context is authenticated either
  -- was authenticated with the same user, token and device before all of them, or one of them
  -- is the result of a login or of a resumed session on this very connection, by a job that
  -- did not fail, which the backend accepted and whose user was set online, for exactly the
  -- user, token and device of the context.
  pub happen_all-GrantedIn :
      (es : List Event) (g : Router B) (c : Text) (ctx : ConnectionContext)
      → lookup c (happen_all es g).manager.contexts ≡ some ctx
      → ctx.authenticated ≡ true
      → Had g.manager c ctx ⊎ GrantedIn c ctx es
  unfolding happen_all
  happen_all-GrantedIn [] g c ctx h on = inl (ctx, h, on, (refl, refl, refl))
  happen_all-GrantedIn (e ∷ es) g c ctx h on =
      elim (happen_all-GrantedIn es (happen e g) c ctx h on) [
        | inr later ↦ inr (inr later)
        | inl (old, there, was_on, same) ↦ elim (happen-Grants e g c old there was_on) [
          | inl had ↦ inl (Had-same g.manager c old ctx same had)
          | inr now ↦ inr (inl (Grants-same c old ctx e same now))
        ]
      ]
