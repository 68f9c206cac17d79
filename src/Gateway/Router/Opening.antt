-- ===== src/Gateway/Router/Opening.antt =====
-- What a packet and a finished job do to the contexts of the connections.
use nebula_im.Base.{
  ℕ, ◌≡◌, refl, sym, ap, ◌∙◌, subst, Bool, true, false, Option, none, some, if◌then◌else◌, ◌⊎◌, inl,
  inr, Option-cases, Bool-cases, ◌==◌, ◌||◌, arith,
}
use nebula_im.Base.Keys.{Text, text_beq, text_beq_iff, text_eq}
use nebula_im.Base.Dict.{Dict, lookup, insert, lookup-insert}
use nebula_im.Gateway.ConnectionManager.{
  ConnectionContext, ConnectionManager, is_empty, bind_user, bind_context, bound_to,
  update_active_time,
}
use nebula_im.Gateway.Router.{SessionResponse, Body, Reply, Router, send_error}
use nebula_im.Gateway.Router.Completion.{
  SessionResult, is_accepted, live_connection, closing, bound, bind_session, done_call,
  done_session,
}

-- The context has the user, the token and the device.
abbrev pub IsSession : ℕ → Text → Text → ConnectionContext → Type 0
IsSession user_id token device ctx =
    (ctx.user_id ≡ user_id) × (ctx.token ≡ token) × (ctx.device_id ≡ device)

-- The connection had the session already.
abbrev pub Had : ConnectionManager → Text → ConnectionContext → Type 0
Had m c ctx =
    (old : ConnectionContext) × (lookup c m.contexts ≡ some old)
    × (old.authenticated ≡ true)
    × IsSession old.user_id old.token old.device_id ctx

-- A context is an old one, or that of a new session of the connection.
abbrev Arises : ConnectionManager → Text → ℕ → Text → Text → Text → ConnectionContext → Type 0
Arises m c' user_id token device c ctx =
    (lookup c m.contexts ≡ some ctx) ⊎ ((c' ≡ c) × IsSession user_id token device ctx)

lookup-inserted :
    {V : Type 0} (k c : Text) (v x : V) (d : Dict Text V)
    → lookup c (insert k v d) ≡ some x
    → ((k ≡ c) × (v ≡ x)) ⊎ (lookup c d ≡ some x)
lookup-inserted k c v x d h =
    let e = sym (lookup-insert k c v d) ∙ h in
    elim (Bool-cases (text_beq k c)) [
      | inl same ↦
          let found : some v ≡ some x = sym (ap (λ b. if b then some v else lookup c d) same) ∙ e in
          inl ((text_beq_iff k c).0 same, cc)
      | inr other ↦ inr (sym (ap (λ b. if b then some v else lookup c d) other) ∙ e)
    ]

bind_user-Arises :
    (m : ConnectionManager) (c' : Text) (user_id : ℕ) (token device platform : Text) (now : ℕ)
    (c : Text) (ctx : ConnectionContext)
    → lookup c (bind_user m c' user_id token device platform now).2.contexts ≡ some ctx
    → Arises m c' user_id token device c ctx
unfolding bind_user bind_context
bind_user-Arises m c' user_id token device platform now c ctx =
    elim (Bool-cases ((user_id == 0) || is_empty device)) [
      | inl bad ↦ rw (bad, bind_user) (λ h. inl h)
      | inr good ↦ elim (Option-cases (lookup c' m.contexts)) [
        | inl absent ↦ rw (good, absent, bind_user) (λ h. inl h)
        | inr (old, present) ↦
            rw (good, present, bind_user)
              (λ h.
                elim (lookup-inserted c' c (bound_to old user_id token device platform now) ctx
                  m.contexts h) [
                    | inl (here, e) ↦ inr (
                      here,
                      (
                        ap (λ x. x.user_id) (sym e),
                        ap (λ x. x.token) (sym e),
                        ap (λ x. x.device_id) (sym e),
                      ),
                    )
                    | inr there ↦ inl there
                  ])
      ]
    ]

pub update_active_time-Had :
    (m : ConnectionManager) (c' : Text) (now : ℕ) (c : Text) (ctx : ConnectionContext)
    → lookup c (update_active_time m c' now).1.contexts ≡ some ctx
    → ctx.authenticated ≡ true
    → Had m c ctx
unfolding update_active_time
update_active_time-Had m c' now c ctx = elim (Option-cases (lookup c' m.contexts)) [
  | inl absent ↦ rw (absent, update_active_time) (λ h on. (ctx, h, on, (refl, refl, refl)))
  | inr (old, present) ↦
      rw (present, update_active_time)
        (λ h on.
          elim (lookup-inserted c' c (record old { last_active_ms = now }) ctx m.contexts h) [
            | inl (here, e) ↦ (
              old,
              subst (λ k. lookup k m.contexts ≡ some old) here present,
              ap (λ x. x.authenticated) e ∙ on,
              (
                ap (λ x. x.user_id) (sym e),
                ap (λ x. x.token) (sym e),
                ap (λ x. x.device_id) (sym e),
              ),
            )
            | inr there ↦ (ctx, there, on, (refl, refl, refl))
          ])
]

closing-manager :
    {B : Type 0} (replaced : Option ℕ) (g : Router B) → (closing replaced g).manager ≡ g.manager
closing-manager none g = refl
closing-manager (some conn) g = refl

module _ {B : Type 0} where
  -- What a finished session does to the contexts.
  abbrev pub Opens :
      Router B → Text → Text → Text → Bool → SessionResult → Text → ConnectionContext → Type 0
  Opens g token device c' error r c ctx =
      (lookup c g.manager.contexts ≡ some ctx)
      ⊎ ((c' ≡ c)
          × (error ≡ false)
          × (is_accepted r ≡ true)
          × IsSession r.resp.user_id token device ctx)

module _ {B : Type 0} (is_connected : ℕ → Bool) where
  bound-Arises :
      (user_id : ℕ) (token device c' : Text) (resp : SessionResponse)
      (x : Bool × Option ℕ × ConnectionManager) (g : Router B) (c : Text) (ctx : ConnectionContext)
      → (lookup c x.2.contexts ≡ some ctx → Arises g.manager c' user_id token device c ctx)
      → lookup c (bound user_id device c' resp x g).1.manager.contexts ≡ some ctx
      → Arises g.manager c' user_id token device c ctx
  unfolding bound
  bound-Arises user_id token device c' resp (true, replaced, m) g c ctx arises h = arises (
      ap (λ (t : ConnectionManager). lookup c t.contexts)
        (sym (closing-manager replaced (record g { manager = m })))
      ∙ h)
  bound-Arises user_id token device c' resp (false, replaced, m) g c ctx arises h = inl h

  bind_session-Opens :
      (token device platform c' : Text) (now : ℕ) (r : SessionResult) (g : Router B) (c : Text)
      (ctx : ConnectionContext)
      → lookup c (bind_session token device platform c' now r g).1.manager.contexts ≡ some ctx
      → Opens g token device c' false r c ctx
  unfolding bind_session
  bind_session-Opens token device platform c' now r g c ctx = elim (Bool-cases (is_accepted r)) [
    | inl yes_ ↦
        rw (yes_, bind_session)
          (λ h.
            elim (bound-Arises r.resp.user_id token device c' r.resp
              (bind_user g.manager c' r.resp.user_id token device platform now) g c ctx
              (bind_user-Arises g.manager c' r.resp.user_id token device platform now c ctx) h) [
                | inl old ↦ inl old
                | inr (here, its) ↦ inr (here, refl, refl, its)
              ])
    | inr no_ ↦ rw (no_, bind_session) (λ h. inl h)
  ]

  either-Opens :
      (b : Bool) (token device c' : Text) (r : SessionResult) (g x y : Router B) (c : Text)
      (ctx : ConnectionContext)
      → x.manager ≡ g.manager
      → (lookup c y.manager.contexts ≡ some ctx → Opens g token device c' false r c ctx)
      → lookup c (if b then x else y).manager.contexts ≡ some ctx
      → Opens g token device c' b r c ctx
  either-Opens true token device c' r g x y c ctx same opens h =
      inl (ap (λ (t : ConnectionManager). lookup c t.contexts) (sym same) ∙ h)
  either-Opens false token device c' r g x y c ctx same opens h = opens h

  undone-manager :
      (b : Bool) (x g : Router B) → x.manager ≡ g.manager → (if b then x else g).manager ≡ g.manager
  undone-manager true x g h = h
  undone-manager false x g h = refl

  pub done_session-Opens :
      (reply : ℕ → Body → Reply) (token device platform c' : Text) (sequence_id : ℕ)
      (request_id : Text) (now : ℕ) (undo error : Bool) (r : SessionResult) (g : Router B)
      (c : Text) (ctx : ConnectionContext)
      → lookup c
          (done_session is_connected reply token device platform c' sequence_id request_id now undo
            error r g).manager.contexts
        ≡ some ctx
      → Opens g token device c' error r c ctx
  unfolding done_session send_error
  done_session-Opens reply token device platform c' sequence_id request_id now undo error r g c
        ctx =
      elim (Option-cases (live_connection is_connected c' g)) [
        | inl gone ↦
            rw (gone, done_session)
              (λ h. inl (
                ap (λ (t : ConnectionManager). lookup c t.contexts)
                  (sym (undone-manager undo _ g refl))
                ∙ h))
        | inr (conn, live) ↦
            rw (live, done_session)
              (λ h.
                either-Opens error token device c' r g _ _ c ctx refl
                  (bind_session-Opens token device platform c' now r g c ctx) h)
      ]

  pub done_call-manager :
      (reply : ℕ → Body → Reply) (c : Text) (sequence_id : ℕ) (request_id : Text) (body : Body)
      (error : Bool) (g : Router B)
      → (done_call is_connected reply c sequence_id request_id body error g).manager ≡ g.manager
  unfolding done_call send_error
  done_call-manager reply c sequence_id request_id body error g =
      elim (Option-cases (live_connection is_connected c g)) [
        | inl gone ↦ rw (gone, done_call) refl
        | inr (conn, live) ↦ rw (live, done_call) (ground arith)
      ]
