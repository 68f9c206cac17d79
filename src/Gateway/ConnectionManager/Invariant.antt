-- ===== src/Gateway/ConnectionManager/Invariant.antt =====
-- What every operation of the connection manager keeps.
use nebula_im.Base.{
  ℕ, ◌≤◌, Bool, true, false, ◌≡◌, ◌≢◌, refl, ap, ◌∙◌, Option, none, some, [], ◌∷◌, ◌++◌, arith,
  Option-cases, inl, inr, Bool-cases,
}
use nebula_im.Base.Keys.{Text, text, text_beq, nat_eq, text_eq, text_beq_iff}
use nebula_im.Base.Dict.{Dict, lookup, insert, lookup-insert}
use nebula_im.Base.Decimal.{to_string, to_string_injective}
use nebula_im.Gateway.ConnectionManager.{
  ConnectionManager, ConnectionContext, init, connection_name, mark_web_socket, update_active_time,
}
use nebula_im.Gateway.ConnectionManager.Index.{find, IsTidy}

-- The connection has a context that is bound to this user and device.
pub record IsBound (contexts : Dict Text ConnectionContext) (c : Text) (u : ℕ) (d : Text)
    : Type 0 where
  pub context : ConnectionContext
  pub listed : lookup c contexts ≡ some context
  pub same_user : context.user_id ≡ u
  pub same_device : context.device_id ≡ d
  pub logged_in : context.authenticated ≡ true
  pub real_user : u ≢ 0
  pub real_device : d ≢ []

abbrev pub is_some {ℓ} : {A : Type ℓ} → Option A → Bool
is_some none = false
is_some (some a) = true

pub record IsValid (m : ConnectionManager) : Type 0 where
  pub indexed :
      (u : ℕ) (d c : Text)
      → find u d m.user_device_to_connection ≡ some c
      → IsBound m.contexts c u d
  pub tidy : IsTidy m.user_device_to_connection
  pub paired : (c : Text) → is_some (lookup c m.contexts) ≡ is_some (lookup c m.connections)
  pub fresh :
      (n : ℕ) → m.next_conn_id ≤ n → lookup (connection_name m.gateway_id n) m.contexts ≡ none

pub init-IsValid : (gateway_id : Text) → IsValid (init gateway_id)
unfolding init find lookup
init-IsValid gateway_id = record {
  indexed = λ u d c h. cc;
  tidy = λ u h. cc;
  paired = λ c. refl;
  fresh = λ n h. refl;
}

append_cancel : (s t u : Text) → s ++ t ≡ s ++ u → t ≡ u
append_cancel [] t u h = h
append_cancel (a ∷ s) t u h = append_cancel s t u (cc)

-- Two connections of a gateway never get the same id.
pub connection_name_injective :
    (gateway_id : Text) (m n : ℕ)
    → connection_name gateway_id m ≡ connection_name gateway_id n
    → m ≡ n
connection_name_injective gateway_id m n h = to_string_injective m n (
    append_cancel (text "-conn-") (to_string m) (to_string n)
      (append_cancel gateway_id (text "-conn-" ++ to_string m) (text "-conn-" ++ to_string n) h))

pub one_context :
    (contexts : Dict Text ConnectionContext) (c c' : Text) (ctx ctx' : ConnectionContext)
    → c ≡ c'
    → lookup c contexts ≡ some ctx
    → lookup c' contexts ≡ some ctx'
    → ctx ≡ ctx'
one_context contexts c c' ctx ctx' e h k = cc (ap (λ t. lookup t contexts) e)

-- A context that is put in the place of another, with the same binding, keeps the bindings.
keeps-IsBound :
    (contexts : Dict Text ConnectionContext) (c c' : Text) (ctx ctx' : ConnectionContext) (u : ℕ)
    (d : Text)
    → lookup c contexts ≡ some ctx
    → ctx'.user_id ≡ ctx.user_id
    → ctx'.device_id ≡ ctx.device_id
    → ctx'.authenticated ≡ ctx.authenticated
    → IsBound contexts c' u d
    → IsBound (insert c ctx' contexts) c' u d
keeps-IsBound contexts c c' ctx ctx' u d h hu hd ha b = elim (Bool-cases (text_beq c c')) [
  | inl same ↦
      let one : ctx ≡ b.context =
        one_context contexts c c' ctx b.context ((text_beq_iff c c').0 same) h b.listed in
      record {
        context = ctx';
        listed = ground (arith, lookup-insert c c' ctx' contexts);
        same_user = hu ∙ ap (λ (t : ConnectionContext). t.user_id) one ∙ b.same_user;
        same_device = hd ∙ ap (λ (t : ConnectionContext). t.device_id) one ∙ b.same_device;
        logged_in = ha ∙ ap (λ (t : ConnectionContext). t.authenticated) one ∙ b.logged_in;
        real_user = b.real_user;
        real_device = b.real_device;
      }
  | inr other ↦ record {
    context = b.context;
    listed = ground (arith, lookup-insert c c' ctx' contexts, b.listed);
    same_user = b.same_user;
    same_device = b.same_device;
    logged_in = b.logged_in;
    real_user = b.real_user;
    real_device = b.real_device;
  }
]

-- Replacing the context of a known connection pairs contexts and connections as before.
pub paired_update :
    (m : ConnectionManager) (c c' : Text) (ctx ctx' : ConnectionContext)
    → lookup c m.contexts ≡ some ctx
    → is_some (lookup c' m.contexts) ≡ is_some (lookup c' m.connections)
    → is_some (lookup c' (insert c ctx' m.contexts)) ≡ is_some (lookup c' m.connections)
paired_update m c c' ctx ctx' h k = ground (
  arith,
  lookup-insert c c' ctx' m.contexts,
  (text_beq_iff c c').0,
  ap (λ t. lookup t m.contexts) {x = c} {y = c'},
)

pub fresh_update :
    (contexts : Dict Text ConnectionContext) (c c' : Text) (ctx ctx' : ConnectionContext)
    → lookup c contexts ≡ some ctx
    → lookup c' contexts ≡ none
    → lookup c' (insert c ctx' contexts) ≡ none
fresh_update contexts c c' ctx ctx' h k = ground (
  arith,
  lookup-insert c c' ctx' contexts,
  (text_beq_iff c c').0,
  ap (λ t. lookup t contexts) {x = c} {y = c'},
)

replaced-IsValid :
    (m : ConnectionManager) (c : Text) (ctx ctx' : ConnectionContext)
    → IsValid m
    → lookup c m.contexts ≡ some ctx
    → ctx'.user_id ≡ ctx.user_id
    → ctx'.device_id ≡ ctx.device_id
    → ctx'.authenticated ≡ ctx.authenticated
    → IsValid (record m { contexts = insert c ctx' m.contexts })
replaced-IsValid m c ctx ctx' v h hu hd ha = record {
  indexed = λ u d c' e. keeps-IsBound m.contexts c c' ctx ctx' u d h hu hd ha (v.indexed u d c' e);
  tidy = v.tidy;
  paired = λ c'. paired_update m c c' ctx ctx' h (v.paired c');
  fresh =
      λ n k. fresh_update m.contexts c (connection_name m.gateway_id n) ctx ctx' h (v.fresh n k);
}

pub mark_web_socket-IsValid :
    (m : ConnectionManager) (c : Text) (websocket : Bool)
    → IsValid m
    → IsValid (mark_web_socket m c websocket).1
unfolding mark_web_socket
mark_web_socket-IsValid m c websocket v = elim (Option-cases (lookup c m.contexts)) [
  | inl absent ↦ rw (absent, mark_web_socket) v
  | inr (ctx, present) ↦
      rw (present, mark_web_socket)
        (replaced-IsValid m c ctx (record ctx { websocket = websocket }) v present refl refl refl)
]

pub update_active_time-IsValid :
    (m : ConnectionManager) (c : Text) (now : ℕ)
    → IsValid m
    → IsValid (update_active_time m c now).1
unfolding update_active_time
update_active_time-IsValid m c now v = elim (Option-cases (lookup c m.contexts)) [
  | inl absent ↦ rw (absent, update_active_time) v
  | inr (ctx, present) ↦
      rw (present, update_active_time)
        (replaced-IsValid m c ctx (record ctx { last_active_ms = now }) v present refl refl refl)
]
