-- ===== src/Gateway/Server/Closing.antt =====
-- What `onConnection` leaves of a connection that opens or closes.
use nebula_im.Base.{
  ℕ, ◌≡◌, ◌≢◌, refl, sym, ap, ◌∙◌, subst, false, Option, none, some, List, [], ◌∷◌, ◌++◌,
  append-nil, if◌then◌else◌, Bool-cases, inl, inr, arith,
}
use nebula_im.Base.Keys.{Text, text, text_eq, beq_self}
use nebula_im.Base.Dict.{Dict, lookup, insert, erase, lookup-insert, lookup-erase}
use nebula_im.Fault.RateLimiter.{TokenBucket, clear_connection}
use nebula_im.Gateway.ConnectionManager.{
  ConnectionContext, fresh_context, add_connection, remove_connection, get_context, connection_name,
}
use nebula_im.Gateway.ConnectionManager.Index.{find}
use nebula_im.Gateway.ConnectionManager.Invariant.{IsValid}
use nebula_im.Gateway.ConnectionManager.Binding.{
  add_connection-IsValid, remove_connection-IsValid, remove_connection_forgets,
}
use nebula_im.Gateway.Router.{Router, OnlineTask, set_offline}
use nebula_im.Gateway.Server.{
  GatewayServer, Connection, get_connection_id, gone_offline, on_connected, on_disconnected,
}

-- A key that was just erased, and one that was just inserted.
lookup-erased : {V : Type 0} (k : Text) (m : Dict Text V) → lookup k (erase k m) ≡ none
lookup-erased k m = lookup-erase k k m ∙ ap (λ t. if t then none else lookup k m) (beq_self k)

lookup-inserted :
    {V : Type 0} (k : Text) (v : V) (m : Dict Text V) → lookup k (insert k v m) ≡ some v
lookup-inserted k v m =
    lookup-insert k k v m ∙ ap (λ t. if t then some v else lookup k m) (beq_self k)

-- The task that a closed connection leaves.
abbrev pub offline_tasks : Text → Option ConnectionContext → List OnlineTask
offline_tasks id none = []
offline_tasks id (some ctx) =
    if ctx.authenticated then set_offline ctx.user_id ctx.device_id id ∷ [] else []

module _ {B : Type 0} where
  -- Nothing leads to the connection any more, and its user goes offline if there was one.
  pub record Forgotten (c : Connection) (id : Text) (s s' : GatewayServer B) : Type 0 where
    pub valid : IsValid s'.router.manager
    pub context : lookup id s'.router.manager.contexts ≡ none
    pub connection : lookup id s'.router.manager.connections ≡ none
    pub index : (u : ℕ) (d : Text) → find u d s'.router.manager.user_device_to_connection ≢ some id
    pub name : lookup c.name s'.conn_name_to_id ≡ none
    pub web_socket : lookup c.name s'.websocket_connections ≡ none
    pub bucket : lookup (text "packet:" ++ id) s'.rate_limiter.buckets ≡ none
    pub offline :
        s'.router.online_tasks
        ≡ s.router.online_tasks ++ offline_tasks id (lookup id s.router.manager.contexts)

  gone_offline-same :
      (id : Text) (o : Option ConnectionContext) (r : Router B)
      → ((gone_offline id o r).manager ≡ r.manager)
        × ((gone_offline id o r).online_tasks ≡ r.online_tasks ++ offline_tasks id o)
  unfolding gone_offline
  gone_offline-same id none r = (refl, sym (append-nil r.online_tasks))
  gone_offline-same id (some ctx) r = elim (Bool-cases ctx.authenticated) [
    | inl yes_ ↦ rw (yes_, gone_offline) (refl, refl)
    | inr no_ ↦ rw (no_, gone_offline) (refl, sym (append-nil r.online_tasks))
  ]

  -- After onConnection of a connection that closed, on a valid connection manager: the
  -- manager is valid; the connection's id has no context, no socket, no entry of the device
  -- index and no bucket of the packet limit; its name leads to no id and no web socket mark;
  -- and exactly if it was authenticated, one task is queued that sets its user offline for
  -- that id.
  pub on_disconnected-Forgotten :
      (tokens : TokenBucket B) (c : Connection) (s : GatewayServer B)
      → IsValid s.router.manager
      → Forgotten c (get_connection_id c.name s) s (on_disconnected tokens c s)
  unfolding on_disconnected get_context clear_connection remove_connection
  on_disconnected-Forgotten tokens c s v =
      let id = get_connection_id c.name s in
      let o = lookup id s.router.manager.contexts in
      let (same, tasks) = gone_offline-same id o s.router in
      let m = (gone_offline id o s.router).manager in
      let v' = subst IsValid (sym same) v in
      record {
        valid = remove_connection-IsValid m id v';
        context = lookup-erased id m.contexts;
        connection = lookup-erased id m.connections;
        index = λ u d. remove_connection_forgets m id u d v';
        name = lookup-erased c.name s.conn_name_to_id;
        web_socket = lookup-erased c.name s.websocket_connections;
        bucket = lookup-erased (text "packet:" ++ id) s.rate_limiter.buckets;
        offline = tasks;
      }

  -- The name leads to an id that was not in use, and that has a fresh context and the connection's number.
  pub record Known (c : Connection) (now : ℕ) (s s' : GatewayServer B) : Type 0 where
    pub valid : IsValid s'.router.manager
    pub id : Text
    pub unused : lookup id s.router.manager.contexts ≡ none
    pub name : lookup c.name s'.conn_name_to_id ≡ some id
    pub context : lookup id s'.router.manager.contexts ≡ some (fresh_context id c.peer_addr now)
    pub connection : lookup id s'.router.manager.connections ≡ some c.conn
    pub web_socket : lookup c.name s'.websocket_connections ≡ some false

  -- After onConnection of a connection that opened, on a valid connection manager: the
  -- manager is valid, and the connection's name leads to an id that had no context before,
  -- and that has a fresh context with the peer's address, the connection's socket, and no web
  -- socket mark.
  pub on_connected-Known :
      (c : Connection) (now : ℕ) (s : GatewayServer B)
      → IsValid s.router.manager
      → Known c now s (on_connected c now s)
  unfolding on_connected add_connection
  on_connected-Known c now s v =
      let m = s.router.manager in
      let new_id = connection_name m.gateway_id m.next_conn_id in
      record {
        valid = add_connection-IsValid m c.conn c.peer_addr now v;
        id = new_id;
        unused = v.fresh m.next_conn_id (omega arith);
        name = lookup-inserted c.name new_id s.conn_name_to_id;
        context = lookup-inserted new_id (fresh_context new_id c.peer_addr now) m.contexts;
        connection = lookup-inserted new_id c.conn m.connections;
        web_socket = lookup-inserted c.name false s.websocket_connections;
      }
