-- ===== src/Gateway/ConnectionManager.antt =====
-- common/gateway/ConnectionManager.{h,cpp}. Each method runs under one mutex, so it is one step
-- here, with the time that it reads as an argument. A `TcpConnectionPtr` is a number, and the
-- connection that `bindUser` closes in the end is returned. Times do not fall below 0.
pub mod Index
pub mod Invariant
pub mod Binding
pub mod Runs
use nebula_im.Base.{
  ℕ, suc, ◌+◌, ◌-◌, Bool, true, false, not, ◌&&◌, ◌||◌, Option, none, some, List, [], ◌∷◌, ◌++◌,
  ◌>>=◌, ltb, ◌==◌, if◌then◌else◌, length,
}
use nebula_im.Base.Keys.{Text, text, text_beq, nat_eq, text_eq}
use nebula_im.Base.Dict.{Dict, lookup, insert, erase}
use nebula_im.Base.Decimal.{to_string}

pub record ConnectionContext : Type 0 where
  pub connection_id : Text
  pub user_id : ℕ
  pub token : Text
  pub device_id : Text
  pub platform : Text
  pub authenticated : Bool
  pub websocket : Bool
  pub connected_at_ms : ℕ
  pub last_active_ms : ℕ
  pub peer_addr : Text

-- The connection of each device of each user.
abbrev pub DeviceIndex : Type 0
DeviceIndex = Dict ℕ (Dict Text Text)

pub record ConnectionManager : Type 0 where
  pub gateway_id : Text
  pub connections : Dict Text ℕ
  pub contexts : Dict Text ConnectionContext
  pub user_device_to_connection : DeviceIndex
  pub next_conn_id : ℕ

unfoldable pub init : Text → ConnectionManager
init gateway_id = record {
  gateway_id = gateway_id;
  connections = [];
  contexts = [];
  user_device_to_connection = [];
  next_conn_id = 1;
}

abbrev pub is_empty {ℓ} : {A : Type ℓ} → List A → Bool
is_empty [] = true
is_empty (x ∷ xs) = false

-- The id with number `n`.
abbrev pub connection_name : Text → ℕ → Text
connection_name gateway_id n = gateway_id ++ (text "-conn-" ++ to_string n)

abbrev pub fresh_context : Text → Text → ℕ → ConnectionContext
fresh_context id peer_addr now = record {
  connection_id = id;
  user_id = 0;
  token = [];
  device_id = [];
  platform = [];
  authenticated = false;
  websocket = false;
  connected_at_ms = now;
  last_active_ms = now;
  peer_addr = peer_addr;
}

unfoldable pub add_connection : ConnectionManager → ℕ → Text → ℕ → Text × ConnectionManager
add_connection m conn peer_addr now =
    let id = connection_name m.gateway_id m.next_conn_id in
    (
      id,
      record m {
        connections = insert id conn m.connections;
        contexts = insert id (fresh_context id peer_addr now) m.contexts;
        next_conn_id = suc m.next_conn_id;
      },
    )

abbrev pub points_to : Option Text → Text → Bool
points_to none c = false
points_to (some c') c = text_beq c' c

-- The user's devices without this one, if it is this connection's.
unfoldable pub forget_device : Text → Text → Dict Text Text → Dict Text Text
forget_device device_id c devices =
    if points_to (lookup device_id devices) c then erase device_id devices else devices

-- The block that `removeConnection` and `bindUser` share.
unfoldable pub unindex : ℕ → Text → Text → DeviceIndex → DeviceIndex
unindex user_id device_id c index = elim (lookup user_id index) [
  | none ↦ index
  | some devices ↦
      let rest = forget_device device_id c devices in
      if is_empty rest then erase user_id index else insert user_id rest index
]

unfoldable pub index_without : Option ConnectionContext → Text → DeviceIndex → DeviceIndex
index_without none c index = index
index_without (some ctx) c index =
    if ctx.user_id == 0 then index else unindex ctx.user_id ctx.device_id c index

unfoldable pub remove_connection : ConnectionManager → Text → ConnectionManager
remove_connection m c = record m {
  user_device_to_connection = index_without (lookup c m.contexts) c m.user_device_to_connection;
  contexts = erase c m.contexts;
  connections = erase c m.connections;
}

-- `index[user_id]`, which is empty where there was none.
abbrev pub devices_of : ℕ → DeviceIndex → Dict Text Text
devices_of user_id index = elim (lookup user_id index) [ none ↦ [] | some devices ↦ devices ]

-- The connection that a new one for the device takes the place of.
unfoldable pub replaced_by : ConnectionManager → Option Text → Text → Option ℕ
replaced_by m none c = none
replaced_by m (some old) c = if text_beq old c then none else lookup old m.connections

-- The index without the binding that the connection had.
unfoldable pub release : ConnectionContext → Text → DeviceIndex → DeviceIndex
release ctx c index =
    if not (ctx.user_id == 0) && not (is_empty ctx.device_id)
    then unindex ctx.user_id ctx.device_id c index
    else index

abbrev pub bound_to : ConnectionContext → ℕ → Text → Text → Text → ℕ → ConnectionContext
bound_to ctx user_id token device_id platform now = record ctx {
  user_id = user_id;
  token = token;
  device_id = device_id;
  platform = platform;
  authenticated = true;
  last_active_ms = now;
}

unfoldable pub bind_context :
    ConnectionManager
    → Text
    → ConnectionContext
    → ℕ
    → Text
    → Text
    → Text
    → ℕ
    → Option ℕ × ConnectionManager
bind_context m c ctx user_id token device_id platform now =
    let index = release ctx c m.user_device_to_connection in
    let devices = devices_of user_id index in
    (
      replaced_by m (lookup device_id devices) c,
      record m {
        contexts = insert c (bound_to ctx user_id token device_id platform now) m.contexts;
        user_device_to_connection = insert user_id (insert device_id c devices) index;
      },
    )

-- The answer, the connection to close, and the new state.
unfoldable pub bind_user :
    ConnectionManager → Text → ℕ → Text → Text → Text → ℕ → Bool × Option ℕ × ConnectionManager
bind_user m c user_id token device_id platform now =
    if user_id == 0 || is_empty device_id then (false, none, m) else elim (lookup c m.contexts) [
      | none ↦ (false, none, m)
      | some ctx ↦
          let (replaced, m') = bind_context m c ctx user_id token device_id platform now in
          (true, replaced, m')
    ]

unfoldable pub mark_web_socket : ConnectionManager → Text → Bool → Bool × ConnectionManager
mark_web_socket m c websocket = elim (lookup c m.contexts) [
  | none ↦ (false, m)
  | some ctx ↦
      (true, record m { contexts = insert c (record ctx { websocket = websocket }) m.contexts })
]

unfoldable pub update_active_time : ConnectionManager → Text → ℕ → Bool × ConnectionManager
update_active_time m c now = elim (lookup c m.contexts) [
  | none ↦ (false, m)
  | some ctx ↦
      (true, record m { contexts = insert c (record ctx { last_active_ms = now }) m.contexts })
]

unfoldable pub get_context : ConnectionManager → Text → Option ConnectionContext
get_context m c = lookup c m.contexts

unfoldable pub get_connection : ConnectionManager → Text → Option ℕ
get_connection m c = lookup c m.connections

-- The values that some keys have, those without one left out.
unfoldable pub collect {ℓ} : {V : Type ℓ} → Dict Text Text → Dict Text V → List V
collect [] values = []
collect ((device_id, c) ∷ devices) values =
    let rest = collect devices values in elim (lookup c values) [ none ↦ rest | some v ↦ v ∷ rest ]

unfoldable pub get_connections_by_user_id : ConnectionManager → ℕ → List ℕ
get_connections_by_user_id m user_id =
    collect (devices_of user_id m.user_device_to_connection) m.connections

unfoldable pub get_contexts_by_user_id : ConnectionManager → ℕ → List ConnectionContext
get_contexts_by_user_id m user_id =
    collect (devices_of user_id m.user_device_to_connection) m.contexts

unfoldable pub timed_out : ℕ → ℕ → Dict Text ConnectionContext → List Text
timed_out now timeout [] = []
timed_out now timeout ((c, ctx) ∷ contexts) =
    let rest = timed_out now timeout contexts in
    if ltb timeout (now - ctx.last_active_ms) then c ∷ rest else rest

unfoldable pub get_timeout_connections : ConnectionManager → ℕ → ℕ → List Text
get_timeout_connections m now timeout = timed_out now timeout m.contexts

unfoldable pub connection_count : ConnectionManager → ℕ
connection_count m = length m.connections

unfoldable pub online_user_count : ConnectionManager → ℕ
online_user_count m = length m.user_device_to_connection
