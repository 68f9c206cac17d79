-- ===== src/Gateway/Server.antt =====
-- gateway/src/GatewayServer.cpp: connections that open and close, the rate limit of packets, the
-- packets that are sent, and the connections that time out. The receiving loop is Gateway/TcpLoop.
-- A connection has a name and, for the connection manager, a number; `wire` lists the bytes that
-- are sent to it.
pub mod Closing
use nebula_im.Base.{
  ℕ, Bool, true, false, not, Option, none, some, List, [], ◌∷◌, ◌++◌, if◌then◌else◌,
}
use nebula_im.Base.Keys.{Text, text, text_eq}
use nebula_im.Base.Dict.{Dict, lookup, insert, erase}
use nebula_im.Fault.ErrorCode.{rate_limited}
use nebula_im.Fault.RateLimiter.{TokenBucket, RateLimiter, allow_packet, clear_connection}
use nebula_im.Protocol.Codec.{Packet, encode}
use nebula_im.WebSocket.Codec.{encode_binary}
use nebula_im.Gateway.ConnectionManager.{
  ConnectionManager, ConnectionContext, add_connection, remove_connection, get_context,
  get_connection, get_timeout_connections, mark_web_socket,
}
use nebula_im.Gateway.Router.{Router, Body, error_body, set_offline, queue_online}

-- The router with the connection manager and the online tasks that they share, and the server's
-- own rate limiter and tables.
pub record GatewayServer (B : Type 0) : Type 0 where
  pub router : Router B
  pub rate_limiter : RateLimiter B
  pub conn_name_to_id : Dict Text Text
  pub websocket_connections : Dict Text Bool
  pub wire : List (ℕ × List ℕ)
  pub force_closed : List ℕ

-- A connection with its name and its peer's address.
pub record Connection : Type 0 where
  pub conn : ℕ
  pub name : Text
  pub peer_addr : Text

-- `makeErrorResponse` as a packet: protobuf's encoding is given.
pub record Encoder : Type 0 where
  pub error_packet : ℕ → Body → Packet

-- The connections that some ids have.
unfoldable pub found_connections : ConnectionManager → List Text → List ℕ
found_connections m [] = []
found_connections m (id ∷ ids) =
    let rest = found_connections m ids in
    elim (get_connection m id) [ none ↦ rest | some conn ↦ conn ∷ rest ]

module _ {B : Type 0} where
  unfoldable pub get_connection_id : Text → GatewayServer B → Text
  get_connection_id name s = elim (lookup name s.conn_name_to_id) [ none ↦ [] | some id ↦ id ]

  abbrev pub bind_connection_id : Text → Text → GatewayServer B → GatewayServer B
  bind_connection_id name id s = record s { conn_name_to_id = insert name id s.conn_name_to_id }

  abbrev pub with_manager : ConnectionManager → Router B → Router B
  with_manager m r = record r { manager = m }

  -- `onConnection` of a connection that is connected, at a time.
  unfoldable pub on_connected : Connection → ℕ → GatewayServer B → GatewayServer B
  on_connected c now s =
      let (id, m) = add_connection s.router.manager c.conn c.peer_addr now in
      let s' = bind_connection_id c.name id (record s { router = with_manager m s.router }) in
      record s' { websocket_connections = insert c.name false s'.websocket_connections }

  -- The user of a connection that closes goes offline.
  unfoldable pub gone_offline : Text → Option ConnectionContext → Router B → Router B
  gone_offline id none r = r
  gone_offline id (some ctx) r =
      if ctx.authenticated then queue_online (set_offline ctx.user_id ctx.device_id id) r else r

  -- `onConnection` of one that is not.
  unfoldable pub on_disconnected : TokenBucket B → Connection → GatewayServer B → GatewayServer B
  unfolding gone_offline get_connection_id
  on_disconnected tokens c s =
      let id = get_connection_id c.name s in
      let r = gone_offline id (get_context s.router.manager id) s.router in
      record s {
        router = with_manager (remove_connection r.manager id) r;
        rate_limiter = clear_connection tokens s.rate_limiter id;
        conn_name_to_id = erase c.name s.conn_name_to_id;
        websocket_connections = erase c.name s.websocket_connections;
      }

  unfoldable pub on_connection :
      TokenBucket B → Bool → Connection → ℕ → GatewayServer B → GatewayServer B
  unfolding on_connected on_disconnected
  on_connection tokens connected c now s =
      if connected then on_connected c now s else on_disconnected tokens c s

  abbrev pub is_web_socket : Text → GatewayServer B → Bool
  is_web_socket name s = elim (lookup name s.websocket_connections) [ none ↦ false | some w ↦ w ]

  -- `sendPacket`; `none` is what `encode` refuses, by an exception.
  unfoldable pub send_packet_to : Connection → Packet → GatewayServer B → Option (GatewayServer B)
  send_packet_to c packet s = elim (encode packet) [
    | none ↦ none
    | some bytes ↦ some (record s {
      wire =
          s.wire ++ ((c.conn, if is_web_socket c.name s then encode_binary bytes else bytes) ∷ []);
    })
  ]

  -- `allowPacket`, with its error reply.
  unfoldable pub allow_or_reply :
      TokenBucket B
      → Encoder
      → Connection
      → Text
      → ℕ
      → ℕ
      → GatewayServer B
      → Option (Bool × GatewayServer B)
  unfolding send_packet_to
  allow_or_reply tokens encoder c id sequence_id now s =
      let (allowed, limiter) = allow_packet tokens s.rate_limiter id now in
      let s' = record s { rate_limiter = limiter } in
      if allowed
      then some (true, s')
      else elim (send_packet_to c
          (encoder.error_packet sequence_id (error_body rate_limited (text "rate limited") []))
          s') [ none ↦ none | some s'' ↦ some (false, s'') ]

  unfoldable pub check_heartbeat_timeout : ℕ → ℕ → GatewayServer B → GatewayServer B
  unfolding found_connections
  check_heartbeat_timeout now timeout s = record s {
    force_closed =
        s.force_closed
        ++ found_connections s.router.manager
            (get_timeout_connections s.router.manager now timeout);
  }
