-- ===== src/Tests/Servers.antt =====
-- A connection opens, and the connection "g-conn-1" of a new gateway closes.
use nebula_im.Base.{ℕ, true, [], ◌∷◌}
use nebula_im.Base.Keys.{text}
use nebula_im.Fault.RateLimiter.{TokenBucket}
use nebula_im.Gateway.ConnectionManager.{init}
use nebula_im.Gateway.ConnectionManager.Invariant.{init-IsValid}
use nebula_im.Gateway.Router.{Router}
use nebula_im.Gateway.Server.{
  GatewayServer, Connection, get_connection_id, on_connected, on_disconnected,
}
use nebula_im.Gateway.Server.Closing.{
  Forgotten, Known, on_disconnected-Forgotten, on_connected-Known,
}

abbrev endless : TokenBucket ℕ
endless = record { make = λ capacity rate now. capacity; take_token = λ b now. (true, b) }

abbrev idle_router : Router ℕ
idle_router = record {
  manager = init (text "g");
  limiter = record {
    config = record {
      enabled = true;
      login_per_minute = 10;
      message_per_second = 10;
      connection_packet_per_second = 10;
      max_bucket_count = 100;
      bucket_idle_seconds = 60;
    };
    buckets = [];
    operation_count = 0;
  };
  breakers = [];
  has_executor = true;
  outbox = [];
  jobs = [];
  online_tasks = [];
  force_closed = [];
}

abbrev idle : GatewayServer ℕ
idle = record {
  router = idle_router;
  rate_limiter = idle_router.limiter;
  conn_name_to_id = (text "c", text "g-conn-1") ∷ [];
  websocket_connections = [];
  wire = [];
  force_closed = [];
}

abbrev client : Connection
client = record { conn = 4; name = text "c"; peer_addr = text "10.0.0.1:9" }

on_disconnected-Forgotten_example :
    Forgotten client (get_connection_id (text "c") idle) idle (on_disconnected endless client idle)
on_disconnected-Forgotten_example =
    on_disconnected-Forgotten endless client idle (init-IsValid (text "g"))

on_connected-Known_example : Known client 30 idle (on_connected client 30 idle)
on_connected-Known_example = on_connected-Known client 30 idle (init-IsValid (text "g"))
