-- ===== src/Tests/Routers.antt =====
-- User 7 of connection "a" sends a message, and connection "b" logs in.
use nebula_im.Base.{ℕ, ◌≡◌, refl, Bool, true, false, some, List, [], ◌∷◌, ◌⊎◌}
use nebula_im.Base.Dict.{lookup, insert}
use nebula_im.Base.Keys.{Text, text, text_eq}
use nebula_im.Fault.RateLimiter.{TokenBucket}
use nebula_im.Protocol.MessageType.{send_single_msg_req}
use nebula_im.Gateway.ConnectionManager.{
  ConnectionManager, ConnectionContext, get_connection, bind_user, bind_context, replaced_by,
  release,
}
use nebula_im.Gateway.Router.{
  LoginRequest, ResumeSessionRequest, SessionResponse, Parser, backend_body, register_reply, Router,
  Arrival, touched,
}
use nebula_im.Gateway.Router.Handlers.{handle_packet}
use nebula_im.Gateway.Router.Outcome.{Outcome, handle_packet-Outcome}
use nebula_im.Gateway.Router.Completion.{
  Rpc, rpc_answer, ValidateTokenResponse, SessionResult, login_device, run_login, run_resume,
  live_connection, done_call, done_login,
}
use nebula_im.Gateway.Router.Settled.{Settled, login_opens, done_login-Settled}
use nebula_im.Gateway.Router.Opening.{Had}
use nebula_im.Gateway.Router.Runs.{
  Event, call_done, login_done, GrantedIn, happen, happen_all, happen_all-GrantedIn,
}

-- A bucket that counts its tokens down.
abbrev counting : TokenBucket ℕ
counting = record { make = λ capacity rate now. capacity; take_token = λ b now. (true, b) }

abbrev hello : LoginRequest
hello = record { request_id = text "r"; device_id = text "phone"; platform = []; rest = [] }

abbrev again : ResumeSessionRequest
again = record { request_id = text "r"; token = text "t"; device_id = text "phone"; platform = [] }

abbrev plain_parser : Parser
plain_parser = record {
  parse_register = λ body. (true, hello);
  parse_login = λ body. (true, hello);
  parse_resume = λ body. (true, again);
  parse_call = λ kind body. (true, record { request_id = text "r"; user_id = 0; rest = body });
}

abbrev one_user : ConnectionManager
one_user = record {
  gateway_id = text "g";
  connections = (text "a", 1) ∷ (text "b", 2) ∷ [];
  contexts =
      (
        text "a",
        record {
          connection_id = text "a";
          user_id = 7;
          token = text "t";
          device_id = text "phone";
          platform = [];
          authenticated = true;
          websocket = false;
          connected_at_ms = 0;
          last_active_ms = 0;
          peer_addr = [];
        },
      )
      ∷ [];
  user_device_to_connection = (7, (text "phone", text "a") ∷ []) ∷ [];
  next_conn_id = 3;
}

abbrev gateway_of : ConnectionManager → Router ℕ
gateway_of m = record {
  manager = m;
  limiter = record {
    config = record {
      enabled = true;
      login_per_minute = 10;
      message_per_second = 10;
      connection_packet_per_second = 10;
      max_bucket_count = 100;
      bucket_idle_seconds = 60;
    };
    buckets = [];
    operation_count = 0;
  };
  breakers = [];
  has_executor = true;
  outbox = [];
  jobs = [];
  online_tasks = [];
  force_closed = [];
}

abbrev first_message : Arrival
first_message = record {
  conn = 1;
  ip = text "10.0.0.1";
  connection_id = text "a";
  packet = record { type = send_single_msg_req; sequence_id = 5; body = 1 ∷ 2 ∷ [] };
  now_ms = 20;
  seconds = 1;
  steady_ms = 1000;
}

handle_packet-Outcome_example :
    Outcome first_message
      (touched first_message (gateway_of one_user))
      (handle_packet counting plain_parser first_message (gateway_of one_user))
handle_packet-Outcome_example =
    handle_packet-Outcome counting plain_parser first_message (gateway_of one_user)

abbrev welcome : Rpc SessionResponse
welcome =
    rpc_answer (record {
      code = 0;
      message = text "OK";
      request_id = text "r";
      user_id = 7;
      token = text "t";
    })

abbrev online : ℕ → Text → Text → Bool
online user_id device_id connection_id = true

abbrev all_up : ℕ → Bool
all_up conn = true

abbrev logged_in : SessionResult
logged_in = (run_login online (text "a") hello 1000 welcome []).0

done_login-Settled_example :
    Settled
      (login_opens online (text "a") hello welcome)
      (text "a")
      logged_in.resp.user_id
      (login_device (text "a") hello)
      (gateway_of one_user)
      (done_login all_up (text "a") 5 hello 20 false logged_in (gateway_of one_user))
done_login-Settled_example =
    done_login-Settled all_up online (text "a") 5 hello 1000 20 welcome (gateway_of one_user)

abbrev valid_token : Rpc ValidateTokenResponse
valid_token = rpc_answer (record { code = 0; message = text "OK"; valid = true; user_id = 7 })

abbrev resumed : SessionResult
resumed = (run_resume online (text "b") again 1000 valid_token []).0

abbrev welcomed : SessionResult
welcomed = (run_login online (text "b") hello 1000 welcome []).0

abbrev busy_day : List Event
busy_day =
    call_done register_reply (text "a") 4 (text "r") (backend_body (1 ∷ [])) false
    ∷ login_done (text "b") 5 hello 20 false welcomed
    ∷ []

-- The context of connection "b" at the end of the day.
abbrev b_logged_in : ConnectionContext
b_logged_in = record {
  connection_id = text "b";
  user_id = 7;
  token = text "t";
  device_id = text "phone";
  platform = [];
  authenticated = true;
  websocket = false;
  connected_at_ms = 0;
  last_active_ms = 20;
  peer_addr = [];
}

-- Before, "b" is connected and not logged in.
abbrev two_connected : ConnectionManager
two_connected = record one_user {
  contexts =
      (
        text "b",
        record b_logged_in {
          user_id = 0;
          token = [];
          device_id = [];
          authenticated = false;
          last_active_ms = 0;
        },
      )
      ∷ one_user.contexts;
}

b_binds :
    lookup
      (text "b")
      (happen_all all_up counting plain_parser busy_day (gateway_of two_connected)).manager.contexts
    ≡ some b_logged_in
unfolding happen_all happen done_call done_login live_connection get_connection bind_user
    bind_context replaced_by release run_login lookup insert
b_binds = refl

happen_all-GrantedIn_example :
    Had two_connected (text "b") b_logged_in ⊎ GrantedIn (text "b") b_logged_in busy_day
happen_all-GrantedIn_example =
    happen_all-GrantedIn all_up counting plain_parser busy_day (gateway_of two_connected) (text "b")
      b_logged_in b_binds refl
