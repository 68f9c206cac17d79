-- ===== src/Gateway/Router/Completion.antt =====
-- common/gateway/GatewayRouter.cpp: the jobs, which run on the RPC executor's threads, and what is
-- done with their results in the connection's loop (common/async/RpcExecutor.h).
use nebula_im.Base.{
  ℕ, Bool, true, false, not, ◌&&◌, ◌||◌, Option, none, some, List, [], ◌∷◌, ◌++◌, ◌==◌,
  if◌then◌else◌,
}
use nebula_im.Base.Keys.{Text, text}
use nebula_im.Fault.ErrorCode.{
  ok, to_int, gateway_backend_rpc_failed, gateway_online_state_failed, service_unavailable,
}
use nebula_im.Fault.CircuitBreaker.{Breakers, manager_record_success, manager_record_failure}
use nebula_im.Gateway.ConnectionManager.{ConnectionManager, is_empty, bind_user, get_connection}
use nebula_im.Gateway.Router.{
  LoginRequest, ResumeSessionRequest, SessionResponse, Body, error_body, backend_body, session_body,
  Reply, login_reply, resume_reply, set_offline, Router, user_service, send_packet, send_error,
  queue_online,
}

-- What a call of a backend gives: an error message of gRPC, or an answer.
pub data Rpc (A : Type 0) : Type 0 where
  rpc_error : Text → Rpc A
  rpc_answer : A → Rpc A

pub record ValidateTokenResponse : Type 0 where
  pub code : ℕ
  pub message : Text
  pub valid : Bool
  pub user_id : ℕ

-- `LoginResult` and `ResumeResult`.
pub record SessionResult : Type 0 where
  pub resp : SessionResponse
  pub rpc_ok : Bool
  pub online_ok : Bool

abbrev pub empty_response : SessionResponse
empty_response = record { code = 0; message = []; request_id = []; user_id = 0; token = [] }

-- The results that stand for a job that threw, or that the executor's pool refused.
abbrev pub empty_login : SessionResult
empty_login = record { resp = empty_response; rpc_ok = true; online_ok = true }

abbrev pub empty_resume : SessionResult
empty_resume = record { resp = empty_response; rpc_ok = true; online_ok = false }

abbrev pub login_device : Text → LoginRequest → Text
login_device connection_id req = if is_empty req.device_id then connection_id else req.device_id

-- The job of a call, or of a registration: the body to answer with, and the breakers.
unfoldable pub run_call : Text → Text → ℕ → Rpc (List ℕ) → Breakers → Body × Breakers
run_call service request_id now (rpc_error message) breakers = (
  error_body gateway_backend_rpc_failed message request_id,
  manager_record_failure breakers service now,
)
run_call service request_id now (rpc_answer bytes) breakers =
    (backend_body bytes, manager_record_success breakers service)

abbrev pub with_online : Bool → SessionResponse → SessionResponse
with_online true resp = resp
with_online false resp = record resp {
  code = to_int gateway_online_state_failed;
  message = text "online state failed";
}

-- The job of a login; `set_online` is what `setOnline` returns.
unfoldable pub run_login :
    (ℕ → Text → Text → Bool)
    → Text
    → LoginRequest
    → ℕ
    → Rpc SessionResponse
    → Breakers
    → SessionResult × Breakers
run_login set_online c req now (rpc_error message) breakers = (
  record {
    resp = record empty_response {
      code = to_int gateway_backend_rpc_failed;
      message = message;
      request_id = req.request_id;
    };
    rpc_ok = false;
    online_ok = true;
  },
  manager_record_failure breakers user_service now,
)
run_login set_online c req now (rpc_answer resp) breakers =
    let online = if resp.code == 0 then set_online resp.user_id (login_device c req) c else true in
    (
      record { resp = with_online online resp; rpc_ok = true; online_ok = online },
      manager_record_success breakers user_service,
    )

unfoldable pub run_resume :
    (ℕ → Text → Text → Bool)
    → Text
    → ResumeSessionRequest
    → ℕ
    → Rpc ValidateTokenResponse
    → Breakers
    → SessionResult × Breakers
run_resume set_online c req now (rpc_error message) breakers = (
  record {
    resp = record empty_response {
      code = to_int gateway_backend_rpc_failed;
      message = message;
      request_id = req.request_id;
    };
    rpc_ok = false;
    online_ok = false;
  },
  manager_record_failure breakers user_service now,
)
run_resume set_online c req now (rpc_answer v) breakers =
    if not (v.code == 0) || (not v.valid || (v.user_id == 0))
    then (
      record {
        resp = record empty_response {
          code = v.code;
          message = v.message;
          request_id = req.request_id;
        };
        rpc_ok = true;
        online_ok = false;
      },
      manager_record_success breakers user_service,
    )
    else (
      record {
        resp = with_online (set_online v.user_id req.device_id c) (record empty_response {
          code = to_int ok;
          message = text "OK";
          request_id = req.request_id;
          user_id = v.user_id;
        });
        rpc_ok = true;
        online_ok = set_online v.user_id req.device_id c;
      },
      manager_record_success breakers user_service,
    )

-- The backend accepted the session, and the user was set online.
abbrev pub is_accepted : SessionResult → Bool
is_accepted r = r.rpc_ok && ((r.resp.code == 0) && r.online_ok)

module _ {B : Type 0} where
  abbrev pub closing : Option ℕ → Router B → Router B
  closing none g = g
  closing (some conn) g = record g { force_closed = g.force_closed ++ (conn ∷ []) }

  -- What `bindUser` answered, and the reply to send.
  unfoldable pub bound :
      ℕ
      → Text
      → Text
      → SessionResponse
      → Bool × Option ℕ × ConnectionManager
      → Router B
      → SessionResponse × Router B
  bound user_id device c resp (true, replaced, m) g =
      (resp, closing replaced (record g { manager = m }))
  bound user_id device c resp (false, replaced, m) g = (
    record resp {
      code = to_int gateway_online_state_failed;
      message = text "connection binding failed";
    },
    queue_online (set_offline user_id device c) g,
  )

  unfoldable pub bind_session :
      Text → Text → Text → Text → ℕ → SessionResult → Router B → SessionResponse × Router B
  unfolding bound
  bind_session token device platform c now r g =
      if is_accepted r
      then bound r.resp.user_id device c r.resp
          (bind_user g.manager c r.resp.user_id token device platform now) g
      else (r.resp, g)

module _ {B : Type 0} (is_connected : ℕ → Bool) where
  -- The connection, if it is still there and connected.
  unfoldable pub live_connection : Text → Router B → Option ℕ
  live_connection c g = elim (get_connection g.manager c) [
    | none ↦ none
    | some conn ↦ if is_connected conn then some conn else none
  ]

  -- The result of a call or of a registration; the Boolean tells that the job failed.
  unfoldable pub done_call :
      (ℕ → Body → Reply) → Text → ℕ → Text → Body → Bool → Router B → Router B
  done_call reply c sequence_id request_id body error g = elim (live_connection c g) [
    | none ↦ g
    | some conn ↦
        if error
        then send_error conn sequence_id service_unavailable
            (text "gateway rpc executor unavailable") request_id g
        else send_packet conn (reply sequence_id body) g
  ]

  -- The end of both: the first Boolean tells whether a user that is set online is to be taken
  -- back where the connection is gone, the second that the job failed.
  unfoldable pub done_session :
      (ℕ → Body → Reply)
      → Text
      → Text
      → Text
      → Text
      → ℕ
      → Text
      → ℕ
      → Bool
      → Bool
      → SessionResult
      → Router B
      → Router B
  unfolding bind_session
  done_session reply token device platform c sequence_id request_id now undo error r g =
      elim (live_connection c g) [
        | none ↦ if undo then queue_online (set_offline r.resp.user_id device c) g else g
        | some conn ↦
            if error
            then send_error conn sequence_id service_unavailable
                (text "gateway rpc executor unavailable") request_id g
            else (let (resp, g') = bind_session token device platform c now r g in
                send_packet conn (reply sequence_id (session_body resp)) g')
      ]

  unfoldable pub done_login :
      Text → ℕ → LoginRequest → ℕ → Bool → SessionResult → Router B → Router B
  unfolding done_session
  done_login c sequence_id req now error r g =
      done_session login_reply r.resp.token (login_device c req) req.platform c sequence_id
        req.request_id now (is_accepted r) error r g

  unfoldable pub done_resume :
      Text → ℕ → ResumeSessionRequest → ℕ → Bool → SessionResult → Router B → Router B
  unfolding done_session
  done_resume c sequence_id req now error r g =
      done_session resume_reply req.token req.device_id req.platform c sequence_id req.request_id
        now (not (r.resp.user_id == 0) && r.online_ok) error r g
