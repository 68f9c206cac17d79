-- ===== src/Gateway/ConnectionManager/Runs.antt =====
-- Every sequence of calls of the connection manager.
use nebula_im.Base.{ℕ, Bool, List, [], ◌∷◌}
use nebula_im.Base.Keys.{Text, text_eq}
use nebula_im.Gateway.ConnectionManager.{
  ConnectionManager, init, add_connection, remove_connection, bind_user, mark_web_socket,
  update_active_time,
}
use nebula_im.Gateway.ConnectionManager.Invariant.{
  IsValid, init-IsValid, mark_web_socket-IsValid, update_active_time-IsValid,
}
use nebula_im.Gateway.ConnectionManager.Binding.{
  add_connection-IsValid, remove_connection-IsValid, bind_user-IsValid,
}

-- A call that changes the state, with its arguments and the time that it reads.
pub data Operation : Type 0 where
  add : ℕ → Text → ℕ → Operation
  remove : Text → Operation
  bind : Text → ℕ → Text → Text → Text → ℕ → Operation
  mark : Text → Bool → Operation
  touch : Text → ℕ → Operation

unfoldable pub perform : ConnectionManager → Operation → ConnectionManager
perform m (add conn peer_addr now) = (add_connection m conn peer_addr now).1
perform m (remove c) = remove_connection m c
perform m (bind c user_id token device_id platform now) =
    (bind_user m c user_id token device_id platform now).2
perform m (mark c websocket) = (mark_web_socket m c websocket).1
perform m (touch c now) = (update_active_time m c now).1

-- One after the other, as the mutex orders them.
unfoldable pub perform_all : ConnectionManager → List Operation → ConnectionManager
perform_all m [] = m
perform_all m (o ∷ os) = perform_all (perform m o) os

perform-IsValid : (m : ConnectionManager) (o : Operation) → IsValid m → IsValid (perform m o)
unfolding perform
perform-IsValid m (add conn peer_addr now) v = add_connection-IsValid m conn peer_addr now v
perform-IsValid m (remove c) v = remove_connection-IsValid m c v
perform-IsValid m (bind c user_id token device_id platform now) v =
    bind_user-IsValid m c user_id token device_id platform now v
perform-IsValid m (mark c websocket) v = mark_web_socket-IsValid m c websocket v
perform-IsValid m (touch c now) v = update_active_time-IsValid m c now v

perform_all_keeps-IsValid :
    (m : ConnectionManager) (os : List Operation) → IsValid m → IsValid (perform_all m os)
unfolding perform_all
perform_all_keeps-IsValid m [] v = v
perform_all_keeps-IsValid m (o ∷ os) v =
    perform_all_keeps-IsValid (perform m o) os (perform-IsValid m o v)

-- After any calls of addConnection, removeConnection, bindUser, markWebSocket and
-- updateActiveTime, from a new manager on: each connection that the device index lists for a
-- user and a device has a context that is logged in with exactly that user and device, the
-- user is not 0 and the device not empty; no user is listed without a device; a connection
-- has a context exactly if it has a socket; and no id that is still to be given is in use.
pub perform_all-IsValid :
    (gateway_id : Text) (os : List Operation) → IsValid (perform_all (init gateway_id) os)
perform_all-IsValid gateway_id os =
    perform_all_keeps-IsValid (init gateway_id) os (init-IsValid gateway_id)
