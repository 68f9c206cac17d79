-- ===== src/Net/TcpConnection.antt =====
-- common/net/TcpConnection.{h,cpp} on one event loop. What the kernel and OpenSSL answer is an
-- argument; what they took of the output is `sent`, and `calls` lists the callbacks that ran. The
-- input and output buffers are those of common/net/Buffer, whose aborts are `none` here too.
pub mod Events
pub mod Stream
pub mod Sending
pub mod Drain
pub mod Closed
use nebula_im.Base.{
  ℕ, Bool, true, false, not, ◌&&◌, ◌||◌, Option, none, some, List, [], ◌∷◌, ◌++◌, length, take,
  drop, ltb, ◌==◌, if◌then◌else◌, ◌>>=◌, sub_size,
}
use nebula_im.Net.Buffer.{
  Buffer, init, readable_bytes, peek, retrieve, append, ReadResult, failed, got, read_fd,
  WriteResult, write_failed, wrote, write_fd,
}

pub data State : Type 0 where
  disconnected : State
  connecting : State
  connected : State
  disconnecting : State

pub data Callback : Type 0 where
  connection_callback : Callback
  message_callback : Callback
  write_complete_callback : Callback
  close_callback : Callback

-- Which callbacks are set.
abbrev pub CallbackSet : Type 0
CallbackSet = Callback → Bool

-- What waits in the event loop: the functors that a connection queues.
pub data Task : Type 0 where
  send_task : List ℕ → Task
  shutdown_task : Task
  force_close_task : Task
  write_complete_task : Task

-- `reading` and `writing` are the channel's events; `write_shut` tells whether the socket's write
-- side was shut, `registered` whether the poller knows the channel.
pub record TcpConnection : Type 0 where
  pub state : State
  pub reading : Bool
  pub writing : Bool
  pub registered : Bool
  pub tls : Bool
  pub tls_handshake_done : Bool
  pub tls_shut : Bool
  pub write_shut : Bool
  pub input : Buffer
  pub output : Buffer
  pub callbacks : CallbackSet
  pub pending : List Task
  pub sent : List ℕ
  pub calls : List Callback

-- What `SSL_get_error` says of a call that moved nothing.
pub data SslError : Type 0 where
  want_read : SslError
  want_write : SslError
  zero_return : SslError
  other_error : SslError

-- The answers to the calls of `SSL_read` that one loop makes, up to the first error.
pub data SslReads : Type 0 where
  read_stop : SslError → SslReads
  read_more : List ℕ → SslReads → SslReads

-- The same for `SSL_write`, with how many bytes each call took.
pub data SslWrites : Type 0 where
  write_stop : SslError → SslWrites
  write_more : ℕ → SslWrites → SslWrites

-- The answers that one call of a handler gets: of `readv`, `send`, `SSL_accept` (`none` for
-- success), and of the loops on `SSL_read` and `SSL_write`.
pub record Answers : Type 0 where
  pub read_result : ReadResult
  pub send_result : WriteResult
  pub accept : Option SslError
  pub ssl_reads : SslReads
  pub ssl_writes : SslWrites

abbrev pub init_connection : Bool → CallbackSet → TcpConnection
init_connection tls callbacks = record {
  state = connecting;
  reading = false;
  writing = false;
  registered = false;
  tls = tls;
  tls_handshake_done = false;
  tls_shut = false;
  write_shut = false;
  input = init;
  output = init;
  callbacks = callbacks;
  pending = [];
  sent = [];
  calls = [];
}

abbrev pub is_connected : State → Bool
is_connected connected = true
is_connected _ = false

abbrev pub is_disconnecting : State → Bool
is_disconnecting disconnecting = true
is_disconnecting _ = false

abbrev pub is_disconnected : State → Bool
is_disconnected disconnected = true
is_disconnected _ = false

abbrev pub set_state : State → TcpConnection → TcpConnection
set_state s c = record c { state = s }

abbrev pub enable_reading : TcpConnection → TcpConnection
enable_reading c = record c { reading = true; registered = true }

abbrev pub enable_writing : TcpConnection → TcpConnection
enable_writing c = record c { writing = true; registered = true }

abbrev pub disable_writing : TcpConnection → TcpConnection
disable_writing c = record c { writing = false }

abbrev pub disable_all : TcpConnection → TcpConnection
disable_all c = record c { reading = false; writing = false }

-- `if (cb) cb(...)`.
abbrev pub notify : Callback → TcpConnection → TcpConnection
notify cb c = record c { calls = c.calls ++ (if c.callbacks cb then cb ∷ [] else []) }

abbrev pub queue_in_loop : Task → TcpConnection → TcpConnection
queue_in_loop t c = record c { pending = c.pending ++ (t ∷ []) }

unfoldable pub handle_close : TcpConnection → TcpConnection
handle_close c =
    notify close_callback (notify connection_callback (disable_all (set_state disconnected c)))

unfoldable pub shutdown_in_loop : TcpConnection → TcpConnection
shutdown_in_loop c =
    if c.writing
    then c
    else record c { tls_shut = c.tls_shut || (c.tls && c.tls_handshake_done); write_shut = true }

unfoldable pub force_close_in_loop : TcpConnection → TcpConnection
unfolding handle_close
force_close_in_loop c =
    if is_connected c.state || is_disconnecting c.state then handle_close c else c

abbrev pub queue_write_complete : TcpConnection → TcpConnection
queue_write_complete c =
    if c.callbacks write_complete_callback then queue_in_loop write_complete_task c else c

-- The output is empty: `handleWrite` and `handleTlsWrite` end alike.
unfoldable pub output_drained : TcpConnection → TcpConnection
unfolding shutdown_in_loop
output_drained c =
    let c' = queue_write_complete (disable_writing c) in
    if is_disconnecting c'.state then shutdown_in_loop c' else c'

unfoldable pub handshake_failed : SslError → TcpConnection → TcpConnection
unfolding handle_close
handshake_failed want_read c = disable_writing c
handshake_failed want_write c = enable_writing c
handshake_failed _ c = handle_close c

-- Whether the handshake is done, and the state.
unfoldable pub do_tls_handshake : Option SslError → TcpConnection → Bool × TcpConnection
unfolding handshake_failed
do_tls_handshake answer c = if not c.tls || c.tls_handshake_done then (true, c) else elim answer [
  | none ↦ (
    true,
    record c {
      tls_handshake_done = true;
      writing = c.writing && not (readable_bytes c.output == 0);
    },
  )
  | some e ↦ (false, handshake_failed e c)
]

unfoldable pub tls_write_failed : SslError → TcpConnection → TcpConnection
unfolding handle_close
tls_write_failed want_write c = c
tls_write_failed want_read c = c
tls_write_failed _ c = handle_close c

-- The loop of `handleTlsWrite`.
unfoldable pub tls_write_loop : SslWrites → TcpConnection → Option TcpConnection
unfolding output_drained tls_write_failed
tls_write_loop (write_stop e) c =
    if ltb 0 (readable_bytes c.output) then some (tls_write_failed e c) else some (output_drained c)
tls_write_loop (write_more n w) c =
    if ltb 0 (readable_bytes c.output)
    then (do
      output ← retrieve c.output n
      tls_write_loop w (record c { output = output; sent = c.sent ++ take n (peek c.output) }))
    else some (output_drained c)

unfoldable pub handle_tls_write : Option SslError → SslWrites → TcpConnection → Option TcpConnection
unfolding do_tls_handshake tls_write_loop
handle_tls_write answer w c =
    let (done, c') = do_tls_handshake answer c in if done then tls_write_loop w c' else some c'
