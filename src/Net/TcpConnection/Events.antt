-- ===== src/Net/TcpConnection/Events.antt =====
-- The handlers of a connection: `Channel::handleEvent`, the functors of `EventLoop`, and what
-- the rest of the program calls.
use nebula_im.Base.{
  ℕ, suc, Bool, true, false, not, ◌&&◌, ◌||◌, Option, none, some, List, [], ◌∷◌, ◌++◌, length, take,
  drop, ltb, ◌==◌, if◌then◌else◌, ◌>>=◌, sub_size,
}
use nebula_im.Net.Buffer.{
  Buffer, readable_bytes, peek, append, ReadResult, failed, got, read_fd, WriteResult, write_failed,
  wrote, write_fd,
}
use nebula_im.Net.TcpConnection.{
  disconnected, connected, disconnecting, connection_callback, message_callback,
  write_complete_callback, Task, send_task, shutdown_task, force_close_task, write_complete_task,
  TcpConnection, want_read, want_write, SslReads, read_stop, read_more, Answers, is_connected,
  is_disconnecting, is_disconnected, set_state, enable_reading, enable_writing, disable_all, notify,
  queue_in_loop, handle_close, shutdown_in_loop, force_close_in_loop, queue_write_complete,
  output_drained, do_tls_handshake, handle_tls_write,
}

-- `EAGAIN`, which is `EWOULDBLOCK` too.
abbrev pub eagain : ℕ
eagain = 11

-- What the kernel did not take goes to the output buffer.
unfoldable pub buffer_rest : List ℕ → TcpConnection → Option TcpConnection
buffer_rest rest c =
    if ltb 0 (length rest)
    then (do output ← append c.output rest; some (enable_writing (record c { output = output })))
    else some c

-- The kernel took `n` bytes of the message at once.
unfoldable pub sent_now : List ℕ → ℕ → TcpConnection → TcpConnection
sent_now message n c =
    let c' = record c { sent = c.sent ++ take n message } in
    if sub_size (length message) n == 0 then queue_write_complete c' else c'

-- `::send` of the whole message.
unfoldable pub first_send : List ℕ → WriteResult → TcpConnection → Option TcpConnection
unfolding buffer_rest sent_now
first_send message (wrote n) c = buffer_rest (drop n message) (sent_now message n c)
first_send message (write_failed e) c = if e == eagain then buffer_rest message c else some c

unfoldable pub send_in_loop : Answers → List ℕ → TcpConnection → Option TcpConnection
unfolding first_send buffer_rest
send_in_loop a message c =
    if is_disconnected c.state
    then some c
    else if c.tls
    then (do
      output ← append c.output message
      handle_tls_write a.accept a.ssl_writes (enable_writing (record c { output = output })))
    else if not c.writing && (readable_bytes c.output == 0)
    then first_send message a.send_result c
    else buffer_rest message c

-- `handleWrite` behind its call of `writeFd`.
unfoldable pub written : TcpConnection → WriteResult × Buffer → TcpConnection
unfolding output_drained
written c (write_failed e, output) = c
written c (wrote n, output) =
    let c' = record c { output = output; sent = c.sent ++ take n (peek c.output) } in
    if ltb 0 n && (readable_bytes output == 0) then output_drained c' else c'

unfoldable pub handle_write : Answers → TcpConnection → Option TcpConnection
unfolding written
handle_write a c =
    if not c.writing
    then some c
    else if c.tls
    then handle_tls_write a.accept a.ssl_writes c
    else (do r ← write_fd c.output a.send_result; some (written c r))

-- The loop of `handleTlsRead` and what it finds at its end: `none` is a closed connection, and
-- the Boolean tells whether anything was read.
unfoldable pub tls_read_loop :
    SslReads → Bool → TcpConnection → Option (Option Bool × TcpConnection)
unfolding handle_close
tls_read_loop (read_more bytes reads) got_data c = do
  input ← append c.input bytes
  tls_read_loop reads true (record c { input = input })
tls_read_loop (read_stop want_read) got_data c = some (some got_data, c)
tls_read_loop (read_stop want_write) got_data c = some (some got_data, enable_writing c)
tls_read_loop (read_stop _) got_data c = some (none, handle_close c)

unfoldable pub tls_read_end : Option Bool × TcpConnection → TcpConnection
tls_read_end (none, c) = c
tls_read_end (some got_data, c) =
    let c' = if got_data then notify message_callback c else c in
    if ltb 0 (readable_bytes c'.output) then enable_writing c' else c'

unfoldable pub handle_tls_read : Answers → TcpConnection → Option TcpConnection
unfolding tls_read_loop tls_read_end
handle_tls_read a c =
    let (done, c') = do_tls_handshake a.accept c in
    if done then (do r ← tls_read_loop a.ssl_reads false c'; some (tls_read_end r)) else some c'

-- `handleRead` behind its call of `readFd`; an error is only logged.
unfoldable pub read_done : TcpConnection → ReadResult × Buffer → TcpConnection
unfolding handle_close
read_done c (failed e, input) = record c { input = input }
read_done c (got [], input) = handle_close (record c { input = input })
read_done c (got (x ∷ bytes), input) = notify message_callback (record c { input = input })

unfoldable pub handle_read : Answers → TcpConnection → Option TcpConnection
unfolding handle_tls_read read_done
handle_read a c =
    if c.tls
    then handle_tls_read a c
    else (do r ← read_fd c.input a.read_result; some (read_done c r))

-- `revents_`, bit by bit.
pub record Events : Type 0 where
  pub hup : Bool
  pub err : Bool
  pub in_ : Bool
  pub pri : Bool
  pub rdhup : Bool
  pub out : Bool

-- `Channel::handleEvent`, with the answers that the read and the write handler get. The error
-- handler only logs.
unfoldable pub handle_event : Events → Answers → Answers → TcpConnection → Option TcpConnection
unfolding handle_close handle_read handle_write
handle_event e r w c = do
  let c1 = if e.hup && not e.in_ then handle_close c else c
  c2 ← (if e.in_ || (e.pri || e.rdhup) then handle_read r c1 else some c1)
  if e.out then handle_write w c2 else some c2

-- A functor of the loop.
unfoldable pub run_task : Answers → Task → TcpConnection → Option TcpConnection
unfolding send_in_loop shutdown_in_loop force_close_in_loop
run_task a (send_task message) c = send_in_loop a message c
run_task a shutdown_task c = some (shutdown_in_loop c)
run_task a force_close_task c = some (force_close_in_loop c)
run_task a write_complete_task c = some (notify write_complete_callback c)

unfoldable pub run_tasks : (ℕ → Answers) → List Task → TcpConnection → Option TcpConnection
unfolding run_task
run_tasks k [] c = some c
run_tasks k (t ∷ ts) c = do c' ← run_task (k 0) t c; run_tasks (λ i. k (suc i)) ts c'

-- `doPendingFunctors`: what a functor queues waits for the next round.
unfoldable pub do_pending_functors : (ℕ → Answers) → TcpConnection → Option TcpConnection
unfolding run_tasks
do_pending_functors k c = run_tasks k c.pending (record c { pending = [] })

-- `runInLoop`, called in the loop's thread or in another.
unfoldable pub run_in_loop : Bool → Answers → Task → TcpConnection → Option TcpConnection
unfolding run_task
run_in_loop here a t c = if here then run_task a t c else some (queue_in_loop t c)

unfoldable pub send : Bool → Answers → List ℕ → TcpConnection → Option TcpConnection
unfolding run_in_loop
send here a message c =
    if is_connected c.state then run_in_loop here a (send_task message) c else some c

unfoldable pub shutdown : Bool → Answers → TcpConnection → Option TcpConnection
unfolding run_in_loop
shutdown here a c =
    if is_connected c.state
    then run_in_loop here a shutdown_task (set_state disconnecting c)
    else some c

unfoldable pub force_close : TcpConnection → TcpConnection
force_close c =
    if is_connected c.state || is_disconnecting c.state
    then queue_in_loop force_close_task (set_state disconnecting c)
    else c

-- `new_ssl` tells whether `newSsl` gave a session.
unfoldable pub connect_established : Bool → TcpConnection → TcpConnection
unfolding force_close_in_loop
connect_established new_ssl c =
    let c' = set_state connected c in
    if c.tls && not new_ssl
    then force_close_in_loop c'
    else notify connection_callback (enable_reading c')

unfoldable pub connect_destroyed : TcpConnection → TcpConnection
connect_destroyed c =
    let c' =
      if is_connected c.state
      then notify connection_callback (disable_all (set_state disconnected c))
      else c in
    record c' { registered = false }
