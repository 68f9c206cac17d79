-- ===== src/Net/TcpConnection/Closed.antt =====
-- What is left of a connection without TLS once it is closed.
use nebula_im.Base.{
  ℕ, suc, ◌≡◌, refl, sym, ap, ◌∙◌, subst, Bool, true, false, not, ◌&&◌, ◌||◌, Option, none, some,
  List, [], ◌∷◌, if◌then◌else◌, ◌>>=◌, arith,
}
use nebula_im.Net.Buffer.{Buffer, ReadResult, failed, got, read_fd}
use nebula_im.Net.TcpConnection.{
  disconnected, Task, send_task, shutdown_task, force_close_task, write_complete_task,
  TcpConnection, Answers, handle_close, notify, write_complete_callback, shutdown_in_loop,
  force_close_in_loop,
}
use nebula_im.Net.TcpConnection.Events.{
  Events, send_in_loop, handle_write, read_done, handle_read, handle_tls_read, handle_event,
  run_task, run_tasks, do_pending_functors, send, shutdown, force_close, connect_destroyed,
}

pub record IsClosed (c : TcpConnection) : Type 0 where
  pub plain : c.tls ≡ false
  pub state : c.state ≡ disconnected
  pub writing : c.writing ≡ false

-- Still closed, and the kernel got no more bytes.
pub record Silent (c c' : TcpConnection) : Type 0 where
  pub closed : IsClosed c'
  pub sent : c'.sent ≡ c.sent

-- Every result there is.
abbrev pub All : (TcpConnection → Type 0) → Option TcpConnection → Type 0
All P none = Unit {0}
All P (some c) = P c

-- What the rest of the program, the poller and the loop do with a connection.
pub data Action : Type 0 where
  sending : Bool → Answers → List ℕ → Action
  shutting : Bool → Answers → Action
  forcing : Action
  event : Events → Answers → Answers → Action
  pending : (ℕ → Answers) → Action
  destroying : Action

unfoldable pub perform : Action → TcpConnection → Option TcpConnection
perform (sending here a message) c = send here a message c
perform (shutting here a) c = shutdown here a c
perform forcing c = some (force_close c)
perform (event e r w) c = handle_event e r w c
perform (pending k) c = do_pending_functors k c
perform destroying c = some (connect_destroyed c)

unfoldable pub run : List Action → TcpConnection → Option TcpConnection
run [] c = some c
run (x ∷ xs) c = do c' ← perform x c; run xs c'

Silent-of_fields :
    (c c' : TcpConnection)
    → IsClosed c
    → c'.tls ≡ c.tls
    → c'.state ≡ c.state
    → c'.writing ≡ c.writing
    → c'.sent ≡ c.sent
    → Silent c c'
Silent-of_fields c c' h tls state writing sent = record {
  closed = record { plain = tls ∙ h.plain; state = state ∙ h.state; writing = writing ∙ h.writing };
  sent = sent;
}

Silent-refl : (c : TcpConnection) → IsClosed c → Silent c c
Silent-refl c h = Silent-of_fields c c h refl refl refl refl

Silent-trans : (c c1 c2 : TcpConnection) → Silent c c1 → Silent c1 c2 → Silent c c2
Silent-trans c c1 c2 f g = record { closed = g.closed; sent = g.sent ∙ f.sent }

All-bind :
    (c : TcpConnection) (o : Option TcpConnection) (f : TcpConnection → Option TcpConnection)
    → All (Silent c) o
    → ((c1 : TcpConnection) → IsClosed c1 → All (Silent c1) (f c1))
    → All (Silent c) (o >>= f)
All-bind c none f h k = tt
All-bind c (some c1) f h k = All-then c c1 (f c1) h (k c1 h.closed)
  where
    All-then :
        (c c1 : TcpConnection) (o : Option TcpConnection)
        → Silent c c1
        → All (Silent c1) o
        → All (Silent c) o
    All-then c c1 none f g = tt
    All-then c c1 (some c2) f g = Silent-trans c c1 c2 f g

send_when_closed :
    (c : TcpConnection) (here : Bool) (a : Answers) (message : List ℕ)
    → IsClosed c
    → send here a message c ≡ some c
unfolding send
send_when_closed c here a message h = ground (arith, h.state)

shutdown_when_closed :
    (c : TcpConnection) (here : Bool) (a : Answers) → IsClosed c → shutdown here a c ≡ some c
unfolding shutdown
shutdown_when_closed c here a h = ground (arith, h.state)

force_close_when_closed : (c : TcpConnection) → IsClosed c → force_close c ≡ c
unfolding force_close
force_close_when_closed c h = ground (arith, h.state)

handle_write_when_closed :
    (c : TcpConnection) (a : Answers) → IsClosed c → handle_write a c ≡ some c
unfolding handle_write
handle_write_when_closed c a h = ground (arith, h.writing)

handle_close-Silent : (c : TcpConnection) → IsClosed c → Silent c (handle_close c)
unfolding handle_close
handle_close-Silent c h = record {
  closed = record { plain = h.plain; state = refl; writing = refl };
  sent = refl;
}

destroyed-Silent : (c : TcpConnection) → IsClosed c → Silent c (connect_destroyed c)
unfolding connect_destroyed
destroyed-Silent c h =
    Silent-of_fields c (connect_destroyed c) h (ground arith) (ground (arith, h.state))
      (ground (arith, h.writing)) (ground arith)

read_done-Silent :
    (c : TcpConnection) (r : ReadResult × Buffer) → IsClosed c → Silent c (read_done c r)
unfolding read_done handle_close
read_done-Silent c (failed e, input) h =
    Silent-of_fields c (record c { input = input }) h refl refl refl refl
read_done-Silent c (got [], input) h = record {
  closed = record { plain = h.plain; state = refl; writing = refl };
  sent = refl;
}
read_done-Silent c (got (x ∷ bytes), input) h =
    Silent-of_fields c (read_done c (got (x ∷ bytes), input)) h refl refl refl refl

All-map :
    (c : TcpConnection) (o : Option (ReadResult × Buffer)) (f : ReadResult × Buffer → TcpConnection)
    → ((r : ReadResult × Buffer) → Silent c (f r))
    → All (Silent c) (do r ← o; some (f r))
All-map c none f h = tt
All-map c (some r) f h = h r

All-else :
    (P : TcpConnection → Type 0) (b : Bool) (x y : Option TcpConnection)
    → b ≡ false
    → All P y
    → All P (if b then x else y)
All-else P true x y h k = absurd (ground arith)
All-else P false x y h k = k

All-if :
    (P : TcpConnection → Type 0) (b : Bool) (x y : Option TcpConnection)
    → All P x
    → All P y
    → All P (if b then x else y)
All-if P true x y h k = h
All-if P false x y h k = k

handle_read-Silent :
    (c : TcpConnection) (a : Answers) → IsClosed c → All (Silent c) (handle_read a c)
unfolding handle_read
handle_read-Silent c a h =
    All-else (Silent c) c.tls (handle_tls_read a c)
      (do r ← read_fd c.input a.read_result; some (read_done c r)) h.plain
      (All-map c (read_fd c.input a.read_result) (read_done c) (λ r. read_done-Silent c r h))

shutdown_in_loop-Silent : (c : TcpConnection) → IsClosed c → Silent c (shutdown_in_loop c)
unfolding shutdown_in_loop
shutdown_in_loop-Silent c h =
    Silent-of_fields c (shutdown_in_loop c) h (ground arith) (ground arith) (ground arith)
      (ground arith)

force_close_in_loop_when_closed : (c : TcpConnection) → IsClosed c → force_close_in_loop c ≡ c
unfolding force_close_in_loop
force_close_in_loop_when_closed c h = ground (arith, h.state)

send_in_loop_when_closed :
    (c : TcpConnection) (a : Answers) (message : List ℕ)
    → IsClosed c
    → send_in_loop a message c ≡ some c
unfolding send_in_loop
send_in_loop_when_closed c a message h = ground (arith, h.state)

All-same :
    (c : TcpConnection) (o : Option TcpConnection) → IsClosed c → o ≡ some c → All (Silent c) o
All-same c o h e = subst (All (Silent c)) (sym e) (Silent-refl c h)

run_task-Silent :
    (c : TcpConnection) (a : Answers) (t : Task) → IsClosed c → All (Silent c) (run_task a t c)
unfolding run_task
run_task-Silent c a (send_task message) h =
    All-same c (send_in_loop a message c) h (send_in_loop_when_closed c a message h)
run_task-Silent c a shutdown_task h = shutdown_in_loop-Silent c h
run_task-Silent c a force_close_task h =
    All-same c (some (force_close_in_loop c)) h (ap some (force_close_in_loop_when_closed c h))
run_task-Silent c a write_complete_task h =
    Silent-of_fields c (notify write_complete_callback c) h refl refl refl refl

run_tasks-Silent :
    (k : ℕ → Answers) (ts : List Task) (c : TcpConnection)
    → IsClosed c
    → All (Silent c) (run_tasks k ts c)
unfolding run_tasks
run_tasks-Silent k [] c h = Silent-refl c h
run_tasks-Silent k (t ∷ ts) c h =
    All-bind c (run_task (k 0) t c) (run_tasks (λ i. k (suc i)) ts) (run_task-Silent c (k 0) t h)
      (λ c1 h1. run_tasks-Silent (λ i. k (suc i)) ts c1 h1)

hung-Silent :
    (c : TcpConnection) (b : Bool) → IsClosed c → Silent c (if b then handle_close c else c)
hung-Silent c true h = handle_close-Silent c h
hung-Silent c false h = Silent-refl c h

read_write-Silent :
    (c : TcpConnection) (b d : Bool) (r w : Answers)
    → IsClosed c
    → All
        (Silent c)
        (do c2 ← (if b then handle_read r c else some c); if d then handle_write w c2 else some c2)
read_write-Silent c b d r w h =
    All-bind c (if b then handle_read r c else some c)
      (λ c2. if d then handle_write w c2 else some c2)
      (All-if (Silent c) b (handle_read r c) (some c) (handle_read-Silent c r h) (Silent-refl c h))
      (λ c1 h1.
        All-if (Silent c1) d (handle_write w c1) (some c1)
          (All-same c1 (handle_write w c1) h1 (handle_write_when_closed c1 w h1))
          (Silent-refl c1 h1))

handle_event-Silent :
    (c : TcpConnection) (e : Events) (r w : Answers)
    → IsClosed c
    → All (Silent c) (handle_event e r w c)
unfolding handle_event
handle_event-Silent c e r w h =
    All-bind c (some (if e.hup && not e.in_ then handle_close c else c))
      (λ c1. do
        c2 ← (if e.in_ || (e.pri || e.rdhup) then handle_read r c1 else some c1)
        if e.out then handle_write w c2 else some c2)
      (hung-Silent c (e.hup && not e.in_) h)
      (λ c1 h1. read_write-Silent c1 (e.in_ || (e.pri || e.rdhup)) e.out r w h1)

perform-Silent : (x : Action) (c : TcpConnection) → IsClosed c → All (Silent c) (perform x c)
unfolding perform do_pending_functors
perform-Silent (sending here a message) c h =
    All-same c (send here a message c) h (send_when_closed c here a message h)
perform-Silent (shutting here a) c h =
    All-same c (shutdown here a c) h (shutdown_when_closed c here a h)
perform-Silent forcing c h =
    All-same c (some (force_close c)) h (ap some (force_close_when_closed c h))
perform-Silent (event e r w) c h = handle_event-Silent c e r w h
perform-Silent (pending k) c h = emptied c k h
  where
    emptied :
        (c : TcpConnection) (k : ℕ → Answers)
        → IsClosed c
        → All (Silent c) (run_tasks k c.pending (record c { pending = [] }))
    emptied c k h =
        All-bind c (some (record c { pending = [] })) (run_tasks k c.pending)
          (Silent-of_fields c (record c { pending = [] }) h refl refl refl refl)
          (λ c1 h1. run_tasks-Silent k c.pending c1 h1)
perform-Silent destroying c h = destroyed-Silent c h

-- Once a connection without TLS is disconnected and does not wait for writability, no calls
-- of send, shutdown and forceClose, no events, no pending functors and no connectDestroyed,
-- in any order, make it send another byte or become open again.
pub run-Silent : (xs : List Action) (c : TcpConnection) → IsClosed c → All (Silent c) (run xs c)
unfolding run
run-Silent [] c h = Silent-refl c h
run-Silent (x ∷ xs) c h =
    All-bind c (perform x c) (run xs) (perform-Silent x c h) (λ c1 h1. run-Silent xs c1 h1)

-- `handleClose` closes.
pub handle_close-IsClosed : (c : TcpConnection) → c.tls ≡ false → IsClosed (handle_close c)
unfolding handle_close
handle_close-IsClosed c h = record { plain = h; state = refl; writing = refl }
