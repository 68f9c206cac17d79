-- ===== src/Tests/Sockets.antt =====
-- A connection that sends "hi" while the kernel takes one byte at a time.
use nebula_im.Base.{ℕ, ◌≡◌, refl, true, false, none, some, List, [], ◌∷◌, ◌>>=◌, arith}
use nebula_im.Net.Buffer.{Buffer, init, got, wrote}
use nebula_im.Net.Buffer.Contents.{contents, init-IsValid}
use nebula_im.Net.TcpConnection.{
  connected, TcpConnection, Answers, want_read, read_stop, write_stop, init_connection,
  handle_close,
}
use nebula_im.Net.TcpConnection.Events.{Events, send_in_loop, shutdown}
use nebula_im.Net.TcpConnection.Stream.{IsSound, Streams, stream}
use nebula_im.Net.TcpConnection.Sending.{accepts, send_in_loop-Streams}
use nebula_im.Net.TcpConnection.Drain.{write_events, shutdown-AllSent}
use nebula_im.Net.TcpConnection.Closed.{
  Silent, All, Action, sending, event, run, run-Silent, handle_close-IsClosed,
}

abbrev one_byte : Answers
one_byte = record {
  read_result = got [];
  send_result = wrote 1;
  accept = none;
  ssl_reads = read_stop want_read;
  ssl_writes = write_stop want_read;
}

abbrev fresh : TcpConnection
fresh = record (init_connection false (λ cb. true)) { state = connected; reading = true }

fresh-IsSound : IsSound fresh
unfolding init
fresh-IsSound = record { plain = refl; valid = init-IsValid.0; waits = refl }

abbrev hi : List ℕ
hi = 104 ∷ 105 ∷ []

send_in_loop-Streams_example :
    (c' : TcpConnection) × (send_in_loop one_byte hi fresh ≡ some c')
    × Streams (accepts fresh (wrote 1) hi) fresh c'
unfolding init
send_in_loop-Streams_example =
    send_in_loop-Streams fresh one_byte hi fresh-IsSound (omega arith) (omega arith)

abbrev waiting : Buffer
waiting = record {
  storage = 0 ∷ 0 ∷ 0 ∷ 0 ∷ 0 ∷ 0 ∷ 0 ∷ 0 ∷ hi;
  reader_index = 8;
  writer_index = 10;
}

abbrev busy : TcpConnection
busy = record fresh { writing = true; output = waiting }

busy-IsSound : IsSound busy
busy-IsSound = record { plain = refl; valid = omega arith; waits = refl }

shutdown-AllSent_example :
    (c' : TcpConnection) × ((shutdown true one_byte busy >>= write_events (0 ∷ 7 ∷ []) one_byte)
      ≡ some c')
    × (c'.sent ≡ stream busy)
    × (contents c'.output ≡ [])
    × (c'.write_shut ≡ true)
shutdown-AllSent_example =
    shutdown-AllSent (0 ∷ 7 ∷ []) one_byte busy busy-IsSound refl (omega arith)

abbrev hang_up : Events
hang_up = record { hup = true; err = false; in_ = true; pri = false; rdhup = true; out = true }

abbrev late : List Action
late = sending false one_byte hi ∷ event hang_up one_byte one_byte ∷ []

run-Silent_example : All (Silent (handle_close busy)) (run late (handle_close busy))
run-Silent_example = run-Silent late (handle_close busy) (handle_close-IsClosed busy refl)
