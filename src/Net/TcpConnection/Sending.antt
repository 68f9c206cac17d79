-- ===== src/Net/TcpConnection/Sending.antt =====
-- `sendInLoop` on a connection without TLS.
use nebula_im.Base.{
  ℕ, ◌≡◌, refl, sym, ap, ◌∙◌, true, false, not, ◌&&◌, some, List, [], ◌++◌, length, if◌then◌else◌,
  arith, append-nil, subst, Bool-cases, inl, inr,
}
use nebula_im.Net.Buffer.{readable_bytes, WriteResult}
use nebula_im.Net.Buffer.Contents.{contents, Fits, readable_lem}
use nebula_im.Net.TcpConnection.{TcpConnection, Answers, is_disconnected}
use nebula_im.Net.TcpConnection.Events.{buffer_rest, first_send, send_in_loop}
use nebula_im.Net.TcpConnection.Stream.{
  stream, some_left, IsSound, Streams, Takes, surviving, none_left, buffer_rest-Streams,
  first_send-Streams,
}

-- What `sendInLoop` accepts of a message in a state.
abbrev pub accepts : TcpConnection → WriteResult → List ℕ → List ℕ
accepts c r message =
    if is_disconnected c.state then [] else if c.writing then message else surviving r message

send_busy :
    (c : TcpConnection) (a : Answers) (message : List ℕ)
    → is_disconnected c.state ≡ false
    → c.tls ≡ false
    → c.writing ≡ true
    → send_in_loop a message c ≡ buffer_rest message c
unfolding send_in_loop
send_busy c a message h k w = ground arith

send_idle :
    (c : TcpConnection) (a : Answers) (message : List ℕ)
    → is_disconnected c.state ≡ false
    → c.tls ≡ false
    → c.writing ≡ false
    → readable_bytes c.output ≡ 0
    → send_in_loop a message c ≡ first_send message a.send_result c
unfolding send_in_loop
send_idle c a message h k w e = ground arith

send_closed :
    (c : TcpConnection) (a : Answers) (message : List ℕ)
    → is_disconnected c.state ≡ true
    → send_in_loop a message c ≡ some c
unfolding send_in_loop
send_closed c a message h = ground arith

waiting_left :
    (c : TcpConnection) → IsSound c → is_disconnected c.state ≡ false → c.writing ≡ some_left c
waiting_left c s opened = s.waits ∙ ap (λ t. not t && some_left c) opened

-- A connection that is not closed accepts a message.
send_open :
    (c : TcpConnection) (a : Answers) (message : List ℕ)
    → IsSound c
    → is_disconnected c.state ≡ false
    → Takes a.send_result (length message)
    → Fits c.output (length message)
    → (c' : TcpConnection) × (send_in_loop a message c ≡ some c')
      × Streams (accepts c a.send_result message) c c'
send_open c a message s opened took fits = elim (Bool-cases c.writing) [
  | inl w ↦
      let (c', e, after) =
        buffer_rest-Streams message message c c s.plain s.valid (ap not opened)
          (waiting_left c s opened) refl refl fits in
      (
        c',
        send_busy c a message opened s.plain w ∙ e,
        subst (λ t. Streams t c c') (ground arith) after,
      )
  | inr w ↦
      let empty = none_left (contents c.output) (sym (waiting_left c s opened) ∙ w) in
      let (c', e, after) =
        first_send-Streams message a.send_result c s w empty (ap not opened) took fits in
      (
        c',
        send_idle c a message opened s.plain w (readable_lem c.output s.valid ∙ ap length empty)
            ∙ e,
        subst (λ t. Streams t c c') (ground arith) after,
      )
]

-- On a connection without TLS that waits for writability exactly while it is open and has
-- output, sendInLoop of a message that fits the output buffer does not abort, whatever the
-- kernel takes of it at once: what the kernel took followed by the output grows by exactly
-- the message, or by nothing where the connection is closed or a first write fails otherwise
-- than with EAGAIN, and the connection still waits for writability exactly while it is open
-- and has output.
pub send_in_loop-Streams :
    (c : TcpConnection) (a : Answers) (message : List ℕ)
    → IsSound c
    → Takes a.send_result (length message)
    → Fits c.output (length message)
    → (c' : TcpConnection) × (send_in_loop a message c ≡ some c')
      × Streams (accepts c a.send_result message) c c'
send_in_loop-Streams c a message s took fits = elim (Bool-cases (is_disconnected c.state)) [
  | inl closed ↦ (
    c,
    send_closed c a message closed,
    record {
      sound = s;
      grown =
          sym (append-nil (stream c))
          ∙ ap
              (λ t.
                stream c
                ++ (if t
                    then []
                    else if c.writing
                    then message
                    else surviving a.send_result message))
              (sym closed);
      state = refl;
    },
  )
  | inr opened ↦ send_open c a message s opened took fits
]
