-- ===== src/Net/TcpConnection/Drain.antt =====
-- Writable events empty the output of a connection without TLS, and the shutdown that waited for
-- that follows.
use nebula_im.Base.{
  ℕ, suc, min, ◌≤◌, ◌<◌, ◌≡◌, refl, sym, ap, ◌∙◌, true, false, not, ◌&&◌, ◌||◌, Option, some, List,
  [], ◌∷◌, ◌++◌, length, take, drop, ◌==◌, ◌>>=◌, arith, append_assoc, append-nil, subst,
  Bool-cases, inl, inr, length-drop, take-append-drop, ◌≢◌,
}
use native.Mathlib.Decide.{ℕ_discrete}
use nebula_im.Net.Buffer.{Buffer, readable_bytes, peek, WriteResult, wrote, write_fd}
use nebula_im.Net.Buffer.Contents.{IsValid, contents, Leaves, readable_lem}
use nebula_im.Net.Buffer.Window.{take-window, length-window}
use nebula_im.Net.Buffer.Socket.{write_fd_lem}
use nebula_im.Net.TcpConnection.{
  State, disconnected, connecting, connected, disconnecting, TcpConnection, Answers,
  is_disconnecting, is_disconnected, is_connected, output_drained, shutdown_in_loop, set_state,
}
use nebula_im.Net.TcpConnection.Events.{written, handle_write, shutdown}
use nebula_im.Net.TcpConnection.Stream.{
  stream, some_left, IsSound, Drained, output_drained-Drained, none_left,
}

-- The kernel took `n` bytes of the output.
pub record Wrote (n : ℕ) (c c' : TcpConnection) : Type 0 where
  pub sound : IsSound c'
  pub grown : stream c' ≡ stream c
  pub state : c'.state ≡ c.state
  pub left : contents c'.output ≡ drop n (contents c.output)
  pub shut : c'.write_shut ≡ (c.write_shut || (is_disconnecting c.state && not (some_left c')))

abbrev after_write : ℕ → Buffer → TcpConnection → TcpConnection
after_write n output c = record c { output = output; sent = c.sent ++ take n (peek c.output) }

written_all :
    (c : TcpConnection) (n : ℕ) (output : Buffer)
    → 0 < n
    → readable_bytes output ≡ 0
    → written c (wrote n, output) ≡ output_drained (after_write n output c)
unfolding written
written_all c n output h e = ground arith

written_part :
    (c : TcpConnection) (n : ℕ) (output : Buffer)
    → readable_bytes output ≢ 0
    → written c (wrote n, output) ≡ after_write n output c
unfolding written
written_part c n output e = ground arith

handle_write-some :
    (c : TcpConnection) (a : Answers) (r : WriteResult × Buffer)
    → c.writing ≡ true
    → c.tls ≡ false
    → write_fd c.output a.send_result ≡ some r
    → handle_write a c ≡ some (written c r)
unfolding handle_write
handle_write-some c a r w plain e = ground arith

stream-after_write :
    (c : TcpConnection) (n : ℕ) (output : Buffer)
    → IsValid c.output
    → n ≤ length (contents c.output)
    → contents output ≡ drop n (contents c.output)
    → stream (after_write n output c) ≡ stream c
unfolding peek
stream-after_write c n output v h e =
    ap (λ t. (c.sent ++ t) ++ contents output)
      (take-window c.output.reader_index c.output.writer_index n c.output.storage (
        omega (
          arith,
          length-window c.output.reader_index c.output.writer_index c.output.storage v.within,
        )))
    ∙ ap (λ t. (c.sent ++ take n (contents c.output)) ++ t) e
    ∙ append_assoc c.sent (take n (contents c.output)) (drop n (contents c.output))
    ∙ ap (λ t. c.sent ++ t) (take-append-drop n (contents c.output))

-- Everything went out.
Drained-Wrote :
    (c c' : TcpConnection) (n : ℕ) (output : Buffer)
    → IsSound c
    → n ≤ length (contents c.output)
    → Leaves (drop n (contents c.output)) output
    → contents output ≡ []
    → Drained (after_write n output c) c'
    → Wrote n c c'
Drained-Wrote c c' n output s h l empty d = record {
  sound = record {
    plain = d.tls ∙ s.plain;
    valid = subst IsValid (sym d.output) l.0;
    waits = ground (arith, d.writing, nothing_left);
  };
  grown =
      ap (λ t. t ++ contents c'.output) d.sent
      ∙ ap (λ b. (c.sent ++ take n (peek c.output)) ++ contents b) d.output
      ∙ stream-after_write c n output s.valid h l.1;
  state = d.state;
  left = ap contents d.output ∙ l.1;
  shut = ground (arith, d.write_shut, nothing_left);
}
  where
    nothing_left : some_left c' ≡ false
    nothing_left =
        ap (λ b. not (length (contents b) == 0)) d.output ∙ ap (λ t. not (length t == 0)) empty

-- Some output is left, and the connection still waits.
part-Wrote :
    (c : TcpConnection) (n : ℕ) (output : Buffer)
    → IsSound c
    → c.writing ≡ true
    → n ≤ length (contents c.output)
    → Leaves (drop n (contents c.output)) output
    → not (length (contents output) == 0) ≡ true
    → Wrote n c (after_write n output c)
part-Wrote c n output s w h l more = record {
  sound = record { plain = s.plain; valid = l.0; waits = ground (arith, s.waits, w, more) };
  grown = stream-after_write c n output s.valid h l.1;
  state = refl;
  left = l.1;
  shut = ground (arith, more);
}

written-Wrote :
    (c : TcpConnection) (n : ℕ) (output : Buffer)
    → IsSound c
    → c.writing ≡ true
    → 0 < n
    → n ≤ length (contents c.output)
    → Leaves (drop n (contents c.output)) output
    → Wrote n c (written c (wrote n, output))
written-Wrote c n output s w pos h l = elim (ℕ_discrete (readable_bytes output) 0) [
  | yes e ↦
      subst (λ t. Wrote n c t) (sym (written_all c n output pos e))
        (Drained-Wrote c (output_drained (after_write n output c)) n output s h l
          (none_left (contents output) (ground (arith, readable_lem output l.0)))
          (output_drained-Drained (after_write n output c)))
  | no ne ↦
      subst (λ t. Wrote n c t) (sym (written_part c n output ne))
        (part-Wrote c n output s w h l (ground (arith, readable_lem output l.0)))
]

pub handle_write-Wrote :
    (c : TcpConnection) (a : Answers) (n : ℕ)
    → IsSound c
    → c.writing ≡ true
    → a.send_result ≡ wrote n
    → 0 < n
    → n ≤ length (contents c.output)
    → (c' : TcpConnection) × (handle_write a c ≡ some c') × Wrote n c c'
handle_write-Wrote c a n s w took pos h =
    let (output, e, l) = write_fd_lem c.output n s.valid h in
    (
      written c (wrote n, output),
      handle_write-some c a (wrote n, output) w s.plain (ap (λ r. write_fd c.output r) took ∙ e),
      written-Wrote c n output s w pos h l,
    )

-- At each event the kernel takes at least one byte of what is left, and no more than
-- one plus its offer.
abbrev pub offered : TcpConnection → ℕ → Answers → Answers
offered c offer a = record a { send_result = wrote (min (suc offer) (length (contents c.output))) }

-- One writable event for each offer.
unfoldable pub write_events : List ℕ → Answers → TcpConnection → Option TcpConnection
write_events [] a c = some c
write_events (offer ∷ offers) a c = do
  c' ← handle_write (offered c offer a) c
  write_events offers a c'

handle_write-idle :
    (c : TcpConnection) (a : Answers) → c.writing ≡ false → handle_write a c ≡ some c
unfolding handle_write
handle_write-idle c a w = ground arith

-- Everything accepted went out.
pub record AllSent (c c' : TcpConnection) : Type 0 where
  pub sent : c'.sent ≡ stream c
  pub empty : contents c'.output ≡ []
  pub quiet : c'.writing ≡ false
  pub shut : (c'.write_shut || not (is_disconnecting c.state)) ≡ true

idle-AllSent :
    (c : TcpConnection)
    → contents c.output ≡ []
    → c.writing ≡ false
    → (c.write_shut || (not (is_disconnecting c.state) || some_left c)) ≡ true
    → AllSent c c
idle-AllSent c empty w asked = record {
  sent = sym (ap (λ t. c.sent ++ t) empty ∙ append-nil c.sent);
  empty = empty;
  quiet = w;
  shut = ground (arith, asked, ap (λ t. not (length t == 0)) empty);
}

-- One event that moved some bytes, and the rest.
step-AllSent : (n : ℕ) (c c1 c' : TcpConnection) → Wrote n c c1 → AllSent c1 c' → AllSent c c'
step-AllSent n c c1 c' wr all = record {
  sent = all.sent ∙ wr.grown;
  empty = all.empty;
  quiet = all.quiet;
  shut = ap (λ t. c'.write_shut || not (is_disconnecting t)) (sym wr.state) ∙ all.shut;
}

-- Enough writable events empty the output of an open connection on which a shutdown that was
-- asked for is done or waits for the output.
pub write_events-AllSent :
    (offers : List ℕ) (a : Answers) (c : TcpConnection)
    → IsSound c
    → is_disconnected c.state ≡ false
    → (c.write_shut || (not (is_disconnecting c.state) || some_left c)) ≡ true
    → length (contents c.output) ≤ length offers
    → (c' : TcpConnection) × (write_events offers a c ≡ some c') × AllSent c c'
unfolding write_events
write_events-AllSent [] a c s opened asked enough =
    let empty = none_left (contents c.output) (ground arith) in
    (c, refl, idle-AllSent c empty (ground (arith, s.waits)) asked)
write_events-AllSent (offer ∷ offers) a c s opened asked enough = elim (Bool-cases c.writing) [
  | inl w ↦
      let n = min (suc offer) (length (contents c.output)) in
      let left : 0 < length (contents c.output) = ground (arith, s.waits, w) in
      let (c1, e1, wr) =
        handle_write-Wrote c (offered c offer a) n s w refl (omega (arith, left)) (omega arith) in
      let (c', e, all) =
        write_events-AllSent offers a c1 wr.sound (ap is_disconnected wr.state ∙ opened)
          (ground (arith, wr.shut, ap is_disconnecting wr.state))
          (omega (arith, ap length wr.left, length-drop n (contents c.output), left)) in
      (c', rw (e1) e, step-AllSent n c c1 c' wr all)
  | inr w ↦
      let empty = none_left (contents c.output) (ground (arith, s.waits, opened)) in
      let (c', e, all) =
        write_events-AllSent offers a c s opened asked (omega (arith, ap length empty)) in
      (c', rw (handle_write-idle c (offered c offer a) w) e, all)
]

pub connected_open : (s : State) → is_connected s ≡ true → is_disconnected s ≡ false
connected_open disconnected h = absurd (ground arith)
connected_open connecting h = refl
connected_open connected h = refl
connected_open disconnecting h = refl

record Halved (c c' : TcpConnection) : Type 0 where
  pub output : c'.output ≡ c.output
  pub sent : c'.sent ≡ c.sent
  pub state : c'.state ≡ c.state
  pub tls : c'.tls ≡ c.tls
  pub writing : c'.writing ≡ c.writing
  pub write_shut : c'.write_shut ≡ (c.write_shut || not c.writing)

shutdown_in_loop-Halved : (c : TcpConnection) → Halved c (shutdown_in_loop c)
unfolding shutdown_in_loop
shutdown_in_loop-Halved c = ground arith

shutdown_here :
    (c : TcpConnection) (a : Answers)
    → is_connected c.state ≡ true
    → shutdown true a c ≡ some (shutdown_in_loop (set_state disconnecting c))
unfolding shutdown
shutdown_here c a h = ground arith

shutdown-open :
    (c : TcpConnection) (a : Answers)
    → IsSound c
    → is_connected c.state ≡ true
    → (c1 : TcpConnection) × (shutdown true a c ≡ some c1)
      × IsSound c1
      × (c1.state ≡ disconnecting)
      × (stream c1 ≡ stream c)
      × (c1.output ≡ c.output)
      × ((c1.write_shut || some_left c1) ≡ true)
shutdown-open c a s h =
    let c1 = shutdown_in_loop (set_state disconnecting c) in
    let f = shutdown_in_loop-Halved (set_state disconnecting c) in
    let left : some_left c1 ≡ some_left c = ap (λ b. not (length (contents b) == 0)) f.output in
    let waits : c.writing ≡ some_left c =
      s.waits ∙ ap (λ t. not t && some_left c) (connected_open c.state h) in
    (
      c1,
      shutdown_here c a h,
      record {
        plain = f.tls ∙ s.plain;
        valid = subst IsValid (sym f.output) s.valid;
        waits =
            f.writing
            ∙ waits
            ∙ sym (ap (λ t. not (is_disconnected t) && some_left c1) f.state ∙ left);
      },
      f.state,
      ap (λ t. t ++ contents c1.output) f.sent ∙ ap (λ b. c.sent ++ contents b) f.output,
      f.output,
      ground (arith, f.write_shut, left, waits),
    )

-- After shutdown, called in the loop of a connected connection without TLS that waits for
-- writability exactly while it has output, as many writable events as there are buffered
-- bytes, at each of which the kernel takes at least one byte, suffice: the handlers do not
-- abort, the kernel has everything that was accepted, in order, the output is empty, and the
-- write side is shut.
pub shutdown-AllSent :
    (offers : List ℕ) (a : Answers) (c : TcpConnection)
    → IsSound c
    → is_connected c.state ≡ true
    → length (contents c.output) ≤ length offers
    → (c' : TcpConnection) × ((shutdown true a c >>= write_events offers a) ≡ some c')
      × (c'.sent ≡ stream c)
      × (contents c'.output ≡ [])
      × (c'.write_shut ≡ true)
shutdown-AllSent offers a c s h enough =
    let (c1, e1, s1, st, same, out, asked) = shutdown-open c a s h in
    let (c', e, all) =
      write_events-AllSent offers a c1 s1 (ap is_disconnected st) (ground (arith, asked))
        (omega (arith, enough, ap (λ b. length (contents b)) out)) in
    (c', rw (e1) e, all.sent ∙ same, all.empty, ground (arith, all.shut, ap is_disconnecting st))
