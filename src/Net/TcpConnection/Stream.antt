-- ===== src/Net/TcpConnection/Stream.antt =====
-- A connection without TLS hands the bytes that it accepts to the kernel in their order.
use nebula_im.Base.{
  ℕ, suc, ◌≤◌, ◌≡◌, refl, sym, ap, ◌∙◌, Bool, true, false, not, ◌&&◌, ◌||◌, some, List, [], ◌∷◌,
  ◌++◌, length, take, drop, ◌==◌, if◌then◌else◌, arith, append_assoc, append-nil, subst, Bool-cases,
  inl, inr, length-append, length-drop, take-append-drop, lt→ltb,
}
use nebula_im.Net.Buffer.{WriteResult, write_failed, wrote}
use nebula_im.Net.Buffer.Contents.{IsValid, contents, Leaves, Fits, append_lem}
use nebula_im.Net.TcpConnection.{
  TcpConnection, is_disconnecting, is_disconnected, enable_writing, output_drained,
  shutdown_in_loop,
}
use nebula_im.Net.TcpConnection.Events.{buffer_rest, sent_now, first_send, eagain}

-- All that was accepted: what the kernel took, and what waits.
abbrev pub stream : TcpConnection → List ℕ
stream c = c.sent ++ contents c.output

abbrev pub some_left : TcpConnection → Bool
some_left c = not (length (contents c.output) == 0)

-- A connection without TLS: its output buffer is valid, and it waits for the socket to become
-- writable as long as it is not closed and has output.
pub record IsSound (c : TcpConnection) : Type 0 where
  pub plain : c.tls ≡ false
  pub valid : IsValid c.output
  pub waits : c.writing ≡ (not (is_disconnected c.state) && some_left c)

pub none_left : (xs : List ℕ) → not (length xs == 0) ≡ false → xs ≡ []
none_left [] h = refl
none_left (x ∷ xs) h = absurd (ground arith)

pub record Drained (c c' : TcpConnection) : Type 0 where
  pub output : c'.output ≡ c.output
  pub sent : c'.sent ≡ c.sent
  pub state : c'.state ≡ c.state
  pub tls : c'.tls ≡ c.tls
  pub writing : c'.writing ≡ false
  pub write_shut : c'.write_shut ≡ (c.write_shut || is_disconnecting c.state)

pub output_drained-Drained : (c : TcpConnection) → Drained c (output_drained c)
unfolding output_drained shutdown_in_loop
output_drained-Drained c = ground arith

record Buffered (rest : List ℕ) (c c' : TcpConnection) : Type 0 where
  pub output : Leaves (contents c.output ++ rest) c'.output
  pub sent : c'.sent ≡ c.sent
  pub state : c'.state ≡ c.state
  pub tls : c'.tls ≡ c.tls
  pub writing : c'.writing ≡ (c.writing || not (length rest == 0))

buffer_rest_lem :
    (rest : List ℕ) (c : TcpConnection)
    → IsValid c.output
    → Fits c.output (length rest)
    → (c' : TcpConnection) × (buffer_rest rest c ≡ some c') × Buffered rest c c'
unfolding buffer_rest
buffer_rest_lem [] c v fits = (
  c,
  refl,
  record {
    output = (v, sym (append-nil (contents c.output)));
    sent = refl;
    state = refl;
    tls = refl;
    writing = ground arith;
  },
)
buffer_rest_lem (x ∷ rest) c v fits =
    let (output, e, l) = append_lem c.output (x ∷ rest) v fits in
    (
      enable_writing (record c { output = output }),
      rw (lt→ltb 0 (suc (length rest)) (omega arith), e) refl,
      record {
        output = l;
        sent = refl;
        state = refl;
        tls = refl;
        writing = ground (arith, length-append (contents c.output) (x ∷ rest));
      },
    )

-- What is left of a message that is sent: an error other than `EAGAIN` of the first write loses it.
abbrev pub surviving : WriteResult → List ℕ → List ℕ
surviving (wrote n) message = message
surviving (write_failed e) message = if e == eagain then message else []

-- The kernel takes no more bytes than it is offered.
abbrev pub Takes : WriteResult → ℕ → Type 0
Takes (wrote n) k = n ≤ k
Takes (write_failed e) k = Unit {0}

-- A sound connection whose stream grew by `bytes`, in the same state.
pub record Streams (bytes : List ℕ) (c c' : TcpConnection) : Type 0 where
  pub sound : IsSound c'
  pub grown : stream c' ≡ stream c ++ bytes
  pub state : c'.state ≡ c.state

record SentNow (message : List ℕ) (n : ℕ) (c c' : TcpConnection) : Type 0 where
  pub output : c'.output ≡ c.output
  pub sent : c'.sent ≡ c.sent ++ take n message
  pub state : c'.state ≡ c.state
  pub tls : c'.tls ≡ c.tls
  pub writing : c'.writing ≡ c.writing

sent_now-SentNow :
    (message : List ℕ) (n : ℕ) (c : TcpConnection) → SentNow message n c (sent_now message n c)
unfolding sent_now
sent_now-SentNow message n c = ground arith

left-append :
    (xs ys : List ℕ) → (not (length xs == 0) || not (length ys == 0)) ≡ not (length (xs ++ ys) == 0)
left-append xs ys = ground (arith, length-append xs ys)

-- The rest of a message joins the output of an open connection.
pub buffer_rest-Streams :
    (rest bytes : List ℕ) (c c1 : TcpConnection)
    → c1.tls ≡ false
    → IsValid c1.output
    → not (is_disconnected c1.state) ≡ true
    → c1.writing ≡ some_left c1
    → c1.state ≡ c.state
    → stream c1 ++ rest ≡ stream c ++ bytes
    → Fits c1.output (length rest)
    → (c' : TcpConnection) × (buffer_rest rest c1 ≡ some c') × Streams bytes c c'
buffer_rest-Streams rest bytes c c1 plain v alive waits same grows fits =
    let (c', e, b) = buffer_rest_lem rest c1 v fits in
    (
      c',
      e,
      record {
        sound = record {
          plain = b.tls ∙ plain;
          valid = b.output.0;
          waits =
              b.writing
              ∙ ap (λ t. t || not (length rest == 0)) waits
              ∙ left-append (contents c1.output) rest
              ∙ sym (
                  ap (λ t. t && some_left c') (ap (λ t. not (is_disconnected t)) b.state ∙ alive)
                  ∙ ap (λ t. not (length t == 0)) b.output.1);
        };
        grown =
            ap (λ t. t ++ contents c'.output) b.sent
            ∙ ap (λ t. c1.sent ++ t) b.output.1
            ∙ sym (append_assoc c1.sent (contents c1.output) rest)
            ∙ grows;
        state = b.state ∙ same;
      },
    )

SentNow-Streams :
    (message : List ℕ) (n : ℕ) (c c1 : TcpConnection)
    → IsSound c
    → c.writing ≡ false
    → contents c.output ≡ []
    → not (is_disconnected c.state) ≡ true
    → SentNow message n c c1
    → Fits c.output (length message)
    → (c' : TcpConnection) × (buffer_rest (drop n message) c1 ≡ some c') × Streams message c c'
SentNow-Streams message n c c1 s quiet none_left alive f fits =
    buffer_rest-Streams (drop n message) message c c1 (f.tls ∙ s.plain)
      (subst IsValid (sym f.output) s.valid) (ap (λ t. not (is_disconnected t)) f.state ∙ alive)
      (f.writing
        ∙ quiet
        ∙ sym (
            ap (λ b. not (length (contents b) == 0)) f.output
            ∙ ap (λ t. not (length t == 0)) none_left))
      f.state
      (ap (λ t. (t ++ contents c1.output) ++ drop n message) f.sent
        ∙ ap (λ b. ((c.sent ++ take n message) ++ contents b) ++ drop n message) f.output
        ∙ ap (λ t. ((c.sent ++ take n message) ++ t) ++ drop n message) none_left
        ∙ ap (λ t. t ++ drop n message) (append-nil (c.sent ++ take n message))
        ∙ append_assoc c.sent (take n message) (drop n message)
        ∙ ap (λ t. c.sent ++ t) (take-append-drop n message)
        ∙ sym (
            ap (λ t. (c.sent ++ t) ++ message) none_left
            ∙ ap (λ t. t ++ message) (append-nil c.sent)))
      (omega (arith, length-drop n message, ap (λ b. b.writer_index) f.output))

pub first_send-Streams :
    (message : List ℕ) (r : WriteResult) (c : TcpConnection)
    → IsSound c
    → c.writing ≡ false
    → contents c.output ≡ []
    → not (is_disconnected c.state) ≡ true
    → Takes r (length message)
    → Fits c.output (length message)
    → (c' : TcpConnection) × (first_send message r c ≡ some c') × Streams (surviving r message) c c'
unfolding first_send
first_send-Streams message (write_failed e) c s quiet none_left alive took fits =
    elim (Bool-cases (e == eagain)) [
      | inl again ↦ rw (again) (
          buffer_rest-Streams message message c c s.plain s.valid alive
            (quiet ∙ sym (ap (λ t. not (length t == 0)) none_left)) refl refl fits)
      | inr fault ↦
          rw (fault)
            (c, refl, record { sound = s; grown = sym (append-nil (stream c)); state = refl })
    ]
first_send-Streams message (wrote n) c s quiet none_left alive took fits =
    SentNow-Streams message n c (sent_now message n c) s quiet none_left alive
      (sent_now-SentNow message n c) fits
