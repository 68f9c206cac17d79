-- ===== src/Gateway/TcpLoop/Serve.antt =====
-- The loop of `onTcpMessage` against the list of packets that a client sent.
use native.Mathlib.Decide.{dec_lt}
use nebula_im.Base.{
  ℕ, zero, suc, ◌≤◌, ◌<◌, ◌≡◌, ◌≢◌, refl, sym, ap, ◌∙◌, Bool, true, false, Option, some, List, [],
  ◌∷◌, ◌++◌, length, le→ltb, lt→ltb, arith, length-append, append_assoc, ◌^◌, drop, length-drop,
  Bool-cases, inl, inr,
}
use nebula_im.Net.Buffer.{Buffer, readable_bytes, retrieve_all}
use nebula_im.Net.Buffer.Contents.{IsValid, contents, Leaves, readable_lem, retrieve_all_lem}
use nebula_im.Protocol.Header.{packet_header_length, encode_header, length-encode_header}
use nebula_im.Protocol.Codec.{
  Packet, ProtocolError, ok, incomplete_packet, encode, decode, header_of,
}
use nebula_im.Protocol.Codec.Stream.{decode-encode, decode-encode_prefix, encode-Encodes}
use nebula_im.Protocol.Codec.Cases.{decode_short, seen, packet_at}
use nebula_im.Protocol.Codec.Sound.{Outcome, took, waits, refuses, decode-Outcome, ap_error}
use nebula_im.Gateway.TcpLoop.{Peer, empty_packet, decoded, served, on_tcp_message}

-- The bytes of a list of packets, one behind the other.
pub data Wire : List Packet → List ℕ → Type 0 where
  nothing : Wire [] []
  sent :
      {p : Packet} {ps : List Packet} {bytes rest : List ℕ}
      → encode p ≡ some bytes
      → p.sequence_id < 2 ^ 32
      → Wire ps rest
      → Wire (p ∷ ps) (bytes ++ rest)

-- A proper prefix of some packet's bytes.
pub record IsPartial (part : List ℕ) : Type 0 where
  pub packet : Packet
  pub bytes : List ℕ
  pub more : List ℕ
  pub encoded : encode packet ≡ some bytes
  pub small : packet.sequence_id < 2 ^ 32
  pub split : part ++ more ≡ bytes
  pub unfinished : more ≢ []

encode-pos :
    (p : Packet) (bytes : List ℕ) → encode p ≡ some bytes → packet_header_length ≤ length bytes
encode-pos p bytes e = omega (
  arith,
  ap length (encode-Encodes p bytes e).layout,
  length-append (encode_header (header_of p)) p.body,
  length-encode_header (header_of p),
)

module _ {S : Type 0} (peer : Peer S) where
  open peer use {allow_packet, handle_packet, refuse}

  -- The packets in order, up to the first that is not allowed.
  unfoldable pub serve : List Packet → S → S × Bool
  serve [] s = (s, true)
  serve (p ∷ ps) s =
      let (s', allowed) = allow_packet s p in
      elim allowed [ true ↦ serve ps (handle_packet s' p) | false ↦ (s', false) ]

  loop_stops :
      (fuel : ℕ) (b : Buffer) (s : S)
      → IsValid b
      → length (contents b) < packet_header_length
      → on_tcp_message peer (suc fuel) b s ≡ some (b, s)
  unfolding on_tcp_message
  loop_stops fuel b s v h =
      rw (lt→ltb (readable_bytes b) packet_header_length (omega (arith, readable_lem b v)))

  loop_decoded :
      (fuel : ℕ) (b : Buffer) (s : S) (r : ProtocolError × Buffer × Packet)
      → IsValid b
      → packet_header_length ≤ length (contents b)
      → decode b empty_packet ≡ some r
      → on_tcp_message peer (suc fuel) b s ≡ decoded peer (on_tcp_message peer fuel) s r
  unfolding on_tcp_message
  loop_decoded fuel b s r v h e =
      rw (le→ltb (readable_bytes b) packet_header_length (omega (arith, readable_lem b v)), e)

  loop_waits :
      (fuel : ℕ) (b : Buffer) (s : S)
      → IsValid b
      → decode b empty_packet ≡ some (incomplete_packet, b, empty_packet)
      → on_tcp_message peer (suc fuel) b s ≡ some (b, s)
  unfolding decoded
  loop_waits fuel b s v e = elim (dec_lt (length (contents b)) packet_header_length) [
    | yes few ↦ loop_stops fuel b s v few
    | no enough ↦ loop_decoded fuel b s (incomplete_packet, b, empty_packet) v (omega arith) e
  ]

  abbrev pub Served : List ℕ → Option (Buffer × S) → S × Bool → Type 0
  Served tail r (s, true) = (b : Buffer) × (r ≡ some (b, s)) × Leaves tail b
  Served tail r (s, false) = (b : Buffer) × (r ≡ some (b, s)) × Leaves [] b

  -- On a valid buffer that holds the encodings of some packets and then a proper prefix of a
  -- packet, and with more fuel than bytes, the receiving loop returns: it handles the packets
  -- in order, each one that is allowed, as handling them straight from a list does, and keeps
  -- the bytes of the prefix; at a packet that is not allowed it stops and leaves the buffer
  -- empty. What the peer does on a packet is a parameter.
  pub on_tcp_message-serve :
      {ps : List Packet} {bytes : List ℕ} (tail : List ℕ) (fuel : ℕ) (b : Buffer) (s : S)
      → Wire ps bytes
      → IsPartial tail
      → IsValid b
      → contents b ≡ bytes ++ tail
      → length (contents b) < fuel
      → Served tail (on_tcp_message peer fuel b s) (serve ps s)
  unfolding serve decoded served
  on_tcp_message-serve tail zero b s w t v c h = absurd (omega arith)
  on_tcp_message-serve tail (suc fuel) b s nothing t v c h = (
    b,
    loop_waits fuel b s v (
        decode-encode_prefix t.packet empty_packet b t.bytes t.more v t.small t.encoded
          (ap (λ x. x ++ t.more) c ∙ t.split) t.unfinished),
    (v, c),
  )
  on_tcp_message-serve tail (suc fuel) b s (sent {p} {ps} {bytes} {rest} e small w) t v c h =
      let (b', d, (v', c')) =
        decode-encode p empty_packet b bytes (rest ++ tail) v small e
          (c ∙ append_assoc bytes rest tail) in
      rw
        (loop_decoded fuel b s (ok, b', p) v
          (omega (
            arith,
            encode-pos p bytes e,
            ap length c,
            length-append (bytes ++ rest) tail,
            length-append bytes rest,
          ))
          d)
        (elim (Bool-cases (allow_packet s p).1) [
          | inl allowed ↦
              rw (allowed, serve)
                (on_tcp_message-serve tail fuel b' (handle_packet (allow_packet s p).0 p) w t v' c'
                  (omega (
                    arith,
                    encode-pos p bytes e,
                    ap length c,
                    ap length c',
                    length-append (bytes ++ rest) tail,
                    length-append bytes rest,
                    length-append rest tail,
                  )))
          | inr denied ↦ rw (denied, serve) (retrieve_all b', refl, retrieve_all_lem b' v')
        ])

  -- The loop ends with a valid buffer.
  abbrev pub Ends : Option (Buffer × S) → Type 0
  Ends r = (b : Buffer) × (s : S) × (r ≡ some (b, s)) × IsValid b

  decoded_refused :
      (next : Buffer → S → Option (Buffer × S)) (s : S) (e : ProtocolError) (b : Buffer)
      (q : Packet)
      → e ≢ ok
      → e ≢ incomplete_packet
      → decoded peer next s (e, b, q) ≡ some (b, refuse s e)
  unfolding decoded
  decoded_refused next s ok b q h k = absurd (h refl)
  decoded_refused next s incomplete_packet b q h k = absurd (k refl)
  decoded_refused next s _ b q h k = refl

  refused_has_header :
      (b b' : Buffer) (e : ProtocolError)
      → IsValid b
      → e ≢ incomplete_packet
      → decode b empty_packet ≡ some (e, b', empty_packet)
      → packet_header_length ≤ length (contents b)
  refused_has_header b b' e v ne d = elim (dec_lt (length (contents b)) packet_header_length) [
    | yes few ↦ absurd (ne (ap_error (sym d ∙ decode_short b empty_packet v few)))
    | no enough ↦ omega arith
  ]

  served-Ends :
      (next : Buffer → S → Option (Buffer × S)) (b : Buffer) (s : S) (p : Packet)
      → IsValid b
      → ((s' : S) → Ends (next b s'))
      → Ends (decoded peer next s (ok, b, p))
  unfolding decoded served
  served-Ends next b s p v ih = elim (Bool-cases (allow_packet s p).1) [
    | inl allowed ↦ rw (allowed, served) (ih (handle_packet (allow_packet s p).0 p))
    | inr denied ↦
        rw (denied, served) (retrieve_all b, (allow_packet s p).0, refl, (retrieve_all_lem b v).0)
  ]

  -- Whatever bytes a valid buffer holds, with more fuel than bytes the receiving loop returns
  -- without an abort, and leaves a valid buffer.
  pub on_tcp_message_total :
      (fuel : ℕ) (b : Buffer) (s : S)
      → IsValid b
      → length (contents b) < fuel
      → Ends (on_tcp_message peer fuel b s)
  on_tcp_message_total zero b s v h = absurd (omega arith)
  on_tcp_message_total (suc fuel) b s v h =
      go (on_tcp_message_total fuel) (decode-Outcome b empty_packet v)
    where
      go :
          ((b : Buffer) (s : S)
            → IsValid b
            → length (contents b) < fuel
            → Ends (on_tcp_message peer fuel b s))
          → Outcome b empty_packet (decode b empty_packet)
          → Ends (on_tcp_message peer (suc fuel) b s)
      go ih (took b' good whole e l) =
          rw (loop_decoded fuel b s (ok, b', packet_at (contents b)) v (omega arith) e) (
            served-Ends (on_tcp_message peer fuel) b' s (packet_at (contents b)) l.0 (λ s'.
              ih b' s' l.0 (
                omega (
                  arith,
                  ap length l.1,
                  length-drop (seen b).body_length (drop packet_header_length (contents b)),
                  length-drop packet_header_length (contents b),
                ))))
      go ih (waits e) = (b, s, loop_waits fuel b s v e, v)
      go ih (refuses e b' ne ne' d l) = (
        b',
        refuse s e,
        loop_decoded fuel b s (e, b', empty_packet) v (refused_has_header b b' e v ne' d) d
            ∙ decoded_refused (on_tcp_message peer fuel) s e b' empty_packet ne ne',
        l.0,
      )
