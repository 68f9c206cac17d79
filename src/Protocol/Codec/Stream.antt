-- ===== src/Protocol/Codec/Stream.antt =====
-- The codec on a stream of bytes: round trip, waiting for the rest of a packet, and soundness.
use native.Mathlib.Decide.{dec_lt}
use nebula_im.Base.{
  ℕ, ◌+◌, ◌^◌, ◌≤◌, ◌<◌, ◌≡◌, ◌≢◌, refl, sym, ap, ◌∙◌, some, true, List, [], ◌++◌, length, take,
  drop, length-append, length-pos, take_append_length, drop_append_length, append_assoc, arith,
}
use nebula_im.Net.Buffer.{Buffer}
use nebula_im.Net.Buffer.Contents.{IsValid, contents, Leaves}
use nebula_im.Protocol.MessageType.{
  to_uint16, message_type_from_uint16, is_valid_message_type, from-to_uint16, to_uint16-lt,
}
use nebula_im.Protocol.Header.{
  PacketHeader, IsWide, header_at, header_at-append, encode_header, length-encode_header,
  header_at-encode, max_body_length, packet_header_length,
}
use nebula_im.Protocol.Codec.{
  Packet, ok, incomplete_packet, encode, validate_header, decode, header_of,
}
use nebula_im.Protocol.Codec.Cases.{seen, packet_at, decode_short, decode_partial, decode_whole}

-- What `encode` accepts: a known type, a body within the limit; its bytes are header and body.
pub record Encodes (p : Packet) (bytes : List ℕ) : Type 0 where
  pub known : is_valid_message_type (to_uint16 p.type) ≡ true
  pub short : length p.body ≤ max_body_length
  pub layout : bytes ≡ encode_header (header_of p) ++ p.body

pub encode-Encodes : (p : Packet) (bytes : List ℕ) → encode p ≡ some bytes → Encodes p bytes
unfolding encode
encode-Encodes p bytes e = ground arith

header_of-IsWide : (p : Packet) → p.sequence_id < 2 ^ 32 → IsWide (header_of p)
header_of-IsWide p h = omega (arith, to_uint16-lt p.type)

header_of-valid :
    (p : Packet) (bytes : List ℕ) → Encodes p bytes → validate_header (header_of p) ≡ ok
unfolding validate_header
header_of-valid p bytes c = ground arith

-- A buffer whose contents begin with a header.
begins :
    (p : Packet) (rest : List ℕ)
    → p.sequence_id < 2 ^ 32
    → header_at (encode_header (header_of p) ++ rest) ≡ header_of p
begins p rest h = header_at-encode (header_of p) rest (header_of-IsWide p h)

-- The frame of one packet in front of other bytes.
record Frame (p : Packet) (rest : List ℕ) (b : Buffer) : Type 0 where
  header : seen b ≡ header_of p
  behind : drop packet_header_length (contents b) ≡ p.body ++ rest
  room : length (contents b) ≡ packet_header_length + length p.body + length rest

frame_of :
    (p : Packet) (b : Buffer) (bytes rest : List ℕ)
    → p.sequence_id < 2 ^ 32
    → Encodes p bytes
    → contents b ≡ bytes ++ rest
    → Frame p rest b
frame_of p b bytes rest h cod c = record {
  header = ap header_at all ∙ begins p (p.body ++ rest) h;
  behind =
      ap (drop packet_header_length) all
      ∙ drop_append_length packet_header_length front (p.body ++ rest)
          (sym (length-encode_header (header_of p)));
  room = omega (
    arith,
    ap length all,
    length-append front (p.body ++ rest),
    length-append p.body rest,
    length-encode_header (header_of p),
  );
}
  where
    front : List ℕ
    front = encode_header (header_of p)

    all : contents b ≡ front ++ (p.body ++ rest)
    all = c ∙ ap (λ t. t ++ rest) cod.layout ∙ append_assoc front p.body rest

frame_length :
    (p : Packet) (bytes rest : List ℕ) (b : Buffer)
    → Encodes p bytes
    → Frame p rest b
    → (seen b).body_length ≡ length p.body
frame_length p bytes rest b cod f =
    omega (arith, ap (λ (t : PacketHeader). t.body_length) f.header, cod.short)

frame_packet :
    (p : Packet) (bytes rest : List ℕ) (b : Buffer)
    → Encodes p bytes
    → Frame p rest b
    → packet_at (contents b) ≡ p
frame_packet p bytes rest b cod f = λ i. record {
  type =
      (ap (λ (t : PacketHeader). message_type_from_uint16 t.type) f.header ∙ from-to_uint16 p.type)
        i;
  sequence_id = (ap (λ (t : PacketHeader). t.sequence_id) f.header) i;
  body = body i;
}
  where
    body : take (seen b).body_length (drop packet_header_length (contents b)) ≡ p.body
    body =
        ap (λ k. take k (drop packet_header_length (contents b)))
          (frame_length p bytes rest b cod f)
        ∙ ap (take (length p.body)) f.behind
        ∙ take_append_length (length p.body) p.body rest refl

-- From a valid buffer that holds the encoding of a packet, whose sequence id fits 32 bits,
-- and any bytes behind it, decode delivers that packet and leaves a valid buffer with the
-- bytes behind it.
pub decode-encode :
    (p q : Packet) (b : Buffer) (bytes rest : List ℕ)
    → IsValid b
    → p.sequence_id < 2 ^ 32
    → encode p ≡ some bytes
    → contents b ≡ bytes ++ rest
    → (b' : Buffer) × (decode b q ≡ some (ok, b', p)) × Leaves rest b'
decode-encode p q b bytes rest v h e c =
    let cod = encode-Encodes p bytes e in
    let f = frame_of p b bytes rest h cod c in
    let size = frame_length p bytes rest b cod f in
    let (b', d, l) =
      decode_whole b q v (ap validate_header f.header ∙ header_of-valid p bytes cod)
        (omega (arith, f.room, size)) in
    (
      b',
      d ∙ ap (λ t. some (ok, b', t)) (frame_packet p bytes rest b cod f),
      (
        l.0,
        l.1
            ∙ ap (λ k. drop k (drop packet_header_length (contents b))) size
            ∙ ap (drop (length p.body)) f.behind
            ∙ drop_append_length (length p.body) p.body rest refl,
      ),
    )

-- On a valid buffer that holds a proper prefix of the encoding of a packet whose sequence id
-- fits 32 bits, decode reports an incomplete packet and changes neither the buffer nor the
-- packet.
pub decode-encode_prefix :
    (p q : Packet) (b : Buffer) (bytes more : List ℕ)
    → IsValid b
    → p.sequence_id < 2 ^ 32
    → encode p ≡ some bytes
    → contents b ++ more ≡ bytes
    → more ≢ []
    → decode b q ≡ some (incomplete_packet, b, q)
decode-encode_prefix p q b bytes more v h e c ne =
    elim (dec_lt (length (contents b)) packet_header_length) [
      | yes few ↦ decode_short b q v few
      | no enough ↦
          let sb : seen b ≡ header_of p =
            sym (header_at-append (contents b) more (omega arith))
            ∙ ap header_at (c ∙ cod.layout)
            ∙ begins p p.body h in
          decode_partial b q v (omega arith) (ap validate_header sb ∙ header_of-valid p bytes cod) (
            omega (
              arith,
              ap (λ (t : PacketHeader). t.body_length) sb,
              cod.short,
              length-pos more ne,
              length-append (contents b) more,
              ap length (c ∙ cod.layout),
              length-append (encode_header (header_of p)) p.body,
              length-encode_header (header_of p),
            ))
    ]
  where
    cod : Encodes p bytes
    cod = encode-Encodes p bytes e
