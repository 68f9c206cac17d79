-- ===== src/Protocol/Codec/Cases.antt =====
-- What `PacketCodec::decode` does on each branch, in terms of the buffer's contents.
use nebula_im.Base.{
  ℕ, ◌+◌, ◌-◌, ◌≤◌, ◌<◌, ◌≡◌, ◌≢◌, refl, sym, ap, ◌∙◌, some, true, List, ◌++◌, length, take, drop,
  le→ltb, lt→ltb, length-drop, take-append-drop, add_size, arith,
}
use nebula_im.Net.Buffer.{Buffer, readable_bytes, peek, retrieve_all}
use nebula_im.Net.Buffer.Contents.{
  IsValid, contents, Leaves, readable_lem, retrieve_lem, retrieve_as_string_lem,
}
use nebula_im.Protocol.MessageType.{message_type_from_uint16, is_valid_message_type}
use nebula_im.Protocol.Header.{
  PacketHeader, header_at, header_at-append, decode_header, protocol_magic, protocol_version,
  max_body_length, packet_header_length,
}
use nebula_im.Protocol.Codec.{
  Packet, ProtocolError, ok, incomplete_packet, validate_header, decode_body, decode_validated,
  decode,
}

-- The header that the codec reads from the contents.
abbrev pub seen : Buffer → PacketHeader
seen b = header_at (contents b)

pub record Accepts (h : PacketHeader) : Type 0 where
  pub magic_ok : h.magic ≡ protocol_magic
  pub version_ok : h.version ≡ protocol_version
  pub length_ok : h.body_length ≤ max_body_length
  pub type_ok : is_valid_message_type h.type ≡ true

pub validate_ok : (h : PacketHeader) → validate_header h ≡ ok → Accepts h
unfolding validate_header
validate_ok h e = ground arith

peek-contents :
    (b : Buffer) → contents b ++ drop (b.writer_index - b.reader_index) (peek b) ≡ peek b
unfolding peek
peek-contents b = take-append-drop (b.writer_index - b.reader_index) (drop b.reader_index b.storage)

pub decode_short :
    (b : Buffer) (q : Packet)
    → IsValid b
    → length (contents b) < packet_header_length
    → decode b q ≡ some (incomplete_packet, b, q)
unfolding decode
decode_short b q v h =
    rw (lt→ltb (readable_bytes b) packet_header_length (omega (arith, readable_lem b v)))

seen_lem :
    (b : Buffer)
    → IsValid b
    → packet_header_length ≤ length (contents b)
    → decode_header (peek b) (readable_bytes b) ≡ some (seen b)
unfolding decode_header
seen_lem b v h =
    rw (le→ltb (readable_bytes b) packet_header_length (omega (arith, readable_lem b v))) (
      ap (λ t. some (header_at t)) (sym (peek-contents b))
      ∙ ap some (header_at-append (contents b) (drop (b.writer_index - b.reader_index) (peek b)) h))

decode-seen :
    (b : Buffer) (q : Packet)
    → IsValid b
    → packet_header_length ≤ length (contents b)
    → decode b q ≡ decode_validated b q (seen b) (validate_header (seen b))
unfolding decode
decode-seen b q v h = rw (
  le→ltb (readable_bytes b) packet_header_length (omega (arith, readable_lem b v)),
  seen_lem b v h,
)

refused :
    (b : Buffer) (q : Packet) (h : PacketHeader) (e : ProtocolError)
    → e ≢ ok
    → decode_validated b q h e ≡ some (e, retrieve_all b, q)
unfolding decode_validated
refused b q h ok ne = absurd (ne refl)
refused b q h _ ne = refl

-- A complete header that is refused clears the buffer, with the error of the first failed test.
pub decode_refused :
    (b : Buffer) (q : Packet)
    → IsValid b
    → packet_header_length ≤ length (contents b)
    → validate_header (seen b) ≢ ok
    → decode b q ≡ some (validate_header (seen b), retrieve_all b, q)
decode_refused b q v h ne = decode-seen b q v h ∙ refused b q (seen b) (validate_header (seen b)) ne

decode_accepted :
    (b : Buffer) (q : Packet)
    → IsValid b
    → packet_header_length ≤ length (contents b)
    → validate_header (seen b) ≡ ok
    → decode b q ≡ decode_body b q (seen b)
unfolding decode_validated
decode_accepted b q v h e = decode-seen b q v h ∙ ap (decode_validated b q (seen b)) e

-- With a good header the codec waits until the whole body is there.
pub decode_partial :
    (b : Buffer) (q : Packet)
    → IsValid b
    → packet_header_length ≤ length (contents b)
    → validate_header (seen b) ≡ ok
    → length (contents b) < packet_header_length + (seen b).body_length
    → decode b q ≡ some (incomplete_packet, b, q)
unfolding decode_body
decode_partial b q v h e short =
    decode_accepted b q v h e
    ∙ rw (
        lt→ltb (readable_bytes b) (add_size packet_header_length (seen b).body_length)
          (omega (arith, readable_lem b v, (validate_ok (seen b) e).length_ok)))

-- The packet that a whole frame holds.
abbrev pub packet_at : List ℕ → Packet
packet_at bytes =
    let h = header_at bytes in
    record {
      type = message_type_from_uint16 h.type;
      sequence_id = h.sequence_id;
      body = take h.body_length (drop packet_header_length bytes);
    }

pub decode_whole :
    (b : Buffer) (q : Packet)
    → IsValid b
    → validate_header (seen b) ≡ ok
    → packet_header_length + (seen b).body_length ≤ length (contents b)
    → (b' : Buffer) × (decode b q ≡ some (ok, b', packet_at (contents b)))
      × Leaves (drop (seen b).body_length (drop packet_header_length (contents b))) b'
unfolding decode_body
decode_whole b q v e h =
    let (b₁, e₁, (v₁, c₁)) = retrieve_lem b packet_header_length v (omega arith) in
    let (b₂, e₂, l₂) =
      retrieve_as_string_lem b₁ (seen b).body_length v₁
        (omega (arith, ap length c₁, length-drop packet_header_length (contents b))) in
    (
      b₂,
      decode_accepted b q v (omega arith) e
          ∙ rw
              (
                le→ltb (readable_bytes b) (add_size packet_header_length (seen b).body_length)
                    (omega (arith, readable_lem b v, (validate_ok (seen b) e).length_ok)),
                e₁,
                e₂,
              )
              (ap
                (λ t.
                  some (
                    ok,
                    b₂,
                    record (packet_at (contents b)) { body = take (seen b).body_length t },
                  ))
                c₁),
      (l₂.0, l₂.1 ∙ ap (drop (seen b).body_length) c₁),
    )
