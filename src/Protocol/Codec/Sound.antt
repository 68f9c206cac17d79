-- ===== src/Protocol/Codec/Sound.antt =====
-- What a call of `decode` on any bytes may do.
use native.Mathlib.Decide.{dec_lt}
use nebula_im.Base.{
  ℕ, ◌+◌, ◌%◌, ◌^◌, ◌≤◌, ◌≡◌, ◌≢◌, sym, ap, ◌∙◌, some, true, List, [], ◌++◌, length, take, drop,
  length-take, length-drop, take-append-drop, append_assoc, IsBytes, arith, Option,
}
use nebula_im.Net.Buffer.{Buffer, retrieve_all}
use nebula_im.Net.Buffer.Contents.{IsValid, contents, Leaves, retrieve_all_lem}
use nebula_im.Protocol.MessageType.{
  to_uint16, is_valid_message_type, to-from_uint16, from-to_uint16,
}
use nebula_im.Protocol.Header.{
  PacketHeader, header_at, encode_header, encode-header_at, max_body_length, packet_header_length,
}
use nebula_im.Protocol.Codec.{
  Packet, ProtocolError, ok, incomplete_packet, encode, validate_header, decode, header_of,
}
use nebula_im.Protocol.Codec.Cases.{
  seen, Accepts, validate_ok, packet_at, decode_short, decode_refused, decode_partial, decode_whole,
}

ProtocolError-discrete : Discrete ProtocolError
ProtocolError-discrete = hlevel

ok_ne_incomplete : ok ≢ incomplete_packet
ok_ne_incomplete e = cc

pub ap_error :
    {e e' : ProtocolError} {b b' : Buffer} {p p' : Packet}
    → ◌≡◌ {A = Option (ProtocolError × Buffer × Packet)} (some (e, b, p)) (some (e', b', p'))
    → e ≡ e'
ap_error h = cc

-- The three ways a call can end: it takes a whole packet, waits, or refuses the stream.
pub data Outcome (b : Buffer) (q : Packet) (r : Option (ProtocolError × Buffer × Packet))
    : Type 0 where
  took :
      (b' : Buffer)
      → validate_header (seen b) ≡ ok
      → packet_header_length + (seen b).body_length ≤ length (contents b)
      → r ≡ some (ok, b', packet_at (contents b))
      → Leaves (drop (seen b).body_length (drop packet_header_length (contents b))) b'
      → Outcome b q r
  waits : r ≡ some (incomplete_packet, b, q) → Outcome b q r
  refuses :
      (e : ProtocolError) (b' : Buffer)
      → e ≢ ok
      → e ≢ incomplete_packet
      → r ≡ some (e, b', q)
      → Leaves [] b'
      → Outcome b q r

not_incomplete : (h : PacketHeader) → validate_header h ≢ incomplete_packet
unfolding validate_header
not_incomplete h e = ground arith

-- On a valid buffer decode never aborts, and ends in one of three ways: it takes one packet
-- off the front of the buffer, it waits and changes nothing, or it reports an error, leaves
-- the packet as it was and empties the buffer; the buffer stays valid.
pub decode-Outcome : (b : Buffer) (q : Packet) → IsValid b → Outcome b q (decode b q)
decode-Outcome b q v = elim (dec_lt (length (contents b)) packet_header_length) [
  | yes few ↦ waits (decode_short b q v few)
  | no enough ↦ elim (ProtocolError-discrete (validate_header (seen b)) ok) [
    | yes good ↦ elim (dec_lt (length (contents b)) (packet_header_length + (seen b).body_length)) [
      | yes few ↦ waits (decode_partial b q v (omega arith) good few)
      | no whole ↦
          let (b', e, l) = decode_whole b q v good (omega arith) in took b' good (omega arith) e l
    ]
    | no bad ↦
        refuses (validate_header (seen b)) (retrieve_all b) bad (not_incomplete (seen b))
          (decode_refused b q v (omega arith) bad) (retrieve_all_lem b v)
  ]
]

-- A known type and a body within the limit is all that `encode` asks for.
pub encode-some :
    (p : Packet)
    → is_valid_message_type (to_uint16 p.type) ≡ true
    → length p.body ≤ max_body_length
    → encode p ≡ some (encode_header (header_of p) ++ p.body)
unfolding encode is_valid_message_type
encode-some p known short = ground (arith, from-to_uint16 p.type)

module _ (bytes : List ℕ) (good : validate_header (header_at bytes) ≡ ok)
    (h : packet_header_length + (header_at bytes).body_length ≤ length bytes)
    (w : IsBytes bytes) where
  accepted : Accepts (header_at bytes)
  accepted = validate_ok (header_at bytes) good

  same_type : to_uint16 (packet_at bytes).type ≡ (header_at bytes).type
  same_type = to-from_uint16 (header_at bytes).type accepted.type_ok

  same_length : length (packet_at bytes).body ≡ (header_at bytes).body_length
  same_length = omega (
    arith,
    length-take (header_at bytes).body_length (drop packet_header_length bytes),
    length-drop packet_header_length bytes,
  )

  same_header : header_of (packet_at bytes) ≡ header_at bytes
  same_header = λ i. record {
    magic = (sym accepted.magic_ok) i;
    version = (sym accepted.version_ok) i;
    type = same_type i;
    sequence_id = (header_at bytes).sequence_id;
    body_length = size i;
  }
    where
      size : length (packet_at bytes).body % 2 ^ 32 ≡ (header_at bytes).body_length
      size = omega (arith, same_length, accepted.length_ok)

  encode-packet_at :
      encode (packet_at bytes) ≡ some (take packet_header_length bytes ++ (packet_at bytes).body)
  encode-packet_at =
      encode-some (packet_at bytes) (ap is_valid_message_type same_type ∙ accepted.type_ok)
        (omega (arith, same_length, accepted.length_ok))
      ∙ ap (λ t. some (t ++ (packet_at bytes).body))
          (ap encode_header same_header ∙ encode-header_at bytes (omega arith) w)

  split_frame :
      bytes
      ≡ (take packet_header_length bytes ++ (packet_at bytes).body)
        ++ drop (header_at bytes).body_length (drop packet_header_length bytes)
  split_frame = sym (
      append_assoc (take packet_header_length bytes) (packet_at bytes).body
        (drop (header_at bytes).body_length (drop packet_header_length bytes))
      ∙ ap (λ t. take packet_header_length bytes ++ t)
          (take-append-drop (header_at bytes).body_length (drop packet_header_length bytes))
      ∙ take-append-drop packet_header_length bytes)

sound_took :
    (b b' : Buffer) (q p : Packet)
    → IsBytes (contents b)
    → decode b q ≡ some (ok, b', p)
    → Outcome b q (decode b q)
    → (bytes : List ℕ) × (encode p ≡ some bytes) × (contents b ≡ bytes ++ contents b')
sound_took b b' q p w e (took b'' good h e' l) =
    let same_packet : packet_at (contents b) ≡ p = cc in
    let same_buffer : b'' ≡ b' = cc in
    (
      take packet_header_length (contents b) ++ (packet_at (contents b)).body,
      ap encode (sym same_packet) ∙ encode-packet_at (contents b) good h w,
      split_frame (contents b) good h w
          ∙ ap (λ t. (take packet_header_length (contents b) ++ (packet_at (contents b)).body) ++ t)
              (sym l.1 ∙ ap contents same_buffer),
    )
sound_took b b' q p w e (waits e') = absurd (ok_ne_incomplete (ap_error (sym e ∙ e')))
sound_took b b' q p w e (refuses e₁ b₁ ne ne' e' l) = absurd (ne (ap_error (sym e' ∙ e)))

-- A packet that decode delivers from a valid buffer of bytes was encoded: encode accepts it,
-- and its encoding followed by what is left is what the buffer held.
pub decode_sound :
    (b b' : Buffer) (q p : Packet)
    → IsValid b
    → IsBytes (contents b)
    → decode b q ≡ some (ok, b', p)
    → (bytes : List ℕ) × (encode p ≡ some bytes) × (contents b ≡ bytes ++ contents b')
decode_sound b b' q p v w e = sound_took b b' q p w e (decode-Outcome b q v)
