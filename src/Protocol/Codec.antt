-- ===== src/Protocol/Codec.antt =====
-- common/protocol/PacketCodec.cpp over common/net/Buffer.cpp. The pointers that `decode` is given
-- are taken to be non-null. `none` is an abort of the buffer, which `Codec.Stream` excludes;
-- for `encode` it is the exception `std::invalid_argument`.
pub mod Cases
pub mod Stream
pub mod Sound
use nebula_im.Base.{
  ℕ, Option, none, some, List, ◌++◌, length, ltb, ◌==◌, if◌then◌else◌, ◌>>=◌, add_size, not, ◌||◌,
  ◌^◌, ◌%◌,
}
use nebula_im.Net.Buffer.{Buffer, readable_bytes, peek, retrieve_all, retrieve, retrieve_as_string}
use nebula_im.Protocol.MessageType.{
  MessageType, to_uint16, message_type_from_uint16, is_unknown, is_valid_message_type,
}
use nebula_im.Protocol.Header.{
  PacketHeader, encode_header, decode_header, protocol_magic, protocol_version, max_body_length,
  packet_header_length,
}

pub record Packet : Type 0 where
  pub type : MessageType
  pub sequence_id : ℕ
  pub body : List ℕ

pub data ProtocolError : Type 0 where
  ok incomplete_packet invalid_magic invalid_version invalid_message_type : ProtocolError
  body_too_large invalid_header internal_error : ProtocolError

-- The header that `encode` writes.
abbrev pub header_of : Packet → PacketHeader
header_of p = record {
  magic = protocol_magic;
  version = protocol_version;
  type = to_uint16 p.type;
  sequence_id = p.sequence_id;
  body_length = length p.body % 2 ^ 32;
}

unfoldable pub encode : Packet → Option (List ℕ)
encode p =
    if is_unknown p.type || not (is_valid_message_type (to_uint16 p.type))
    then none
    else if ltb max_body_length (length p.body)
    then none
    else some (encode_header (header_of p) ++ p.body)

unfoldable pub validate_header : PacketHeader → ProtocolError
validate_header h =
    if not (h.magic == protocol_magic)
    then invalid_magic
    else if not (h.version == protocol_version)
    then invalid_version
    else if ltb max_body_length h.body_length
    then body_too_large
    else if not (is_valid_message_type h.type)
    then invalid_message_type
    else ok

-- `decode` behind a valid header: `packet` is written only when the whole packet is there.
unfoldable pub decode_body :
    Buffer → Packet → PacketHeader → Option (ProtocolError × Buffer × Packet)
decode_body b packet h =
    if ltb (readable_bytes b) (add_size packet_header_length h.body_length)
    then some (incomplete_packet, b, packet)
    else (do
      b₁ ← retrieve b packet_header_length
      (body, b₂) ← retrieve_as_string b₁ h.body_length
      some (
        ok,
        b₂,
        record { type = message_type_from_uint16 h.type; sequence_id = h.sequence_id; body = body },
      ))

unfoldable pub decode_validated :
    Buffer → Packet → PacketHeader → ProtocolError → Option (ProtocolError × Buffer × Packet)
decode_validated b packet h ok = decode_body b packet h
decode_validated b packet h e = some (e, retrieve_all b, packet)

unfoldable pub decode : Buffer → Packet → Option (ProtocolError × Buffer × Packet)
decode b packet =
    if ltb (readable_bytes b) packet_header_length
    then some (incomplete_packet, b, packet)
    else elim (decode_header (peek b) (readable_bytes b)) [
      | none ↦ some (invalid_header, b, packet)
      | some h ↦ decode_validated b packet h (validate_header h)
    ]
