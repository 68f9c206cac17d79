-- ===== src/Protocol/Header.antt =====
-- common/protocol/PacketHeader.{h,cpp}: the 16 bytes in front of a packet's body.
use nebula_im.Base.{
  ℕ, ◌+◌, ◌*◌, ◌^◌, ◌≤◌, ◌<◌, ◌≡◌, refl, Option, none, some, List, [], ◌∷◌, ◌++◌, ◌∙◌, length, take,
  IsBytes, get_or, ltb, if◌then◌else◌, arith, le→ltb, ap, get_or-append_left,
}
use nebula_im.Protocol.Bytes.{
  append_uint16, append_uint32, read_uint16, read_uint32, read-append_uint16, read-append_uint32,
  append-read_uint16, append-read_uint32,
}

abbrev pub protocol_magic : ℕ
protocol_magic = 0x4E494D42

abbrev pub protocol_version : ℕ
protocol_version = 1

abbrev pub max_body_length : ℕ
max_body_length = 1024 * 1024

abbrev pub packet_header_length : ℕ
packet_header_length = 16

pub record PacketHeader : Type 0 where
  pub magic : ℕ
  pub version : ℕ
  pub type : ℕ
  pub sequence_id : ℕ
  pub body_length : ℕ

-- The fields fit their C++ types.
pub record IsWide (h : PacketHeader) : Type 0 where
  pub magic_32 : h.magic < 2 ^ 32
  pub version_16 : h.version < 2 ^ 16
  pub type_16 : h.type < 2 ^ 16
  pub sequence_id_32 : h.sequence_id < 2 ^ 32
  pub body_length_32 : h.body_length < 2 ^ 32

unfoldable pub encode_header : PacketHeader → List ℕ
encode_header h = append_uint32 h.magic (
    append_uint16 h.version
      (append_uint16 h.type (append_uint32 h.sequence_id (append_uint32 h.body_length []))))

-- `readUint32(data + i)` and `readUint16(data + i)`.
abbrev pub uint32_at : List ℕ → ℕ → ℕ
uint32_at bytes i =
    read_uint32 (get_or bytes i 0) (get_or bytes (i + 1) 0) (get_or bytes (i + 2) 0)
      (get_or bytes (i + 3) 0)

abbrev pub uint16_at : List ℕ → ℕ → ℕ
uint16_at bytes i = read_uint16 (get_or bytes i 0) (get_or bytes (i + 1) 0)

-- The fields as they stand in the first 16 bytes.
abbrev pub header_at : List ℕ → PacketHeader
header_at bytes = record {
  magic = uint32_at bytes 0;
  version = uint16_at bytes 4;
  type = uint16_at bytes 6;
  sequence_id = uint32_at bytes 8;
  body_length = uint32_at bytes 12;
}

-- `decodeHeader(data, len, header)`, with `none` for `false`.
unfoldable pub decode_header : List ℕ → ℕ → Option PacketHeader
decode_header bytes len = if ltb len packet_header_length then none else some (header_at bytes)

pub length-encode_header : (h : PacketHeader) → length (encode_header h) ≡ packet_header_length
unfolding encode_header
length-encode_header h = refl

pub header_at-encode :
    (h : PacketHeader) (rest : List ℕ) → IsWide h → header_at (encode_header h ++ rest) ≡ h
unfolding encode_header
header_at-encode h rest w = ground (
  arith,
  read-append_uint32 h.magic,
  read-append_uint16 h.version,
  read-append_uint16 h.type,
  read-append_uint32 h.sequence_id,
  read-append_uint32 h.body_length,
)

-- A header is read back from its encoding, whatever follows it.
pub decode-encode_header :
    (h : PacketHeader) (rest : List ℕ) (len : ℕ)
    → IsWide h
    → packet_header_length ≤ len
    → decode_header (encode_header h ++ rest) len ≡ some h
unfolding decode_header
decode-encode_header h rest len w k =
    rw (le→ltb len packet_header_length k) (ap some (header_at-encode h rest w))

-- The header is read from the first 16 bytes.
pub header_at-append :
    (bytes rest : List ℕ)
    → packet_header_length ≤ length bytes
    → header_at (bytes ++ rest) ≡ header_at bytes
header_at-append bytes rest h = simp (
  at 0 (omega arith),
  at 1 (omega arith),
  at 2 (omega arith),
  at 3 (omega arith),
  at 4 (omega arith),
  at 5 (omega arith),
  at 6 (omega arith),
  at 7 (omega arith),
  at 8 (omega arith),
  at 9 (omega arith),
  at 10 (omega arith),
  at 11 (omega arith),
  at 12 (omega arith),
  at 13 (omega arith),
  at 14 (omega arith),
  at 15 (omega arith),
)
  where
    at : (i : ℕ) → i < length bytes → get_or (bytes ++ rest) i 0 ≡ get_or bytes i 0
    at i k = get_or-append_left bytes rest i 0 k

-- Encoding what was read gives back the bytes.
pub encode-header_at :
    (bytes : List ℕ)
    → packet_header_length ≤ length bytes
    → IsBytes bytes
    → encode_header (header_at bytes) ≡ take packet_header_length bytes
unfolding encode_header
encode-header_at (a ∷ b ∷ c ∷ d ∷ e ∷ f ∷ g ∷ h ∷ i ∷ j ∷ k ∷ l ∷ m ∷ n ∷ o ∷ p ∷ rest) size
      (
        ha,
        (hb, (hc, (hd, (he, (hf, (hg, (hh, (hi, (hj, (hk, (hl, (hm, (hn, (ho, (hp, _))))))))))))))),
      ) =
    append-read_uint32 a b c d _ ha hb hc hd
    ∙ ap (λ t. a ∷ b ∷ c ∷ d ∷ t)
        (append-read_uint16 e f _ he hf
          ∙ ap (λ t. e ∷ f ∷ t)
              (append-read_uint16 g h _ hg hh
                ∙ ap (λ t. g ∷ h ∷ t)
                    (append-read_uint32 i j k l _ hi hj hk hl
                      ∙ ap (λ t. i ∷ j ∷ k ∷ l ∷ t) (append-read_uint32 m n o p [] hm hn ho hp))))
encode-header_at _ size w = absurd (omega arith)
