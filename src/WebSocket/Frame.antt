-- ===== src/WebSocket/Frame.antt =====
-- common/websocket/WebSocketFrame.{h,cpp}. The pointers that `decode` is given are taken to be
-- non-null; a list of bytes stands for `data + offset` with the `len - offset` bytes there.
pub mod Bytes
pub mod RoundTrip
pub mod Within
use nebula_im.Base.{
  ℕ, zero, suc, ◌-◌, ◌+◌, ◌*◌, ◌/◌, ◌%◌, ◌^◌, Bool, true, false, not, ◌&&◌, ◌||◌, Option, none,
  some, List, [], ◌∷◌, ◌++◌, length, take, drop, get_or, ltb, leb, ◌==◌, if◌then◌else◌, bit_and,
  bit_or, bit_xor,
}

pub data WebSocketOpCode : Type 0 where
  continuation text_frame binary close ping pong : WebSocketOpCode

unfoldable pub op_code_byte : WebSocketOpCode → ℕ
op_code_byte continuation = 0
op_code_byte text_frame = 1
op_code_byte binary = 2
op_code_byte close = 8
op_code_byte ping = 9
op_code_byte pong = 10

pub record WebSocketFrame : Type 0 where
  pub fin : Bool
  pub opcode : WebSocketOpCode
  pub masked : Bool
  pub payload : List ℕ

-- What `decode` reports, with the frame and `*consumed` where it sets them.
pub data WebSocketFrameStatus : Type 0 where
  ok : WebSocketFrame → ℕ → WebSocketFrameStatus
  incomplete : WebSocketFrameStatus
  protocol_error : WebSocketFrameStatus

abbrev pub is_control_op_code : WebSocketOpCode → Bool
is_control_op_code continuation = false
is_control_op_code text_frame = false
is_control_op_code binary = false
is_control_op_code close = true
is_control_op_code ping = true
is_control_op_code pong = true

abbrev pub is_continuation : WebSocketOpCode → Bool
is_continuation continuation = true
is_continuation text_frame = false
is_continuation binary = false
is_continuation close = false
is_continuation ping = false
is_continuation pong = false

-- `isKnownOpCode` and the cast behind it.
abbrev pub known_op_code : ℕ → Option WebSocketOpCode
known_op_code n =
    if n == 0
    then some continuation
    else if n == 1
    then some text_frame
    else if n == 2
    then some binary
    else if n == 8
    then some close
    else if n == 9
    then some ping
    else if n == 10
    then some pong
    else none

-- `value << 8` drops what a `uint64_t` has no room for.
unfoldable pub read_from : ℕ → List ℕ → ℕ
read_from value [] = value
read_from value (byte ∷ bytes) = read_from (bit_or (value * 2 ^ 8 % 2 ^ 64) byte) bytes

unfoldable pub read_big_endian : List ℕ → ℕ
read_big_endian bytes = read_from 0 bytes

unfoldable pub append_big_endian : ℕ → ℕ → List ℕ
append_big_endian value zero = []
append_big_endian value (suc len) =
    bit_and (value / 2 ^ (8 * len)) 0xFF ∷ append_big_endian value len

-- `payload[i] ^ mask_key[i % 4]`, from index `i` on.
unfoldable pub apply_mask : List ℕ → ℕ → List ℕ → List ℕ
apply_mask mask_key i [] = []
apply_mask mask_key i (byte ∷ payload) =
    bit_xor byte (get_or mask_key (i % 4) 0) ∷ apply_mask mask_key (suc i) payload

unfoldable pub decode_payload :
    WebSocketOpCode → Bool → List ℕ → ℕ → ℕ → List ℕ → WebSocketFrameStatus
decode_payload opcode masked mask_key payload_len offset rest =
    if ltb (length rest) payload_len
    then incomplete
    else if ltb (2 ^ 64 - 1) payload_len
    then protocol_error
    else ok
        (record {
          fin = true;
          opcode = opcode;
          masked = masked;
          payload =
              if masked
              then apply_mask mask_key 0 (take payload_len rest)
              else take payload_len rest;
        })
        (offset + payload_len)

unfoldable pub decode_mask : WebSocketOpCode → Bool → ℕ → ℕ → List ℕ → WebSocketFrameStatus
decode_mask opcode masked payload_len offset rest =
    if is_control_op_code opcode && ltb 125 payload_len
    then protocol_error
    else if not masked
    then decode_payload opcode masked (0 ∷ 0 ∷ 0 ∷ 0 ∷ []) payload_len offset rest
    else if ltb (length rest) 4
    then incomplete
    else decode_payload opcode masked (take 4 rest) payload_len (offset + 4) (drop 4 rest)

unfoldable pub decode_length : WebSocketOpCode → Bool → ℕ → List ℕ → WebSocketFrameStatus
decode_length opcode masked payload_len rest =
    if payload_len == 126
    then if ltb (length rest) 2
      then incomplete
      else decode_mask opcode masked (read_big_endian (take 2 rest)) 4 (drop 2 rest)
    else if payload_len == 127
    then if ltb (length rest) 8
      then incomplete
      else if not (read_big_endian (take 8 rest) / 2 ^ 63 == 0)
      then protocol_error
      else decode_mask opcode masked (read_big_endian (take 8 rest)) 10 (drop 8 rest)
    else decode_mask opcode masked payload_len 2 rest

unfoldable pub decode_opcode :
    Option WebSocketOpCode → Bool → Bool → Bool → ℕ → List ℕ → WebSocketFrameStatus
decode_opcode none fin masked require_mask payload_len rest = protocol_error
decode_opcode (some opcode) fin masked require_mask payload_len rest =
    if not fin || is_continuation opcode
    then protocol_error
    else if require_mask && not masked
    then protocol_error
    else decode_length opcode masked payload_len rest

unfoldable pub decode : List ℕ → Bool → WebSocketFrameStatus
decode [] require_mask = incomplete
decode (b0 ∷ []) require_mask = incomplete
decode (b0 ∷ b1 ∷ rest) require_mask =
    if not (bit_and b0 0x70 == 0)
    then protocol_error
    else decode_opcode (known_op_code (bit_and b0 0x0F)) (not (bit_and b0 0x80 == 0))
        (not (bit_and b1 0x80 == 0)) require_mask (bit_and b1 0x7F) rest

abbrev pub mask_bit : Bool → ℕ
mask_bit mask_payload = if mask_payload then 0x80 else 0x00

unfoldable pub length_bytes : Bool → ℕ → List ℕ
length_bytes mask_payload size =
    if leb size 125
    then bit_or (mask_bit mask_payload) size ∷ []
    else if leb size 0xFFFF
    then bit_or (mask_bit mask_payload) 126 ∷ append_big_endian size 2
    else bit_or (mask_bit mask_payload) 127 ∷ append_big_endian size 8

-- The argument `mask_key` is what `randomMask` draws.
unfoldable pub encode : WebSocketOpCode → List ℕ → Bool → List ℕ → List ℕ
encode opcode payload mask_payload mask_key =
    bit_or 0x80 (op_code_byte opcode) ∷ length_bytes mask_payload (length payload)
    ++ (if mask_payload then mask_key ++ apply_mask mask_key 0 payload else payload)
