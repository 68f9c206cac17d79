-- ===== src/WebSocket/Frame/Within.antt =====
-- `decode` consumes no more than it is given.
use nebula_im.Base.{
  ℕ, ◌+◌, ◌-◌, ◌/◌, ◌^◌, ◌≤◌, ◌≡◌, refl, Bool, true, false, not, ◌&&◌, ◌||◌, Option, none, some,
  List, [], ◌∷◌, length, length-drop, take, drop, ltb, ◌==◌, if◌then◌else◌, bit_and, arith, inl,
  inr, Bool-cases, subst,
}
use nebula_im.WebSocket.Frame.{
  WebSocketOpCode, WebSocketFrameStatus, ok, incomplete, protocol_error, is_control_op_code,
  is_continuation, known_op_code, read_big_endian, decode_payload, decode_mask, decode_length,
  decode_opcode, decode,
}

abbrev pub Within : ℕ → WebSocketFrameStatus → Type 0
Within len (ok frame consumed) = consumed ≤ len
Within len incomplete = Unit {0}
Within len protocol_error = Unit {0}

-- A step that can only give up, or go on.
either_Within :
    (len : ℕ) (test : Bool) (given_up on : WebSocketFrameStatus)
    → Within len given_up
    → (test ≡ false → Within len on)
    → Within len (if test then given_up else on)
either_Within len true given_up on h k = h
either_Within len false given_up on h k = k refl

decode_payload-Within :
    (opcode : WebSocketOpCode) (masked : Bool) (mask_key : List ℕ) (payload_len offset : ℕ)
    (rest : List ℕ)
    → Within (offset + length rest) (decode_payload opcode masked mask_key payload_len offset rest)
unfolding decode_payload
decode_payload-Within opcode masked mask_key payload_len offset rest =
    either_Within (offset + length rest) (ltb (length rest) payload_len) incomplete _ tt (λ h.
      either_Within (offset + length rest) (ltb (2 ^ 64 - 1) payload_len) protocol_error _ tt
        (λ k. ground arith))

decode_mask-Within :
    (opcode : WebSocketOpCode) (masked : Bool) (payload_len offset : ℕ) (rest : List ℕ)
    → Within (offset + length rest) (decode_mask opcode masked payload_len offset rest)
unfolding decode_mask
decode_mask-Within opcode masked payload_len offset rest =
    let len = offset + length rest in
    either_Within len (is_control_op_code opcode && ltb 125 payload_len) protocol_error _ tt (λ h.
      either_Within len (not masked) _ _
        (decode_payload-Within opcode masked (0 ∷ 0 ∷ 0 ∷ 0 ∷ []) payload_len offset rest)
        (λ k. either_Within len (ltb (length rest) 4) incomplete _ tt (λ long.
          subst
            (λ n.
              Within n
                (decode_payload opcode masked (take 4 rest) payload_len (offset + 4) (drop 4 rest)))
            (ground (arith, length-drop 4 rest))
            (decode_payload-Within opcode masked (take 4 rest) payload_len (offset + 4)
              (drop 4 rest)))))

-- What stands behind a length of `n` bytes.
behind :
    (n offset : ℕ) (rest : List ℕ) (status : WebSocketFrameStatus)
    → ltb (length rest) n ≡ false
    → Within (offset + n + length (drop n rest)) status
    → Within (offset + length rest) status
behind n offset rest status long h =
    subst (λ k. Within k status) (ground (arith, length-drop n rest)) h

decode_length-Within :
    (opcode : WebSocketOpCode) (masked : Bool) (payload_len : ℕ) (rest : List ℕ)
    → Within (2 + length rest) (decode_length opcode masked payload_len rest)
unfolding decode_length
decode_length-Within opcode masked payload_len rest = elim (Bool-cases (payload_len == 126)) [
  | inl medium ↦
      rw (medium, decode_length)
        (either_Within (2 + length rest) (ltb (length rest) 2) incomplete _ tt (λ long.
          behind 2 2 rest _ long
            (decode_mask-Within opcode masked (read_big_endian (take 2 rest)) 4 (drop 2 rest))))
  | inr other ↦ elim (Bool-cases (payload_len == 127)) [
    | inl large ↦
        rw (other, large, decode_length)
          (either_Within (2 + length rest) (ltb (length rest) 8) incomplete _ tt (λ long.
            either_Within (2 + length rest) (not (read_big_endian (take 8 rest) / 2 ^ 63 == 0))
              protocol_error _ tt
              (λ h. behind 8 2 rest _ long (
                decode_mask-Within opcode masked (read_big_endian (take 8 rest)) 10
                  (drop 8 rest)))))
    | inr short ↦
        rw (other, short, decode_length) (decode_mask-Within opcode masked payload_len 2 rest)
  ]
]

decode_opcode-Within :
    (opcode : Option WebSocketOpCode) (fin masked require_mask : Bool) (payload_len : ℕ)
    (rest : List ℕ)
    → Within (2 + length rest) (decode_opcode opcode fin masked require_mask payload_len rest)
unfolding decode_opcode
decode_opcode-Within none fin masked require_mask payload_len rest = tt
decode_opcode-Within (some opcode) fin masked require_mask payload_len rest =
    either_Within (2 + length rest) (not fin || is_continuation opcode) protocol_error _ tt (λ h.
      either_Within (2 + length rest) (require_mask && not masked) protocol_error _ tt
        (λ k. decode_length-Within opcode masked payload_len rest))

pub decode-Within :
    (bytes : List ℕ) (require_mask : Bool) → Within (length bytes) (decode bytes require_mask)
unfolding decode
decode-Within [] require_mask = tt
decode-Within (b0 ∷ []) require_mask = tt
decode-Within (b0 ∷ b1 ∷ rest) require_mask =
    subst (λ n. Within n (decode (b0 ∷ b1 ∷ rest) require_mask)) (omega arith)
      (either_Within (2 + length rest) (not (bit_and b0 0x70 == 0)) protocol_error _ tt (λ h.
        decode_opcode-Within (known_op_code (bit_and b0 0x0F)) (not (bit_and b0 0x80 == 0))
          (not (bit_and b1 0x80 == 0)) require_mask (bit_and b1 0x7F) rest))
