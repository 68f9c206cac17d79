-- ===== src/WebSocket/Frame/RoundTrip.antt =====
-- What `encode` writes, `decode` reads back.
use nebula_im.Base.{
  ℕ, ◌-◌, ◌+◌, ◌/◌, ◌^◌, ◌<◌, ◌≤◌, ◌≡◌, ◌≢◌, refl, sym, ap, ◌∙◌, Bool, true, false, not, ◌&&◌, some,
  List, [], ◌∷◌, ◌++◌, length, length-append, take_append_length, drop_append_length, ltb, leb,
  le→ltb, ==_ne, ◌==◌, if◌then◌else◌, bit_and, bit_or, arith, inl, inr, Bool-cases, append_assoc,
}
use nebula_im.WebSocket.Frame.{
  WebSocketOpCode, continuation, text_frame, binary, close, ping, pong, op_code_byte,
  WebSocketFrame, ok, is_control_op_code, is_continuation, known_op_code, append_big_endian,
  apply_mask, decode_payload, decode_mask, decode_length, decode_opcode, decode, mask_bit,
  length_bytes, encode,
}
use nebula_im.WebSocket.Frame.Bytes.{
  apply_mask-twice, length-apply_mask, length-append_big_endian, read-append_big_endian,
  second_byte,
}

-- The mask and the payload behind the length.
abbrev sealed : List ℕ → Bool → List ℕ → List ℕ
sealed payload mask_payload mask_key =
    if mask_payload then mask_key ++ apply_mask mask_key 0 payload else payload

abbrev pub frame_of : WebSocketOpCode → List ℕ → Bool → WebSocketFrame
frame_of opcode payload masked = record {
  fin = true;
  opcode = opcode;
  masked = masked;
  payload = payload;
}

decode_payload-plain :
    (opcode : WebSocketOpCode) (mask_key payload rest : List ℕ) (offset : ℕ)
    → length payload < 2 ^ 63
    → decode_payload opcode false mask_key (length payload) offset (payload ++ rest)
      ≡ ok (frame_of opcode payload false) (offset + length payload)
unfolding decode_payload
decode_payload-plain opcode mask_key payload rest offset small =
    rw
      (
        le→ltb (length (payload ++ rest)) (length payload)
            (omega (arith, length-append payload rest)),
        le→ltb (2 ^ 64 - 1) (length payload) (omega arith),
        take_append_length (length payload) payload rest refl,
      )
      refl

decode_payload-masked :
    (opcode : WebSocketOpCode) (mask_key payload rest : List ℕ) (offset : ℕ)
    → length payload < 2 ^ 63
    → decode_payload opcode true mask_key
        (length payload)
        offset
        (apply_mask mask_key 0 payload ++ rest)
      ≡ ok (frame_of opcode payload true) (offset + length payload)
unfolding decode_payload
decode_payload-masked opcode mask_key payload rest offset small =
    let masked = apply_mask mask_key 0 payload in
    let size = length-apply_mask mask_key 0 payload in
    rw
      (
        le→ltb (length (masked ++ rest)) (length payload)
            (omega (arith, length-append masked rest, size)),
        le→ltb (2 ^ 64 - 1) (length payload) (omega arith),
        take_append_length (length payload) masked rest (sym size),
        apply_mask-twice mask_key 0 payload,
      )
      refl

decode_mask-sealed :
    (opcode : WebSocketOpCode) (payload : List ℕ) (masked : Bool) (mask_key rest : List ℕ)
    (offset : ℕ)
    → length payload < 2 ^ 63
    → (is_control_op_code opcode && ltb 125 (length payload)) ≡ false
    → length mask_key ≡ 4
    → decode_mask opcode masked (length payload) offset (sealed payload masked mask_key ++ rest)
      ≡ ok (frame_of opcode payload masked) (offset + length (sealed payload masked mask_key))
unfolding decode_mask
decode_mask-sealed opcode payload false mask_key rest offset small fits four =
    rw (fits, decode_mask)
      (decode_payload-plain opcode (0 ∷ 0 ∷ 0 ∷ 0 ∷ []) payload rest offset small)
decode_mask-sealed opcode payload true mask_key rest offset small fits four =
    let masked = apply_mask mask_key 0 payload in
    let grouped = append_assoc mask_key masked rest in
    rw
      (
        fits,
        grouped,
        le→ltb (length (mask_key ++ (masked ++ rest))) 4
            (omega (arith, length-append mask_key (masked ++ rest))),
        take_append_length 4 mask_key (masked ++ rest) (sym four),
        drop_append_length 4 mask_key (masked ++ rest) (sym four),
        decode_mask,
      )
      (decode_payload-masked opcode mask_key payload rest (offset + 4) small
        ∙ ap (ok (frame_of opcode payload true))
            (omega (arith, length-append mask_key masked, length-apply_mask mask_key 0 payload)))

first_byte :
    (opcode : WebSocketOpCode)
    → opcode ≢ continuation
    → (bit_and (bit_or 128 (op_code_byte opcode)) 112 ≡ 0)
      × (known_op_code (bit_and (bit_or 128 (op_code_byte opcode)) 15) ≡ some opcode)
      × ((bit_and (bit_or 128 (op_code_byte opcode)) 128 == 0) ≡ false)
      × (is_continuation opcode ≡ false)
unfolding op_code_byte
first_byte continuation h = absurd (h refl)
first_byte text_frame h = (refl, refl, refl, refl)
first_byte binary h = (refl, refl, refl, refl)
first_byte close h = (refl, refl, refl, refl)
first_byte ping h = (refl, refl, refl, refl)
first_byte pong h = (refl, refl, refl, refl)

decode_first :
    (opcode : WebSocketOpCode) (masked require_mask : Bool) (n : ℕ) (rest : List ℕ)
    → opcode ≢ continuation
    → (require_mask && not masked) ≡ false
    → n < 128
    → decode (bit_or 128 (op_code_byte opcode) ∷ bit_or (mask_bit masked) n ∷ rest) require_mask
      ≡ decode_length opcode masked n rest
unfolding decode decode_opcode
decode_first opcode masked require_mask n rest starts allowed small =
    let (plain, known, last, first) = first_byte opcode starts in
    let (mask, low) = second_byte masked n small in
    rw (decode, plain, known, last, mask, low, first, not_not masked, allowed, decode_opcode) refl
  where
    not_not : (b : Bool) → not (not b) ≡ b
    not_not true = refl
    not_not false = refl

short_length :
    (opcode : WebSocketOpCode) (masked : Bool) (size : ℕ) (tail : List ℕ)
    → size ≤ 125
    → decode_length opcode masked size tail ≡ decode_mask opcode masked size 2 tail
unfolding decode_length
short_length opcode masked size tail h =
    rw (decode_length, ==_ne size 126 (omega arith), ==_ne size 127 (omega arith)) refl

medium_length :
    (opcode : WebSocketOpCode) (masked : Bool) (size : ℕ) (tail : List ℕ)
    → size ≤ 0xFFFF
    → decode_length opcode masked 126 (append_big_endian size 2 ++ tail)
      ≡ decode_mask opcode masked size 4 tail
unfolding decode_length
medium_length opcode masked size tail h =
    let bytes = append_big_endian size 2 in
    let two = length-append_big_endian size 2 in
    rw
      (
        le→ltb (length (bytes ++ tail)) 2 (omega (arith, length-append bytes tail, two)),
        take_append_length 2 bytes tail (sym two),
        drop_append_length 2 bytes tail (sym two),
        read-append_big_endian size 2 (omega arith) (omega arith),
        decode_length,
      )
      refl

large_length :
    (opcode : WebSocketOpCode) (masked : Bool) (size : ℕ) (tail : List ℕ)
    → size < 2 ^ 63
    → decode_length opcode masked 127 (append_big_endian size 8 ++ tail)
      ≡ decode_mask opcode masked size 10 tail
unfolding decode_length
large_length opcode masked size tail h =
    let bytes = append_big_endian size 8 in
    let eight = length-append_big_endian size 8 in
    let no_sign : size / 2 ^ 63 ≡ 0 = omega arith in
    rw
      (
        le→ltb (length (bytes ++ tail)) 8 (omega (arith, length-append bytes tail, eight)),
        take_append_length 8 bytes tail (sym eight),
        drop_append_length 8 bytes tail (sym eight),
        read-append_big_endian size 8 (omega arith) (omega arith),
        no_sign,
        decode_length,
      )
      refl

decode-length-sealed :
    (opcode : WebSocketOpCode) (payload : List ℕ) (masked : Bool) (mask_key rest : List ℕ)
    (require_mask : Bool)
    → opcode ≢ continuation
    → (require_mask && not masked) ≡ false
    → length payload < 2 ^ 63
    → (is_control_op_code opcode && ltb 125 (length payload)) ≡ false
    → length mask_key ≡ 4
    → decode
        (bit_or 128 (op_code_byte opcode)
          ∷ (length_bytes masked (length payload) ++ (sealed payload masked mask_key ++ rest)))
        require_mask
      ≡ ok (frame_of opcode payload masked) (
          1
          + (length (length_bytes masked (length payload))
              + length (sealed payload masked mask_key)))
unfolding length_bytes
decode-length-sealed opcode payload masked mask_key rest require_mask starts allowed small fits
      four =
    let size = length payload in
    let tail = sealed payload masked mask_key ++ rest in
    elim (Bool-cases (leb size 125)) [
      | inl short ↦
          rw (short, length_bytes)
            (decode_first opcode masked require_mask size tail starts allowed (ground arith)
              ∙ short_length opcode masked size tail (ground arith)
              ∙ decode_mask-sealed opcode payload masked mask_key rest 2 small fits four
              ∙ ap (ok (frame_of opcode payload masked)) (omega arith))
      | inr longer ↦ elim (Bool-cases (leb size 0xFFFF)) [
        | inl medium ↦
            rw (longer, medium, length_bytes)
              (decode_first opcode masked require_mask 126 (append_big_endian size 2 ++ tail) starts
                  allowed (omega arith)
                ∙ medium_length opcode masked size tail (ground arith)
                ∙ decode_mask-sealed opcode payload masked mask_key rest 4 small fits four
                ∙ ap (ok (frame_of opcode payload masked))
                    (omega (arith, length-append_big_endian size 2)))
        | inr large ↦
            rw (longer, large, length_bytes)
              (decode_first opcode masked require_mask 127 (append_big_endian size 8 ++ tail) starts
                  allowed (omega arith)
                ∙ large_length opcode masked size tail small
                ∙ decode_mask-sealed opcode payload masked mask_key rest 10 small fits four
                ∙ ap (ok (frame_of opcode payload masked))
                    (omega (arith, length-append_big_endian size 8)))
      ]
    ]

-- Whatever bytes follow it, a frame that encode writes is read back by decode with its
-- opcode, its payload and whether it was masked, and exactly its bytes are consumed. The
-- opcode is not CONTINUATION, the mask key has 4 bytes, the frame is masked if a mask is
-- required, the payload is shorter than 2^63 bytes, and that of a control frame no longer
-- than 125.
pub decode-encode_frame :
    (opcode : WebSocketOpCode) (payload : List ℕ) (masked : Bool) (mask_key rest : List ℕ)
    (require_mask : Bool)
    → opcode ≢ continuation
    → (require_mask && not masked) ≡ false
    → length payload < 2 ^ 63
    → (is_control_op_code opcode && ltb 125 (length payload)) ≡ false
    → length mask_key ≡ 4
    → decode (encode opcode payload masked mask_key ++ rest) require_mask
      ≡ ok (frame_of opcode payload masked) (length (encode opcode payload masked mask_key))
unfolding encode
decode-encode_frame opcode payload masked mask_key rest require_mask starts allowed small fits
      four =
    let head = length_bytes masked (length payload) in
    let body = sealed payload masked mask_key in
    ap (λ t. decode (bit_or 128 (op_code_byte opcode) ∷ t) require_mask)
      (append_assoc head body rest)
    ∙ decode-length-sealed opcode payload masked mask_key rest require_mask starts allowed small
        fits four
    ∙ ap (ok (frame_of opcode payload masked)) (omega (arith, length-append head body))
