-- ===== src/Tests/WebSockets.antt =====
-- A masked text frame with the payload "Hi", and a buffer that holds it and one byte more.
use nebula_im.Base.{
  ℕ, true, false, ◌≡◌, ◌≢◌, refl, some, List, [], ◌∷◌, ◌++◌, length, replicate, arith,
}
use nebula_im.Net.Buffer.{Buffer}
use nebula_im.Net.Buffer.Contents.{IsValid, contents}
use nebula_im.WebSocket.Frame.{WebSocketFrame, continuation, text_frame, binary, ok, encode, decode}
use nebula_im.WebSocket.Frame
use nebula_im.WebSocket.Frame.RoundTrip.{frame_of, decode-encode_frame}
use nebula_im.WebSocket.Codec.{WebSocketCodecStatus, decode_frame}
use nebula_im.WebSocket.Codec.Total.{Outcome, decode_frame_total}

abbrev hi : List ℕ
hi = 72 ∷ 105 ∷ []

abbrev key : List ℕ
key = 1 ∷ 2 ∷ 3 ∷ 4 ∷ []

text_starts : text_frame ≢ continuation
text_starts e = cc

decode-encode_frame_example :
    decode (encode text_frame hi true key ++ (9 ∷ [])) true
    ≡ ok (frame_of text_frame hi true) (length (encode text_frame hi true key))
decode-encode_frame_example =
    decode-encode_frame text_frame hi true key (9 ∷ []) true text_starts refl (omega arith) refl
      refl

abbrev held : Buffer
held = record {
  storage = replicate 8 0 ++ (encode text_frame hi true key ++ (9 ∷ []));
  reader_index = 8;
  writer_index = 17;
}

abbrev blank : WebSocketFrame
blank = record { fin = true; opcode = binary; masked = false; payload = [] }

held-IsValid : IsValid held
unfolding encode Frame.length_bytes Frame.apply_mask
held-IsValid = omega arith

decode_frame_total_example :
    (r : WebSocketCodecStatus × Buffer × WebSocketFrame) × (decode_frame held blank ≡ some r)
    × Outcome held blank (decode (contents held) true) r
decode_frame_total_example = decode_frame_total held blank held-IsValid
