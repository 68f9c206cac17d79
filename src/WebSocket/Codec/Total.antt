-- ===== src/WebSocket/Codec/Total.antt =====
-- What `decodeFrame` does to the buffer.
use nebula_im.Base.{◌≡◌, refl, ap, true, some, [], length, take, drop, arith}
use nebula_im.Net.Buffer.{Buffer, peek, retrieve_all, readable_bytes}
use nebula_im.Net.Buffer.Contents.{
  IsValid, contents, Leaves, readable_lem, retrieve_lem, retrieve_all_lem,
}
use nebula_im.Net.Buffer.Window.{length-window}
use nebula_im.WebSocket.Frame.{
  WebSocketOpCode, continuation, WebSocketFrame, WebSocketFrameStatus, is_control_op_code, encode,
}
use nebula_im.WebSocket.Frame
use nebula_im.WebSocket.Frame.Within.{Within, decode-Within}
use nebula_im.WebSocket.Codec.{
  WebSocketCodecStatus, ok, incomplete, protocol_error, finish_frame, decode_frame,
}

-- What `decodeFrame` leaves, by what `decode` reports of the readable bytes.
abbrev pub Outcome :
    Buffer
    → WebSocketFrame
    → WebSocketFrameStatus
    → (WebSocketCodecStatus × Buffer × WebSocketFrame)
    → Type 0
Outcome b frame (Frame.ok frame' consumed) (status, b', out) =
    (status ≡ ok) × (out ≡ frame') × Leaves (drop consumed (contents b)) b'
Outcome b frame Frame.incomplete (status, b', out) =
    (status ≡ incomplete) × (out ≡ frame) × (b' ≡ b)
Outcome b frame Frame.protocol_error (status, b', out) =
    (status ≡ protocol_error) × (out ≡ frame) × Leaves [] b'

finish_frame_total :
    (b : Buffer) (frame : WebSocketFrame) (status : WebSocketFrameStatus)
    → IsValid b
    → Within (length (contents b)) status
    → (r : WebSocketCodecStatus × Buffer × WebSocketFrame) × (finish_frame b frame status ≡ some r)
      × Outcome b frame status r
unfolding finish_frame
finish_frame_total b frame (Frame.ok frame' consumed) v h =
    let (b', e, l) = retrieve_lem b consumed v h in ((ok, b', frame'), rw (e) refl, (refl, refl, l))
finish_frame_total b frame Frame.incomplete v h = ((incomplete, b, frame), refl, (refl, refl, refl))
finish_frame_total b frame Frame.protocol_error v h =
    ((protocol_error, retrieve_all b, frame), refl, (refl, refl, retrieve_all_lem b v))

readable_window : (b : Buffer) → IsValid b → take (readable_bytes b) (peek b) ≡ contents b
unfolding peek
readable_window b v =
    ap (λ k. take k (drop b.reader_index b.storage))
      (omega
        (arith, readable_lem b v, length-window b.reader_index b.writer_index b.storage v.within))

-- On a valid buffer decodeFrame never aborts. What it does follows from what the frame
-- decoder, with a mask required, reports of the readable bytes: a frame is taken off the
-- front of the buffer and handed out, an incomplete one leaves the buffer and the frame as
-- they were, and after a protocol error the buffer is empty and the frame as it was. The
-- buffer stays valid where bytes are taken off.
pub decode_frame_total :
    (b : Buffer) (frame : WebSocketFrame)
    → IsValid b
    → (r : WebSocketCodecStatus × Buffer × WebSocketFrame) × (decode_frame b frame ≡ some r)
      × Outcome b frame (Frame.decode (contents b) true) r
unfolding decode_frame
decode_frame_total b frame v =
    rw (readable_window b v, decode_frame)
      (finish_frame_total b frame (Frame.decode (contents b) true) v
        (decode-Within (contents b) true))
