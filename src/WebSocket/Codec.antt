-- ===== src/WebSocket/Codec.antt =====
-- common/websocket/WebSocketCodec.{h,cpp} over common/net/Buffer.cpp. The pointers that
-- `decodeFrame` is given are taken to be non-null; `none` is an abort of the buffer.
pub mod Total
use nebula_im.Base.{ℕ, true, false, Option, none, some, take, List, [], ◌>>=◌}
use nebula_im.Net.Buffer.{Buffer, peek, retrieve, retrieve_all, readable_bytes}
use nebula_im.WebSocket.Frame.{
  WebSocketFrame, WebSocketFrameStatus, text_frame, binary, close, pong,
}
use nebula_im.WebSocket.Frame

pub data WebSocketCodecStatus : Type 0 where
  ok incomplete protocol_error : WebSocketCodecStatus

unfoldable pub finish_frame :
    Buffer
    → WebSocketFrame
    → WebSocketFrameStatus
    → Option (WebSocketCodecStatus × Buffer × WebSocketFrame)
finish_frame b frame Frame.incomplete = some (WebSocketCodecStatus.incomplete, b, frame)
finish_frame b frame Frame.protocol_error =
    some (WebSocketCodecStatus.protocol_error, retrieve_all b, frame)
finish_frame b frame (Frame.ok frame' consumed) = (do
  b' ← retrieve b consumed
  some (WebSocketCodecStatus.ok, b', frame'))

unfoldable pub decode_frame :
    Buffer → WebSocketFrame → Option (WebSocketCodecStatus × Buffer × WebSocketFrame)
decode_frame b frame = finish_frame b frame (Frame.decode (take (readable_bytes b) (peek b)) true)

unfoldable pub encode_binary : List ℕ → List ℕ
encode_binary packet_bytes = Frame.encode binary packet_bytes false []

unfoldable pub encode_text : List ℕ → List ℕ
encode_text text = Frame.encode text_frame text false []

unfoldable pub encode_pong : List ℕ → List ℕ
encode_pong payload = Frame.encode pong payload false []

unfoldable pub encode_close : List ℕ → List ℕ
encode_close reason = Frame.encode close reason false []
