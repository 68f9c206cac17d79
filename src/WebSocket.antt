-- ===== src/WebSocket.antt =====
-- The web socket layer: common/websocket/WebSocketFrame and WebSocketCodec.
pub mod Frame
pub mod Codec
