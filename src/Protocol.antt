-- ===== src/Protocol.antt =====
-- common/protocol: the packets of the binary protocol and their codec.
pub mod Bytes
pub mod MessageType
pub mod Header
pub mod Codec
pub mod Names
