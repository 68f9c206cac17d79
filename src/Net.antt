-- ===== src/Net.antt =====
-- common/net: the byte buffer of a connection, and the connection.
pub mod Buffer
pub mod TcpConnection
