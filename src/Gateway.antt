-- ===== src/Gateway.antt =====
-- gateway and common/gateway: the connections of clients.
pub mod TcpLoop
pub mod ConnectionManager
pub mod Router
pub mod Server
