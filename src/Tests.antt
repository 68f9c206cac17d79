-- ===== src/Tests.antt =====
-- The theorems at concrete inputs.
mod Codecs
mod Ids
mod Connections
mod Faults
mod WebSockets
mod Sends
mod Outboxes
mod Limits
mod Reads
mod Sockets
mod Routers
mod Users
mod Recalls
mod Pages
mod Offlines
mod Servers
