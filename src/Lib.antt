-- ===== src/Lib.antt =====
-- NebulaIM is a messaging backend. Clients hold a TCP or web socket connection to a gateway, which
-- takes packets off the connection's byte buffer (common/net, common/protocol, common/websocket),
-- checks and routes them (gateway, common/gateway) and calls the services over RPC; messages get
-- their ids from a generator (common/message), and calls to a service that fails are held back by
-- a circuit breaker (common/circuitbreaker). Accounts and session tokens are those of the user service
-- (user_service, common/dao).
--
-- Files and the code that they model:
-- Base and its children: helpers shared by all, such as lists, maps, machine words and bits.
-- Net/Buffer: common/net/Buffer.{h,cpp}. An operation takes the buffer and returns the new one.
-- Net/TcpConnection: common/net/TcpConnection.{h,cpp}, the events of common/net/Channel.cpp and the
-- functors of common/net/EventLoop.cpp. What the kernel and OpenSSL answer is an argument.
-- Protocol/Bytes, Header, MessageType, Codec: common/protocol.
-- Gateway/TcpLoop: `onTcpMessage` of gateway/src/GatewayServer.cpp.
-- Gateway/ConnectionManager: common/gateway/ConnectionManager.{h,cpp}, ConnectionContext.h.
-- Gateway/Router: common/gateway/GatewayRouter.{h,cpp}. A handler either sends a packet or submits a
-- job; Router/Completion has the jobs and their callbacks. The router uses Gateway/ConnectionManager,
-- Fault/RateLimiter and Fault/CircuitBreaker; protobuf's parsing and the backends are arguments.
-- Gateway/Server: `onConnection` and the packets that are sent, in gateway/src/GatewayServer.cpp.
-- Message/Recall: `RecallMessage` of message_service/src/MessageServiceImpl.cpp.
-- Message/ConversationId: common/message/ConversationId.cpp.
-- Message/Tables: the statements of common/dao/MessageDao.cpp and common/outbox/OutboxDao.cpp that
-- sending uses, over lists of rows with the unique keys of deploy/mysql/migration.
-- Message/Send: sending in message_service/src/MessageServiceImpl.cpp. What the database does with
-- each statement is an argument, and a failed commit is one that did not take effect.
-- Message/IdGenerator: common/message/MessageIdGenerator.{h,cpp}.
-- WebSocket/Frame, WebSocket/Codec: WebSocketFrame and WebSocketCodec of common/websocket.
-- Fault/ErrorCode, Fault/CircuitBreaker: common/error/ErrorCode.{h,cpp}, common/circuitbreaker.
-- Fault/RateLimiter: common/ratelimit/RateLimiter.{h,cpp}; the token bucket is given.
-- Message/Receipts: `AckMessage` and `MarkMessageRead` of message_service/src/MessageServiceImpl.cpp.
-- Message/Pages: `ListConversationMessages` there, and its query in common/dao/MessageDao.cpp.
-- Message/Offline: `PullOfflineMessages` there, with common/dao/OfflineMessageDao.cpp, of which it has
-- the hexadecimal payloads, the listing and the mark of pulled rows.
-- Message/Outbox: the life of an event in common/outbox/OutboxDao.cpp: claims of events that are not
-- locked, and their outcomes. What the calls return is left out.
-- User/Tables: the statements of common/dao/UserDao.cpp and DeviceDao.cpp that the user service uses,
-- and its session tokens in Redis. User/Service, User/Refresh: the handlers of
-- user_service/src/UserServiceImpl.cpp. User/Stoull: `std::stoull`, which reads ids from Redis.
-- Protocol/Names: the names of message types and protocol errors.
-- Tests: the theorems at concrete inputs.
--
-- Names are the source's in lower case, with the trailing underscore of a member dropped. A
-- `std::string` of bytes is a list of numbers. A `size_t` or `uint64_t` wraps where the code can
-- reach that; `none` stands for an abort, an exception, or a call that does not return, as each
-- file says. A method that holds its mutex throughout is one step, and a time that it reads is an
-- argument.
--
-- Texts in the database (names, device ids, claim tokens) are compared by its collation, which
-- deploy/docker-compose.yml sets and which is not byte equality: it is an argument. A failed INSERT may
-- take values of an AUTO_INCREMENT column, as many as an argument says. Keys of Redis and texts that
-- the services compare themselves are equal byte by byte.
--
-- Fuel: the receiving loop takes one unit for each round, and more units than buffered bytes are
-- enough, since each round takes at least a header's bytes. The clock of the id generator is a
-- finite list of readings, and a call on one that ends too early does not return. A client that reads
-- a conversation page by page is allowed more requests than there are rows, which is enough,
-- since a page that is not the last has a row.
--
-- Not modelled: threads, sockets, epoll, timers, MySQL, Redis, Kafka, gRPC, cryptography, logging
-- and metrics, which the sources call; the web socket handshake, the rest of GatewayServer, and the
-- handlers of the relation, device, conversation, push and admin services, which are left for
-- later. What the gateway's loop calls is a parameter of it.
pub mod Base
pub mod Protocol
pub mod Net
pub mod Gateway
pub mod Message
pub mod Fault
pub mod WebSocket
mod Tests
pub mod User
