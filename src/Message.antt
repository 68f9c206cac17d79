-- ===== src/Message.antt =====
-- Messages: the ids of common/message, the tables of common/dao and common/outbox, and the sending
-- of message_service.
pub mod IdGenerator
pub mod ConversationId
pub mod Tables
pub mod Send
pub mod Outbox
pub mod Receipts
pub mod Recall
pub mod Pages
pub mod Offline
