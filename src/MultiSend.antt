-- ===== src/MultiSend.antt =====
-- internal/server/multisend.go: the list of target chats, the fan-out and its one response.
pub mod ChatIds
pub mod Fanout
pub mod Response
