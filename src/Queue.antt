-- ===== src/Queue.antt =====
-- The messages of the queues, the catalog of bots and chats, and the two producers of work:
-- internal/queue/queue.go, internal/queue/catalog.go, internal/cmd/serve.go, internal/cmd/enqueue.go.
pub mod Message
pub mod Catalog
pub mod Enqueue
pub mod Command
