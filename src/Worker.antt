-- ===== src/Worker.antt =====
-- The queue worker: internal/cmd/worker.go.
pub mod Retry
pub mod Prepare
pub mod Handle
