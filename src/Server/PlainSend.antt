-- ===== src/Server/PlainSend.antt =====
-- `handleSend` of internal/server/handler_send.go: the form of the request, the checks of its
-- payload, the routing of the asynchronous mode, and the two ways of sending.
pub mod Form
pub mod Prepare
pub mod Routing
pub mod Handler
