-- ===== src/Callbacks.antt =====
-- Callbacks of the BotX platform: internal/server/callback.go, callback_router.go, callback_jwt.go
-- and handler_callback.go.
pub mod Event
pub mod Router
pub mod Jwt
pub mod Handler
