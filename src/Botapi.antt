-- ===== src/Botapi.antt =====
-- The body cap and the building of a request for BotX: internal/botapi.
pub mod Truncate
pub mod Requests
