-- ===== src/Server.antt =====
-- The HTTP server's keys, bots and chat scopes: internal/server/auth.go and parts of server.go.
pub mod Config
pub mod Bots
pub mod Access
pub mod Middleware
pub mod Send
pub mod Membership
pub mod PlainSend
pub mod Alerts
pub mod Mattermost
pub mod Gate
