-- ===== src/Server/Mattermost.antt =====
-- The Mattermost endpoint: internal/server/handler_mattermost.go.
pub mod Render
pub mod Posts
pub mod Laws
