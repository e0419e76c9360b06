-- ===== src/Gitlab.antt =====
-- The GitLab webhook: internal/server/handler_gitlab.go and internal/server/gitlab_routing.go.
pub mod Glob
pub mod Payload
pub mod Routing
pub mod Templates
pub mod Sender
pub mod Handler
