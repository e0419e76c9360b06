-- ===== src/Gitlab/Routing.antt =====
-- The routing engine: internal/server/gitlab_routing.go.
pub mod Selector
pub mod Engine
pub mod Compile
pub mod Evaluate
