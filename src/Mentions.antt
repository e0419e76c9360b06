-- ===== src/Mentions.antt =====
-- Inline mentions: internal/mentions/parser.go.
pub mod Scan
pub mod Token
pub mod Parse
