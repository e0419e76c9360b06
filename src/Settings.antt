-- ===== src/Settings.antt =====
-- What the configuration says of bots, chats and API keys: parts of internal/config/config.go and
-- internal/cmd/serve.go. A map is a list of pairs with distinct names, in the order of an iteration.
pub mod Lookup
pub mod Chats
pub mod Bots
pub mod Keys
