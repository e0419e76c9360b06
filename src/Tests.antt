-- ===== src/Tests.antt =====
-- Concrete inputs on which the theorems of the other modules apply.
pub mod Samples
pub mod Messages
pub mod Access
pub mod Gitlab
pub mod Callbacks
pub mod Worker
pub mod Requests
pub mod Mentions
pub mod PlainSend
pub mod Queue
pub mod Settings
pub mod Alerts
pub mod Mattermost
