-- ===== src/Gateway.antt =====
-- apps/gateway: the path of an action, and what it rests on.
pub mod Redaction
pub mod Store
pub mod Shape
pub mod Canonical
pub mod Executor
pub mod Calls
pub mod Client
pub mod Tokens
pub mod Action
pub mod Submission
