-- ===== src/Tests.antt =====
-- Concrete inputs, runs of the code on them, and the theorems at them.
pub mod Samples
mod Evaluation
mod Documents
mod Canonical
mod Lifecycle
mod Decisions
pub mod Submission
mod Policies
pub mod Service
mod System
mod Tokens
mod Transitions
