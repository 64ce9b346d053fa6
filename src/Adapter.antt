-- ===== src/Adapter.antt =====
-- What crates/codex-adapter/src makes of the messages of Codex, and of the answers to them.
pub mod Delivery
pub mod Forms
pub mod Interactions
pub mod Status
mod Options
pub mod Goals
pub mod Events
mod Tests
