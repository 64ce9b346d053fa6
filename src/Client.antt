-- ===== src/Client.antt =====
-- The client's side of file transfers, crates/client/src/transfers.
pub mod Tasks
pub mod Peers
pub mod Copy
pub mod Pair
pub mod Conflict
mod Tests
