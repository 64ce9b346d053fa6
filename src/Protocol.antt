-- ===== src/Protocol.antt =====
-- crates/protocol/src: what crosses between the client and the server.
pub mod Codec
pub mod Wire
