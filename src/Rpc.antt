-- ===== src/Rpc.antt =====
-- The RPC layer: replies (src/protocol/v3/rpc.rs) and the TCP server (src/rpc).
pub mod Message
pub mod Server
