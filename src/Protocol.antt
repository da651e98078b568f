-- ===== src/Protocol.antt =====
-- The wire types of xdr/v3 and their middleware (src/protocol/v3).
pub mod Rpc
pub mod Services
pub mod Nfs
pub mod Xdr
