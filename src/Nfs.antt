-- ===== src/Nfs.antt =====
-- The NFS version 3 procedures (src/nfs), program 100003.
pub mod Wire
pub mod Codec
pub mod Status
pub mod Query
pub mod Listing
pub mod Change
pub mod Names
pub mod Dispatch
pub mod Rules
pub mod Stale
pub mod Modes
pub mod Access
pub mod Contents
pub mod Layout
pub mod Kept
pub mod Replies
