-- ===== src/Tests.antt =====
-- Concrete data, and the theorems at it.
mod Samples
mod Handles
mod Services
mod Files
mod Streams
mod Lifetime
mod Reuse
mod Tasks
mod Disk
mod Links
mod Build
mod Layout
