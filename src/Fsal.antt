-- ===== src/Fsal.antt =====
-- The filesystem abstraction layer (src/fsal).
pub mod FilePath
pub mod Handle
pub mod Types
pub mod Filesystem
pub mod Os
pub mod Local
