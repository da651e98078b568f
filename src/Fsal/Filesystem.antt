-- ===== src/Fsal/Filesystem.antt =====
-- `trait Filesystem` of src/fsal/mod.rs: what the protocol handlers ask of a backend. A backend
-- has a state, which also stands for the world behind it.
use arcticwolf.Base.{ℕ, Bool, Option, List, M}
use arcticwolf.Base.Text.{Text, Bytes}
use arcticwolf.Fsal.Types.{FileType, FileAttributes, DirEntry}
use arcticwolf.Fsal.Handle.{FileHandle}

pub record Filesystem : Type 1 where
  pub State : Type 0
  pub root_handle : State → FileHandle
  pub lookup : FileHandle → Text → M State FileHandle
  pub getattr : FileHandle → M State FileAttributes
  pub read : FileHandle → ℕ → ℕ → M State Bytes
  pub readdir : FileHandle → ℕ → ℕ → M State (List DirEntry × Bool)
  pub write : FileHandle → ℕ → Bytes → M State ℕ
  pub setattr_size : FileHandle → ℕ → M State (Unit {0})
  pub setattr_mode : FileHandle → ℕ → M State (Unit {0})
  pub setattr_owner : FileHandle → Option ℕ → Option ℕ → M State (Unit {0})
  pub create : FileHandle → Text → ℕ → M State FileHandle
  pub remove : FileHandle → Text → M State (Unit {0})
  pub mkdir : FileHandle → Text → ℕ → M State FileHandle
  pub rmdir : FileHandle → Text → M State (Unit {0})
  pub rename : FileHandle → Text → FileHandle → Text → M State (Unit {0})
  pub symlink : FileHandle → Text → Text → M State FileHandle
  pub readlink : FileHandle → M State Text
  pub link : FileHandle → FileHandle → Text → M State FileHandle
  pub commit : FileHandle → ℕ → ℕ → M State (Unit {0})
  pub mknod : FileHandle → Text → FileType → ℕ → ℕ × ℕ → M State FileHandle
