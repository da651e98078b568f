-- ===== src/Fsal/Types.antt =====
-- The data of src/fsal/mod.rs.
use arcticwolf.Base.{ℕ}
use arcticwolf.Base.Text.{Text}

pub data FileType : Type 0 where
  regular_file directory block_device char_device symbolic_link socket named_pipe : FileType

pub record FileTime : Type 0 where
  pub seconds : ℕ
  pub nseconds : ℕ

pub record FileAttributes : Type 0 where
  pub ftype : FileType
  pub mode : ℕ
  pub nlink : ℕ
  pub uid : ℕ
  pub gid : ℕ
  pub size : ℕ
  pub used : ℕ
  pub rdev : ℕ × ℕ
  pub fsid : ℕ
  pub fileid : ℕ
  pub atime : FileTime
  pub mtime : FileTime
  pub ctime : FileTime

pub record DirEntry : Type 0 where
  pub fileid : ℕ
  pub name : Text
  pub file_type : FileType
