-- ===== src/Fsal/Os.antt =====
-- What `std::fs` and libc ask of the operating system, over a state that stands for the disk. An
-- `io::Error` is given as an error with the message and the kind that the program reads.
use arcticwolf.Base.{ℕ, Bool, List, Result, M}
use arcticwolf.Base.Text.{Text, Bytes}
use arcticwolf.Fsal.FilePath.{FilePath}

-- The tests of `std::fs::FileType`.
pub record OsFileType : Type 0 where
  pub is_dir : Bool
  pub is_file : Bool
  pub is_symlink : Bool
  pub is_fifo : Bool
  pub is_char_device : Bool
  pub is_block_device : Bool
  pub is_socket : Bool

-- `std::fs::Metadata`; the times are as `MetadataExt` gives them, as `u64` and `u32`.
pub record Metadata : Type 0 where
  pub file_type : OsFileType
  pub mode : ℕ
  pub nlink : ℕ
  pub uid : ℕ
  pub gid : ℕ
  pub len : ℕ
  pub blocks : ℕ
  pub rdev : ℕ
  pub dev : ℕ
  pub ino : ℕ
  pub atime : ℕ
  pub atime_nsec : ℕ
  pub mtime : ℕ
  pub mtime_nsec : ℕ
  pub ctime : ℕ
  pub ctime_nsec : ℕ

-- `OpenOptions`
pub record OpenOptions : Type 0 where
  pub read : Bool
  pub write : Bool
  pub create : Bool
  pub truncate : Bool

-- An entry of `read_dir`: its name, as `to_string_lossy` gives it, and its metadata.
pub record OsDirEntry : Type 0 where
  pub file_name : Text
  pub metadata : Result Metadata

pub record Os : Type 1 where
  pub State : Type 0
  pub File : Type 0
  pub exists : State → FilePath → Bool
  pub canonicalize : State → FilePath → Result FilePath
  pub metadata : State → FilePath → Result Metadata
  pub symlink_metadata : State → FilePath → Result Metadata
  pub read_link : State → FilePath → Result Text
  pub read_dir : State → FilePath → Result (List (Result OsDirEntry))
  pub open_file : OpenOptions → FilePath → M State File
  pub seek : File → ℕ → M State (Unit {0})
  pub read : File → ℕ → M State Bytes
  pub write : File → Bytes → M State ℕ
  pub sync_all : File → M State (Unit {0})
  pub set_len : File → ℕ → M State (Unit {0})
  pub file_set_permissions : File → ℕ → M State (Unit {0})
  pub set_permissions : FilePath → ℕ → M State (Unit {0})
  pub remove_file : FilePath → M State (Unit {0})
  pub create_dir : FilePath → M State (Unit {0})
  pub remove_dir : FilePath → M State (Unit {0})
  pub rename : FilePath → FilePath → M State (Unit {0})
  pub symlink : Text → FilePath → M State (Unit {0})
  pub hard_link : FilePath → FilePath → M State (Unit {0})
  pub mkfifo : FilePath → ℕ → M State (Unit {0})
  pub mknod : FilePath → ℕ → ℕ → M State (Unit {0})
  -- `{:?}` of a path, the value of `DefaultHasher` on a path, and libc's `makedev`
  pub debug_path : FilePath → Text
  pub path_hash : FilePath → ℕ
  pub makedev : ℕ → ℕ → ℕ
