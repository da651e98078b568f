-- ===== src/Nfs/Kept.antt =====
-- What the calls of a backend keep, the procedures of src/nfs keep: they reach the files through
-- the backend alone.
pub mod Query
pub mod Change
pub mod Names
pub mod Listing
pub mod Dispatch
use arcticwolf.Base.{ℕ, Option}
use arcticwolf.Base.Text.{Text, Bytes}
use arcticwolf.Fsal.Types.{FileType}
use arcticwolf.Fsal.Filesystem.{Filesystem}
use arcticwolf.Fsal.Handle.{FileHandle}

-- Every method of the backend keeps the property of its state.
pub record IsKept (F : Filesystem) (P : F.State → Type 0) : Type 0 where
  pub lookup : (h : FileHandle) (n : Text) (s : F.State) → P s → P (F.lookup h n s).0
  pub getattr : (h : FileHandle) (s : F.State) → P s → P (F.getattr h s).0
  pub read : (h : FileHandle) (o c : ℕ) (s : F.State) → P s → P (F.read h o c s).0
  pub readdir : (h : FileHandle) (o c : ℕ) (s : F.State) → P s → P (F.readdir h o c s).0
  pub write : (h : FileHandle) (o : ℕ) (b : Bytes) (s : F.State) → P s → P (F.write h o b s).0
  pub setattr_size : (h : FileHandle) (n : ℕ) (s : F.State) → P s → P (F.setattr_size h n s).0
  pub setattr_mode : (h : FileHandle) (n : ℕ) (s : F.State) → P s → P (F.setattr_mode h n s).0
  pub setattr_owner :
      (h : FileHandle) (u g : Option ℕ) (s : F.State) → P s → P (F.setattr_owner h u g s).0
  pub create : (h : FileHandle) (n : Text) (m : ℕ) (s : F.State) → P s → P (F.create h n m s).0
  pub remove : (h : FileHandle) (n : Text) (s : F.State) → P s → P (F.remove h n s).0
  pub mkdir : (h : FileHandle) (n : Text) (m : ℕ) (s : F.State) → P s → P (F.mkdir h n m s).0
  pub rmdir : (h : FileHandle) (n : Text) (s : F.State) → P s → P (F.rmdir h n s).0
  pub rename :
      (h : FileHandle) (n : Text) (h' : FileHandle) (n' : Text) (s : F.State)
      → P s
      → P (F.rename h n h' n' s).0
  pub symlink : (h : FileHandle) (n t : Text) (s : F.State) → P s → P (F.symlink h n t s).0
  pub readlink : (h : FileHandle) (s : F.State) → P s → P (F.readlink h s).0
  pub link : (h d : FileHandle) (n : Text) (s : F.State) → P s → P (F.link h d n s).0
  pub commit : (h : FileHandle) (o c : ℕ) (s : F.State) → P s → P (F.commit h o c s).0
  pub mknod :
      (h : FileHandle) (n : Text) (t : FileType) (m : ℕ) (d : ℕ × ℕ) (s : F.State)
      → P s
      → P (F.mknod h n t m d s).0
