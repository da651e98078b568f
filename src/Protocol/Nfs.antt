-- ===== src/Protocol/Nfs.antt =====
-- The types of xdr/v3/nfs.x that the handlers use. A file handle, a name and a verifier are their
-- bytes.
use arcticwolf.Base.{ℕ}
use arcticwolf.Base.Text.{Bytes, Text}

pub data Nfsstat3 : Type 0 where
  nfs3_ok nfs3err_perm nfs3err_noent nfs3err_io nfs3err_nxio : Nfsstat3
  nfs3err_acces nfs3err_exist nfs3err_xdev nfs3err_nodev nfs3err_notdir : Nfsstat3
  nfs3err_isdir nfs3err_inval nfs3err_fbig nfs3err_nospc nfs3err_rofs : Nfsstat3
  nfs3err_mlink nfs3err_nametoolong nfs3err_notempty nfs3err_dquot nfs3err_stale : Nfsstat3
  nfs3err_remote nfs3err_badhandle nfs3err_not_sync nfs3err_bad_cookie nfs3err_notsupp : Nfsstat3
  nfs3err_toosmall nfs3err_serverfault nfs3err_badtype nfs3err_jukebox : Nfsstat3

-- `status as i32`
abbrev pub status_code : Nfsstat3 → ℕ
status_code nfs3_ok = 0
status_code nfs3err_perm = 1
status_code nfs3err_noent = 2
status_code nfs3err_io = 5
status_code nfs3err_nxio = 6
status_code nfs3err_acces = 13
status_code nfs3err_exist = 17
status_code nfs3err_xdev = 18
status_code nfs3err_nodev = 19
status_code nfs3err_notdir = 20
status_code nfs3err_isdir = 21
status_code nfs3err_inval = 22
status_code nfs3err_fbig = 27
status_code nfs3err_nospc = 28
status_code nfs3err_rofs = 30
status_code nfs3err_mlink = 31
status_code nfs3err_nametoolong = 63
status_code nfs3err_notempty = 66
status_code nfs3err_dquot = 69
status_code nfs3err_stale = 70
status_code nfs3err_remote = 71
status_code nfs3err_badhandle = 10001
status_code nfs3err_not_sync = 10002
status_code nfs3err_bad_cookie = 10003
status_code nfs3err_notsupp = 10004
status_code nfs3err_toosmall = 10005
status_code nfs3err_serverfault = 10006
status_code nfs3err_badtype = 10007
status_code nfs3err_jukebox = 10008

pub data Ftype3 : Type 0 where
  nf3reg nf3dir nf3blk nf3chr nf3lnk nf3sock nf3fifo : Ftype3

pub record Nfstime3 : Type 0 where
  pub seconds : ℕ
  pub nseconds : ℕ

pub record Fattr3 : Type 0 where
  pub type : Ftype3
  pub mode : ℕ
  pub nlink : ℕ
  pub uid : ℕ
  pub gid : ℕ
  pub size : ℕ
  pub used : ℕ
  pub rdev : ℕ
  pub fsid : ℕ
  pub fileid : ℕ
  pub atime : Nfstime3
  pub mtime : Nfstime3
  pub ctime : Nfstime3

-- The unions of `sattr3`; `keep` is their `default` case.
pub data SetMode3 : Type 0 where
  set_mode : ℕ → SetMode3
  keep : SetMode3

pub data SetUid3 : Type 0 where
  set_uid : ℕ → SetUid3
  keep : SetUid3

pub data SetGid3 : Type 0 where
  set_gid : ℕ → SetGid3
  keep : SetGid3

pub data SetSize3 : Type 0 where
  set_size : ℕ → SetSize3
  keep : SetSize3

pub data SetTime : Type 0 where
  set_to_client_time : Nfstime3 → SetTime
  keep : SetTime

pub record Sattr3 : Type 0 where
  pub mode : SetMode3
  pub uid : SetUid3
  pub gid : SetGid3
  pub size : SetSize3
  pub atime : SetTime
  pub mtime : SetTime

pub data Sattrguard3 : Type 0 where
  check : Nfstime3 → Sattrguard3
  unchecked : Sattrguard3

pub data StableHow : Type 0 where
  unstable data_sync file_sync : StableHow

pub data Createhow3 : Type 0 where
  unchecked guarded : Sattr3 → Createhow3
  exclusive : Bytes → Createhow3

pub record Devicedata3 : Type 0 where
  pub dev_attributes : Sattr3
  pub major : ℕ
  pub minor : ℕ

pub data Mknoddata3 : Type 0 where
  nf3chr nf3blk : Devicedata3 → Mknoddata3
  nf3sock nf3fifo : Sattr3 → Mknoddata3

-- The arguments of the procedures with more than a file handle.
pub record Setattr3args : Type 0 where
  pub object : Bytes
  pub new_attributes : Sattr3
  pub guard : Sattrguard3

pub record Lookup3args : Type 0 where
  pub what_dir : Bytes
  pub name : Text

pub record Access3args : Type 0 where
  pub object : Bytes
  pub access : ℕ

pub record Read3args : Type 0 where
  pub file : Bytes
  pub offset : ℕ
  pub count : ℕ

pub record Write3args : Type 0 where
  pub file : Bytes
  pub offset : ℕ
  pub count : ℕ
  pub stable : StableHow
  pub contents : Bytes

pub record Create3args : Type 0 where
  pub where_dir : Bytes
  pub name : Text
  pub how : Createhow3

pub record Mkdir3args : Type 0 where
  pub where_dir : Bytes
  pub name : Text
  pub attributes : Sattr3

pub record Symlinkdata3 : Type 0 where
  pub symlink_attributes : Sattr3
  pub symlink_data : Text

pub record Symlink3args : Type 0 where
  pub where_dir : Bytes
  pub name : Text
  pub symlink : Symlinkdata3

pub record Mknod3args : Type 0 where
  pub where_dir : Bytes
  pub name : Text
  pub what : Mknoddata3

pub record Remove3args : Type 0 where
  pub dir : Bytes
  pub name : Text

pub record Rmdir3args : Type 0 where
  pub dir : Bytes
  pub name : Text

pub record Rename3args : Type 0 where
  pub from_dir : Bytes
  pub from_name : Text
  pub to_dir : Bytes
  pub to_name : Text

pub record Link3args : Type 0 where
  pub file : Bytes
  pub link_dir : Bytes
  pub name : Text

pub record Readdir3args : Type 0 where
  pub dir : Bytes
  pub cookie : ℕ
  pub cookieverf : Bytes
  pub count : ℕ

pub record Readdirplus3args : Type 0 where
  pub dir : Bytes
  pub cookie : ℕ
  pub cookieverf : Bytes
  pub dircount : ℕ
  pub maxcount : ℕ

pub record Commit3args : Type 0 where
  pub file : Bytes
  pub offset : ℕ
  pub count : ℕ
