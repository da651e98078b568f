-- ===== src/Tests/Samples.antt =====
-- A codec, a disk and a backend that the theorems are tried on. The codec reads what the tests send
-- and refuses the rest; the disk is the list of its paths.
use arcticwolf.Base.{
  arith, ◌≡◌, ℕ, suc, ◌+◌, ◌*◌, refl, Bool, true, false, List, [], ◌∷◌, length, drop, ◌++◌, Result,
  ok, err, fail, pure, anyhow, if◌then◌else◌, ltb, ◌||◌,
}
use arcticwolf.Base.Text.{Bytes, codes}
use arcticwolf.Base.Words.{be32, be64}
use arcticwolf.Fsal.FilePath.{FilePath, path_eq}
use arcticwolf.Fsal.Types.{FileAttributes, FileTime, regular_file}
use arcticwolf.Fsal.Os.{Os, OsFileType, Metadata}
use arcticwolf.Fsal.Filesystem.{Filesystem}
use arcticwolf.Protocol.Rpc.{RpcCallMsg, call, auth_none}
use arcticwolf.Protocol.Services.{Mapping, Mountres3, mnt3_ok}
use arcticwolf.Protocol.Nfs.{
  Read3args, Write3args, file_sync, Create3args, unchecked, Setattr3args, SetMode3, SetUid3,
  SetGid3, set_size, SetTime, check,
}
use arcticwolf.Protocol.Xdr.{Xdr, IsXdr, reply_header}
use arcticwolf.Rpc.Server.{word_of}
use arcticwolf.Main.{export_path}

abbrev pub refuse : {A : Type 0} → Bytes → Result A
refuse b = err (anyhow (codes "cannot unpack"))

abbrev pub word_at : ℕ → Bytes → ℕ
word_at n b = word_of (drop n b)

abbrev pub unpack_call : Bytes → Result RpcCallMsg
unpack_call b =
    if ltb (length b) 24
    then err (anyhow (codes "short call"))
    else ok (record {
      xid = word_at 0 b;
      mtype = call;
      rpcvers = word_at 8 b;
      prog = word_at 12 b;
      vers = word_at 16 b;
      proc = word_at 20 b;
      cred = record { flavor = auth_none; body = [] };
      verf = record { flavor = auth_none; body = [] };
    })

abbrev pub unpack_mapping : Bytes → Result Mapping
unpack_mapping b =
    if ltb (length b) 16
    then err (anyhow (codes "short mapping"))
    else ok
        (record { prog = word_at 0 b; vers = word_at 4 b; prot = word_at 8 b; port = word_at 12 b })

-- A request that truncates the object under a guard on its time.
abbrev pub guarded_truncation : Setattr3args
guarded_truncation = record {
  object = 1 ∷ [];
  new_attributes = record {
    mode = SetMode3.keep;
    uid = SetUid3.keep;
    gid = SetGid3.keep;
    size = set_size 0;
    atime = SetTime.keep;
    mtime = SetTime.keep;
  };
  guard = check (record { seconds = 5; nseconds = 0 });
}

-- A READ and a WRITE of the handle that the bytes are.
abbrev pub read_of : Bytes → Read3args
read_of b = record { file = b; offset = 0; count = 4 }

abbrev pub write_of : Bytes → Write3args
write_of b = record { file = b; offset = 0; count = 1; stable = file_sync; contents = 1 ∷ [] }

-- An UNCHECKED CREATE of "b" in the directory whose handle the bytes are.
abbrev pub create_of : Bytes → Create3args
create_of b = record {
  where_dir = b;
  name = codes "b";
  how = unchecked guarded_truncation.new_attributes;
}

abbrev pack_mountres3 : Mountres3 → Result Bytes
pack_mountres3 (mnt3_ok info) = ok (be32 0 ++ (be32 (length info.fhandle) ++ info.fhandle))
pack_mountres3 _ = err (anyhow (codes "cannot pack"))

abbrev pub sample_xdr : Xdr
sample_xdr = record {
  pack_u32 = λ n. ok (be32 n);
  pack_u64 = λ n. ok (be64 n);
  pack_i32 = λ n. ok (be32 n);
  pack_bool = λ b. ok (be32 (if b then 1 else 0));
  unpack_rpc_call_msg = unpack_call;
  pack_rpc_reply_msg = λ r. ok (reply_header r);
  unpack_mapping = unpack_mapping;
  unpack_dirpath = λ b. ok b;
  pack_mountres3 = pack_mountres3;
  pack_fattr3 = λ a. ok (be32 a.mode);
  pack_getattr3res = λ a. ok (be32 a.mode);
  pack_fhandle3 = λ h. ok h;
  pack_filename3 = λ t. ok t;
  pack_cookieverf3 = λ v. ok v;
  pack_nfstime3 = λ t. ok (be32 t.seconds);
  unpack_fhandle3 = refuse;
  unpack_setattr3args = λ b. ok guarded_truncation;
  unpack_lookup3args = refuse;
  unpack_access3args = refuse;
  unpack_read3args = λ b. ok (read_of b);
  unpack_write3args = λ b. ok (write_of b);
  unpack_create3args = λ b. ok (create_of b);
  unpack_mkdir3args = refuse;
  unpack_symlink3args = refuse;
  unpack_mknod3args = refuse;
  unpack_remove3args = refuse;
  unpack_rmdir3args = refuse;
  unpack_rename3args = refuse;
  unpack_link3args = refuse;
  unpack_readdir3args = refuse;
  unpack_readdirplus3args = refuse;
  unpack_commit3args = refuse;
}

pub sample_xdr-IsXdr : IsXdr sample_xdr
sample_xdr-IsXdr = record {
  pack_u32_lem = λ n h. refl;
  pack_i32_lem = λ n h. refl;
  pack_bool_lem = λ b. refl;
  pack_rpc_reply_msg_lem = λ r h e. refl;
}

-- The transaction id is the first word of a call.
pub unpack_call_xid : (b : Bytes) (c : RpcCallMsg) → unpack_call b ≡ ok c → c.xid ≡ word_of b
unpack_call_xid b c e = ground (arith, e)

abbrev pub some_time : FileTime
some_time = record { seconds = 9; nseconds = 1 }

abbrev pub some_attributes : FileAttributes
some_attributes = record {
  ftype = regular_file;
  mode = 420;
  nlink = 1;
  uid = 0;
  gid = 0;
  size = 12;
  used = 512;
  rdev = (8, 3);
  fsid = 1;
  fileid = 2;
  atime = some_time;
  mtime = some_time;
  ctime = some_time;
}

abbrev pub no_method : {A : Type 0} → ℕ → ℕ × Result A
no_method = fail (anyhow (codes "read-only"))

-- A backend of one file that counts the calls of `getattr`.
abbrev pub one_file : Filesystem
one_file = record {
  State = ℕ;
  root_handle = λ s. 1 ∷ [];
  lookup = λ h n. no_method;
  getattr = λ h s. (suc s, ok some_attributes);
  read = λ h o c. no_method;
  readdir = λ h c n. no_method;
  write = λ h o b. no_method;
  setattr_size = λ h n. no_method;
  setattr_mode = λ h n. no_method;
  setattr_owner = λ h u g. no_method;
  create = λ h n m. no_method;
  remove = λ h n. no_method;
  mkdir = λ h n m. no_method;
  rmdir = λ h n. no_method;
  rename = λ h n k m. no_method;
  symlink = λ h n t. no_method;
  readlink = λ h. no_method;
  link = λ h k n. no_method;
  commit = λ h o c. no_method;
  mknod = λ h n t m r. no_method;
}

abbrev pub plain_file : OsFileType
plain_file = record {
  is_dir = false;
  is_file = true;
  is_symlink = false;
  is_fifo = false;
  is_char_device = false;
  is_block_device = false;
  is_socket = false;
}

abbrev pub metadata_of : ℕ → Metadata
metadata_of ino = record {
  file_type = plain_file;
  mode = 420;
  nlink = 1;
  uid = 0;
  gid = 0;
  len = 12;
  blocks = 1;
  rdev = 0;
  dev = 1;
  ino = ino;
  atime = 9;
  atime_nsec = 1;
  mtime = 9;
  mtime_nsec = 1;
  ctime = 9;
  ctime_nsec = 1;
}

-- The directory that the tests export.
abbrev pub export : FilePath
export = record { os_str = codes "/export" }

abbrev metadata_at : FilePath → Metadata
metadata_at path =
    if path_eq path export || path_eq path export_path
    then record (metadata_of 1) { file_type = record plain_file { is_dir = true; is_file = false } }
    else metadata_of 1

abbrev pub holds : List FilePath → FilePath → Bool
holds [] p = false
holds (q ∷ qs) p = path_eq q p || holds qs p

abbrev pub os_fail : {A : Type 0} → List FilePath → List FilePath × Result A
os_fail = fail (anyhow (codes "not supported"))

-- A disk without links: a path that it holds is its own canonical form.
abbrev pub sample_os : Os
sample_os = record {
  State = List FilePath;
  File = Unit;
  exists = holds;
  canonicalize = λ s p. if holds s p then ok p else err (anyhow (codes "No such file"));
  metadata = λ s p. ok (metadata_at p);
  symlink_metadata = λ s p. ok (metadata_of 1);
  read_link = λ s p. err (anyhow (codes "not a link"));
  read_dir = λ s p. ok [];
  open_file = λ o p s. (p ∷ s, ok tt);
  seek = λ f n. pure tt;
  read = λ f n. pure [];
  write = λ f b. pure (length b);
  sync_all = λ f. pure tt;
  set_len = λ f n. pure tt;
  file_set_permissions = λ f m. pure tt;
  set_permissions = λ p m. pure tt;
  remove_file = λ p. os_fail;
  create_dir = λ p s. (p ∷ s, ok tt);
  remove_dir = λ p. os_fail;
  rename = λ p q. os_fail;
  symlink = λ t p. os_fail;
  hard_link = λ p q. os_fail;
  mkfifo = λ p m s. (p ∷ s, ok tt);
  mknod = λ p m d. os_fail;
  debug_path = λ p. p.os_str;
  path_hash = λ p. length p.os_str;
  makedev = λ a b. a * 256 + b;
}
