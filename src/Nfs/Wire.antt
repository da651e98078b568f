-- ===== src/Nfs/Wire.antt =====
-- `NfsMessage` of src/protocol/v3/nfs.rs: the conversion of attributes and the parts that the
-- handlers put replies together from.
use arcticwolf.Base.{
  ℕ, ◌+◌, ◌-◌, ◌*◌, ◌%◌, ◌^◌, true, false, Option, none, some, List, [], ◌∷◌, length, replicate,
  ◌++◌, ◌==◌, if◌then◌else◌, Result, ok, bind,
}
use arcticwolf.Base.Text.{Bytes}
use arcticwolf.Fsal.Types.{
  FileType, FileTime, FileAttributes, regular_file, directory, block_device, char_device,
  symbolic_link, socket, named_pipe,
}
use arcticwolf.Protocol.Nfs.{
  Nfsstat3, status_code, Ftype3, nf3reg, nf3dir, nf3blk, nf3chr, nf3lnk, nf3sock, nf3fifo, Nfstime3,
  Fattr3,
}
use arcticwolf.Protocol.Xdr.{Xdr, pack_all}
use arcticwolf.Rpc.Message.{create_success_reply_with_data}

abbrev pub ftype3_of : FileType → Ftype3
ftype3_of regular_file = nf3reg
ftype3_of directory = nf3dir
ftype3_of block_device = nf3blk
ftype3_of char_device = nf3chr
ftype3_of symbolic_link = nf3lnk
ftype3_of socket = nf3sock
ftype3_of named_pipe = nf3fifo

-- `seconds as u32`
abbrev pub nfstime3_of : FileTime → Nfstime3
nfstime3_of t = record { seconds = t.seconds % 2 ^ 32; nseconds = t.nseconds }

-- The device numbers are `u32`, so `|` puts them side by side.
unfoldable pub fsal_to_fattr3 : FileAttributes → Fattr3
fsal_to_fattr3 attrs = record {
  type = ftype3_of attrs.ftype;
  mode = attrs.mode;
  nlink = attrs.nlink;
  uid = attrs.uid;
  gid = attrs.gid;
  size = attrs.size;
  used = attrs.used;
  rdev = attrs.rdev.0 * 2 ^ 32 + attrs.rdev.1;
  fsid = attrs.fsid;
  fileid = attrs.fileid;
  atime = nfstime3_of attrs.atime;
  mtime = nfstime3_of attrs.mtime;
  ctime = nfstime3_of attrs.ctime;
}

-- The zeros after an opaque of this length.
unfoldable pub padding : ℕ → Bytes
padding n = replicate ((4 - n % 4) % 4) 0

module _ (x : Xdr) where
  -- `(status as i32).pack`
  unfoldable pub pack_status : Nfsstat3 → Result Bytes
  pack_status status = x.pack_i32 (status_code status)

  -- An optional attribute, handle or the like: a Boolean, and the value if there is one.
  unfoldable pub pack_post_op_attr : Option Fattr3 → Result Bytes
  pack_post_op_attr none = x.pack_bool false
  pack_post_op_attr (some a) = pack_all (x.pack_bool true ∷ x.pack_fattr3 a ∷ [])

  -- A length, the bytes and their padding, as the handlers write them by hand.
  unfoldable pub pack_opaque : Bytes → Result Bytes
  unfolding padding
  pack_opaque bytes =
      pack_all (x.pack_u32 (length bytes % 2 ^ 32) ∷ ok bytes ∷ ok (padding (length bytes)) ∷ [])

  unfoldable pub pack_post_op_fh3 : Option Bytes → Result Bytes
  unfolding pack_opaque
  pack_post_op_fh3 none = x.pack_bool false
  pack_post_op_fh3 (some h) = pack_all (x.pack_bool true ∷ pack_opaque h ∷ [])

  -- What a procedure that makes an object sends: with `NFS3_OK` the object's handle and attributes,
  -- and the attributes of its directory in any case.
  unfoldable pub made_parts :
      Nfsstat3 → Option Bytes → Option Fattr3 → Option Fattr3 → List (Result Bytes)
  unfolding pack_status pack_post_op_fh3 pack_post_op_attr
  made_parts status handle attr dir_attr =
      pack_status status
      ∷ ((if status_code status == 0
            then pack_post_op_fh3 handle ∷ pack_post_op_attr attr ∷ []
            else [])
          ++ (x.pack_bool false ∷ pack_post_op_attr dir_attr ∷ []))

  -- The reply that carries the given parts.
  unfoldable pub reply_with : ℕ → List (Result Bytes) → Result Bytes
  reply_with xid parts = bind (pack_all parts) (create_success_reply_with_data x xid)

  -- `create_getattr_error_response`, and the same for READDIR and READDIRPLUS.
  unfoldable pub create_bare_error_response : Nfsstat3 → Result Bytes
  unfolding pack_status
  create_bare_error_response status = pack_all (pack_status status ∷ [])

  -- `create_lookup_error_response`, and the same for READ, FSSTAT and FSINFO.
  unfoldable pub create_attr_error_response : Nfsstat3 → Result Bytes
  unfolding pack_status
  create_attr_error_response status = pack_all (pack_status status ∷ x.pack_bool false ∷ [])

  -- `create_write_error_response`, and the same for SETATTR and CREATE.
  unfoldable pub create_wcc_error_response : Nfsstat3 → Result Bytes
  unfolding pack_status
  create_wcc_error_response status =
      pack_all (pack_status status ∷ x.pack_bool false ∷ x.pack_bool false ∷ [])
