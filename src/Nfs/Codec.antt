-- ===== src/Nfs/Codec.antt =====
-- `NfsMessage` of src/protocol/v3/nfs.rs: the arguments of each procedure, read from the front of
-- the data behind the call's header, and the responses that it writes for the handlers.
use arcticwolf.Base.{ℕ, true, [], ◌∷◌, Result}
use arcticwolf.Base.Text.{Bytes}
use arcticwolf.Protocol.Nfs.{
  Nfsstat3, nfs3_ok, Fattr3, Lookup3args, Read3args, Write3args, Setattr3args, Create3args,
  Access3args, Readdir3args, Readdirplus3args, Remove3args, Mkdir3args, Rmdir3args, Rename3args,
  Symlink3args, Link3args, Commit3args, Mknod3args,
}
use arcticwolf.Protocol.Xdr.{Xdr, pack_all}
use arcticwolf.Nfs.Wire.{
  pack_status, create_bare_error_response, create_attr_error_response, create_wcc_error_response,
}

module _ (x : Xdr) where
  abbrev pub deserialize_getattr3args : Bytes → Result Bytes
  deserialize_getattr3args contents = x.unpack_fhandle3 contents

  abbrev pub deserialize_lookup3args : Bytes → Result Lookup3args
  deserialize_lookup3args contents = x.unpack_lookup3args contents

  abbrev pub deserialize_read3args : Bytes → Result Read3args
  deserialize_read3args contents = x.unpack_read3args contents

  abbrev pub deserialize_write3args : Bytes → Result Write3args
  deserialize_write3args contents = x.unpack_write3args contents

  abbrev pub deserialize_setattr3args : Bytes → Result Setattr3args
  deserialize_setattr3args contents = x.unpack_setattr3args contents

  abbrev pub deserialize_create3args : Bytes → Result Create3args
  deserialize_create3args contents = x.unpack_create3args contents

  abbrev pub deserialize_access3args : Bytes → Result Access3args
  deserialize_access3args contents = x.unpack_access3args contents

  abbrev pub deserialize_fsstat3args : Bytes → Result Bytes
  deserialize_fsstat3args contents = x.unpack_fhandle3 contents

  abbrev pub deserialize_fsinfo3args : Bytes → Result Bytes
  deserialize_fsinfo3args contents = x.unpack_fhandle3 contents

  abbrev pub deserialize_readdir3args : Bytes → Result Readdir3args
  deserialize_readdir3args contents = x.unpack_readdir3args contents

  abbrev pub deserialize_readdirplus3args : Bytes → Result Readdirplus3args
  deserialize_readdirplus3args contents = x.unpack_readdirplus3args contents

  abbrev pub deserialize_remove3args : Bytes → Result Remove3args
  deserialize_remove3args contents = x.unpack_remove3args contents

  abbrev pub deserialize_mkdir3args : Bytes → Result Mkdir3args
  deserialize_mkdir3args contents = x.unpack_mkdir3args contents

  abbrev pub deserialize_rmdir3args : Bytes → Result Rmdir3args
  deserialize_rmdir3args contents = x.unpack_rmdir3args contents

  abbrev pub deserialize_rename3args : Bytes → Result Rename3args
  deserialize_rename3args contents = x.unpack_rename3args contents

  abbrev pub deserialize_readlink3args : Bytes → Result Bytes
  deserialize_readlink3args contents = x.unpack_fhandle3 contents

  abbrev pub deserialize_symlink3args : Bytes → Result Symlink3args
  deserialize_symlink3args contents = x.unpack_symlink3args contents

  abbrev pub deserialize_link3args : Bytes → Result Link3args
  deserialize_link3args contents = x.unpack_link3args contents

  abbrev pub deserialize_commit3args : Bytes → Result Commit3args
  deserialize_commit3args contents = x.unpack_commit3args contents

  abbrev pub deserialize_mknod3args : Bytes → Result Mknod3args
  deserialize_mknod3args contents = x.unpack_mknod3args contents

  abbrev pub create_getattr_error_response : Nfsstat3 → Result Bytes
  create_getattr_error_response status = create_bare_error_response x status

  abbrev pub create_readdir_error_response : Nfsstat3 → Result Bytes
  create_readdir_error_response status = create_bare_error_response x status

  abbrev pub create_readdirplus_error_response : Nfsstat3 → Result Bytes
  create_readdirplus_error_response status = create_bare_error_response x status

  abbrev pub create_lookup_error_response : Nfsstat3 → Result Bytes
  create_lookup_error_response status = create_attr_error_response x status

  abbrev pub create_read_error_response : Nfsstat3 → Result Bytes
  create_read_error_response status = create_attr_error_response x status

  abbrev pub create_fsstat_error_response : Nfsstat3 → Result Bytes
  create_fsstat_error_response status = create_attr_error_response x status

  abbrev pub create_fsinfo_error_response : Nfsstat3 → Result Bytes
  create_fsinfo_error_response status = create_attr_error_response x status

  abbrev pub create_write_error_response : Nfsstat3 → Result Bytes
  create_write_error_response status = create_wcc_error_response x status

  abbrev pub create_setattr_error_response : Nfsstat3 → Result Bytes
  create_setattr_error_response status = create_wcc_error_response x status

  abbrev pub create_create_error_response : Nfsstat3 → Result Bytes
  create_create_error_response status = create_wcc_error_response x status

  -- `serialize_getattr3res(&create_getattr_ok(attrs))`
  abbrev pub serialize_getattr_ok : Fattr3 → Result Bytes
  serialize_getattr_ok attrs = x.pack_getattr3res attrs

  abbrev pub create_fsinfo_ok :
      (obj_attributes : Fattr3)
      → (rtmax rtpref rtmult wtmax wtpref wtmult dtpref maxfilesize : ℕ)
      → (time_delta_seconds time_delta_nseconds properties : ℕ) → Result Bytes
  create_fsinfo_ok obj_attributes rtmax rtpref rtmult wtmax wtpref wtmult dtpref maxfilesize
        time_delta_seconds time_delta_nseconds properties =
      pack_all (
        pack_status x nfs3_ok
        ∷ x.pack_bool true
        ∷ x.pack_fattr3 obj_attributes
        ∷ x.pack_u32 rtmax
        ∷ x.pack_u32 rtpref
        ∷ x.pack_u32 rtmult
        ∷ x.pack_u32 wtmax
        ∷ x.pack_u32 wtpref
        ∷ x.pack_u32 wtmult
        ∷ x.pack_u32 dtpref
        ∷ x.pack_u64 maxfilesize
        ∷ x.pack_nfstime3 (record { seconds = time_delta_seconds; nseconds = time_delta_nseconds })
        ∷ x.pack_u32 properties
        ∷ [])
