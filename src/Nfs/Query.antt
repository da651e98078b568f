-- ===== src/Nfs/Query.antt =====
-- The procedures that ask for a file's attributes, its permissions, its link target, its contents or
-- the limits of the server: GETATTR, LOOKUP, ACCESS, READLINK, READ, FSSTAT, FSINFO and PATHCONF.
use Prim.Native.Nat.{bit_and, bit_or}
use arcticwolf.Base.{
  ℕ, ◌+◌, ◌*◌, ◌%◌, ◌^◌, Bool, true, false, Option, none, some, [], ◌∷◌, length, Result, ok, err,
  anyhow, bind, M, pure, lift, attempt, ◌>>=◌, ◌==◌, leb, if◌then◌else◌,
}
use arcticwolf.Base.Text.{Bytes, codes}
use arcticwolf.Fsal.Types.{
  FileType, FileAttributes, regular_file, directory, block_device, char_device, symbolic_link,
  socket, named_pipe,
}
use arcticwolf.Fsal.Filesystem.{Filesystem}
use arcticwolf.Protocol.Nfs.{Nfsstat3, status_code, nfs3_ok, nfs3err_io, nfs3err_stale, Fattr3}
use arcticwolf.Protocol.Xdr.{Xdr, pack_all}
use arcticwolf.Rpc.Message.{create_success_reply_with_data}
use arcticwolf.Nfs.Wire.{fsal_to_fattr3, pack_status, pack_post_op_attr, pack_opaque, reply_with}
use arcticwolf.Nfs.Codec.{
  deserialize_getattr3args, deserialize_lookup3args, deserialize_access3args,
  deserialize_readlink3args, deserialize_read3args, deserialize_fsstat3args,
  deserialize_fsinfo3args, create_getattr_error_response, create_lookup_error_response,
  create_read_error_response, create_fsstat_error_response, create_fsinfo_error_response,
  serialize_getattr_ok, create_fsinfo_ok,
}
use arcticwolf.Nfs.Status.{lookup_status, handle_status, read_status, readlink_status}

abbrev access3_read : ℕ
access3_read = 0x0001

abbrev access3_lookup : ℕ
access3_lookup = 0x0002

abbrev access3_modify : ℕ
access3_modify = 0x0004

abbrev access3_extend : ℕ
access3_extend = 0x0008

abbrev access3_delete : ℕ
access3_delete = 0x0010

abbrev access3_execute : ℕ
access3_execute = 0x0020

abbrev pub is_directory : FileType → Bool
is_directory directory = true
is_directory regular_file = false
is_directory block_device = false
is_directory char_device = false
is_directory symbolic_link = false
is_directory socket = false
is_directory named_pipe = false

-- `if access & flag != 0 { granted |= flag; }`
unfoldable pub grant : ℕ → ℕ → ℕ → ℕ
grant access flag granted = if bit_and access flag == 0 then granted else bit_or granted flag

-- The bits that ACCESS grants of those that were asked for.
unfoldable pub granted_access : ℕ → FileType → ℕ
unfolding grant
granted_access access ftype =
    let g1 = grant access access3_read 0 in
    let g2 = if is_directory ftype then grant access access3_lookup g1 else g1 in
    let g3 = grant access access3_modify g2 in
    let g4 = grant access access3_extend g3 in
    let g5 = grant access access3_delete g4 in grant access access3_execute g5

-- Whether READ says that the file ends after what was read.
unfoldable pub reaches_end : ℕ → ℕ → ℕ → Bool
reaches_end offset bytes_read size = leb size ((offset + bytes_read) % 2 ^ 64)

module _ (x : Xdr) (F : Filesystem) (xid : ℕ) where
  -- An error response in a successful RPC reply.
  abbrev pub answer : Result Bytes → M F.State Bytes
  answer res_data = lift (bind res_data (create_success_reply_with_data x xid))

  -- `getattr(..).ok().map(fsal_to_fattr3)`
  abbrev pub post_op_attr : Bytes → M F.State (Option Fattr3)
  post_op_attr object = do
    attrs ← attempt (F.getattr object)
    pure (elim attrs [ ok a ↦ some (fsal_to_fattr3 a) | err e ↦ none ])

  unfoldable pub handle_getattr : Bytes → M F.State Bytes
  handle_getattr args_data = do
    object ← lift (deserialize_getattr3args x args_data)
    attrs ← attempt (F.getattr object)
    elim attrs [
      | ok fsal_attrs ↦ answer (serialize_getattr_ok x (fsal_to_fattr3 fsal_attrs))
      | err e ↦ answer (create_getattr_error_response x nfs3err_stale)
    ]

  unfoldable pub handle_lookup : Bytes → M F.State Bytes
  handle_lookup args_data = do
    args ← lift (deserialize_lookup3args x args_data)
    found ← attempt (F.lookup args.what_dir args.name)
    elim found [
      | err e ↦ answer (create_lookup_error_response x (lookup_status e))
      | ok file_handle ↦ do
        obj ← attempt (F.getattr file_handle)
        elim obj [
          | err e ↦ answer (create_lookup_error_response x nfs3err_io)
          | ok obj_attrs ↦ do
            dir ← attempt (F.getattr args.what_dir)
            let dir_attrs : FileAttributes = elim dir [ ok a ↦ a | err e ↦ obj_attrs ]
            lift (
                reply_with x xid (
                  pack_status x nfs3_ok
                  ∷ x.pack_fhandle3 file_handle
                  ∷ x.pack_bool true
                  ∷ x.pack_fattr3 (fsal_to_fattr3 obj_attrs)
                  ∷ x.pack_bool true
                  ∷ x.pack_fattr3 (fsal_to_fattr3 dir_attrs)
                  ∷ []))
        ]
    ]

  unfoldable pub handle_access : Bytes → M F.State Bytes
  handle_access args_data = do
    args ← lift (deserialize_access3args x args_data)
    attrs ← attempt (F.getattr args.object)
    elim attrs [
      | err e ↦ lift (reply_with x xid (pack_status x (handle_status e) ∷ x.pack_bool false ∷ []))
      | ok file_attrs ↦ lift (
          reply_with x xid (
            pack_status x nfs3_ok
            ∷ x.pack_bool true
            ∷ x.pack_fattr3 (fsal_to_fattr3 file_attrs)
            ∷ x.pack_u32 (granted_access args.access file_attrs.ftype)
            ∷ []))
    ]

  -- The target goes with `NFS3_OK` alone.
  unfoldable pub create_readlink_response : Nfsstat3 → Option Fattr3 → Option Bytes → Result Bytes
  create_readlink_response status symlink_attr target = reply_with x xid (
      pack_status x status
      ∷ pack_post_op_attr x symlink_attr
      ∷ (if status_code status == 0
          then elim target [
            | some target_path ↦ pack_opaque x target_path
            | none ↦ err (anyhow (codes "Success status but no target provided"))
          ]
          else ok [])
      ∷ [])

  unfoldable pub handle_readlink : Bytes → M F.State Bytes
  handle_readlink args_data = do
    symlink ← lift (deserialize_readlink3args x args_data)
    attr_before ← post_op_attr symlink
    target ← attempt (F.readlink symlink)
    elim target [
      | ok path ↦ do
        attr_after ← post_op_attr symlink
        lift (create_readlink_response nfs3_ok attr_after (some path))
      | err e ↦ lift (create_readlink_response (readlink_status e) attr_before none)
    ]

  unfoldable pub handle_read : Bytes → M F.State Bytes
  handle_read args_data = do
    args ← lift (deserialize_read3args x args_data)
    result ← attempt (F.read args.file args.offset args.count)
    elim result [
      | err e ↦ answer (create_read_error_response x (read_status e))
      | ok contents ↦ do
        attrs ← attempt (F.getattr args.file)
        elim attrs [
          | err e ↦ answer (create_read_error_response x nfs3err_io)
          | ok file_attrs ↦ do
            let bytes_read = length contents % 2 ^ 32
            lift (
                reply_with x xid (
                  pack_status x nfs3_ok
                  ∷ x.pack_bool true
                  ∷ x.pack_fattr3 (fsal_to_fattr3 file_attrs)
                  ∷ x.pack_u32 bytes_read
                  ∷ x.pack_bool (reaches_end args.offset bytes_read file_attrs.size)
                  ∷ pack_opaque x contents
                  ∷ []))
        ]
    ]

  unfoldable pub handle_fsstat : Bytes → M F.State Bytes
  handle_fsstat args_data = do
    fsroot ← lift (deserialize_fsstat3args x args_data)
    attrs ← attempt (F.getattr fsroot)
    elim attrs [
      | err e ↦ answer (create_fsstat_error_response x (handle_status e))
      | ok obj_attrs ↦ lift (
          reply_with x xid (
            pack_status x nfs3_ok
            ∷ x.pack_bool true
            ∷ x.pack_fattr3 (fsal_to_fattr3 obj_attrs)
            ∷ x.pack_u64 (1024 * 1024 * 1024 * 100)
            ∷ x.pack_u64 (1024 * 1024 * 1024 * 50)
            ∷ x.pack_u64 (1024 * 1024 * 1024 * 50)
            ∷ x.pack_u64 1000000
            ∷ x.pack_u64 500000
            ∷ x.pack_u64 500000
            ∷ x.pack_u32 0
            ∷ []))
    ]

  -- `FSF3_LINK | FSF3_SYMLINK | FSF3_HOMOGENEOUS | FSF3_CANSETTIME` is the last number.
  unfoldable pub handle_fsinfo : Bytes → M F.State Bytes
  handle_fsinfo args_data = do
    fsroot ← lift (deserialize_fsinfo3args x args_data)
    attrs ← attempt (F.getattr fsroot)
    elim attrs [
      | err e ↦ answer (create_fsinfo_error_response x (handle_status e))
      | ok obj_attrs ↦ answer (
          create_fsinfo_ok x (fsal_to_fattr3 obj_attrs) (1024 * 1024) (64 * 1024) 4096 (1024 * 1024)
            (64 * 1024) 4096 8192 0xFFFFFFFFFFFFFFFF 0 1
            (bit_or (bit_or (bit_or 0x0001 0x0002) 0x0008) 0x0010))
    ]

  unfoldable pub create_pathconf_ok : Fattr3 → ℕ → ℕ → Bool → Bool → Bool → Bool → Result Bytes
  create_pathconf_ok obj_attributes linkmax name_max no_trunc chown_restricted case_insensitive
        case_preserving =
      pack_all (
        pack_status x nfs3_ok
        ∷ x.pack_bool true
        ∷ x.pack_fattr3 obj_attributes
        ∷ x.pack_u32 linkmax
        ∷ x.pack_u32 name_max
        ∷ x.pack_bool no_trunc
        ∷ x.pack_bool chown_restricted
        ∷ x.pack_bool case_insensitive
        ∷ x.pack_bool case_preserving
        ∷ [])

  unfoldable pub create_pathconf_error : Nfsstat3 → Result Bytes
  create_pathconf_error status = reply_with x xid (pack_status x status ∷ x.pack_bool false ∷ [])

  unfoldable pub handle_pathconf : Bytes → M F.State Bytes
  handle_pathconf args_data = do
    object ← lift (x.unpack_fhandle3 args_data)
    attrs ← attempt (F.getattr object)
    elim attrs [
      | err e ↦ lift (create_pathconf_error nfs3err_stale)
      | ok obj_attrs ↦
          answer (create_pathconf_ok (fsal_to_fattr3 obj_attrs) 255 255 true true false true)
    ]
