-- ===== src/Nfs/Names.antt =====
-- The procedures that make and remove names: MKDIR, SYMLINK, MKNOD, REMOVE, RMDIR, RENAME, LINK.
use arcticwolf.Base.{
  ℕ, false, Option, none, some, [], ◌∷◌, Result, ok, err, M, pure, lift, attempt, ◌>>=◌,
  if◌then◌else◌,
}
use arcticwolf.Base.Text.{Bytes, bytes_eq}
use arcticwolf.Fsal.Types.{FileType, block_device, char_device, socket, named_pipe}
use arcticwolf.Fsal.Filesystem.{Filesystem}
use arcticwolf.Protocol.Nfs.{Nfsstat3, nfs3_ok, Fattr3, Mknoddata3, nf3chr, nf3blk}
use arcticwolf.Protocol.Xdr.{Xdr}
use arcticwolf.Nfs.Wire.{fsal_to_fattr3, pack_status, pack_post_op_attr, made_parts, reply_with}
use arcticwolf.Nfs.Codec.{
  deserialize_mkdir3args, deserialize_symlink3args, deserialize_mknod3args, deserialize_remove3args,
  deserialize_rmdir3args, deserialize_rename3args, deserialize_link3args,
}
use arcticwolf.Nfs.Query.{post_op_attr}
use arcticwolf.Nfs.Change.{mode_or}
use arcticwolf.Nfs.Status.{
  mkdir_status, symlink_status, mknod_status, remove_status, rmdir_status, rename_status,
  link_status,
}

-- What MKNOD asks of the backend.
unfoldable pub mknod_request : Mknoddata3 → FileType × ℕ × (ℕ × ℕ)
mknod_request (nf3chr dev) =
    (char_device, mode_or 0o666 dev.dev_attributes.mode, (dev.major, dev.minor))
mknod_request (nf3blk dev) =
    (block_device, mode_or 0o666 dev.dev_attributes.mode, (dev.major, dev.minor))
mknod_request (Mknoddata3.nf3sock attrs) = (socket, mode_or 0o666 attrs.mode, (0, 0))
mknod_request (Mknoddata3.nf3fifo attrs) = (named_pipe, mode_or 0o666 attrs.mode, (0, 0))

module _ (x : Xdr) (xid : ℕ) where
  unfoldable pub create_mkdir_response :
      Nfsstat3 → Option Bytes → Option Fattr3 → Option Fattr3 → Result Bytes
  create_mkdir_response status new_dir_handle new_dir_attr parent_dir_attr =
      reply_with x xid (made_parts x status new_dir_handle new_dir_attr parent_dir_attr)

  unfoldable pub create_symlink_response :
      Nfsstat3 → Option Bytes → Option Fattr3 → Option Fattr3 → Result Bytes
  create_symlink_response status symlink_handle symlink_attr dir_attr =
      reply_with x xid (made_parts x status symlink_handle symlink_attr dir_attr)

  unfoldable pub create_mknod_response :
      Nfsstat3 → Option Bytes → Option Fattr3 → Option Fattr3 → Result Bytes
  create_mknod_response status obj_handle obj_attr dir_attr =
      reply_with x xid (made_parts x status obj_handle obj_attr dir_attr)

  unfoldable pub create_remove_response : Nfsstat3 → Option Fattr3 → Result Bytes
  create_remove_response status dir_attr =
      reply_with x xid
        (pack_status x status ∷ x.pack_bool false ∷ pack_post_op_attr x dir_attr ∷ [])

  unfoldable pub create_rmdir_response : Nfsstat3 → Option Fattr3 → Result Bytes
  create_rmdir_response status dir_attr =
      reply_with x xid
        (pack_status x status ∷ x.pack_bool false ∷ pack_post_op_attr x dir_attr ∷ [])

  unfoldable pub create_rename_response : Nfsstat3 → Option Fattr3 → Option Fattr3 → Result Bytes
  create_rename_response status fromdir_attr todir_attr = reply_with x xid (
      pack_status x status
      ∷ x.pack_bool false
      ∷ pack_post_op_attr x fromdir_attr
      ∷ x.pack_bool false
      ∷ pack_post_op_attr x todir_attr
      ∷ [])

  unfoldable pub create_link_response : Nfsstat3 → Option Fattr3 → Option Fattr3 → Result Bytes
  create_link_response status file_attr dir_attr = reply_with x xid (
      pack_status x status
      ∷ pack_post_op_attr x file_attr
      ∷ x.pack_bool false
      ∷ pack_post_op_attr x dir_attr
      ∷ [])

module _ (x : Xdr) (F : Filesystem) (xid : ℕ) where
  unfoldable pub handle_mkdir : Bytes → M F.State Bytes
  handle_mkdir args_data = do
    args ← lift (deserialize_mkdir3args x args_data)
    dir_before ← attempt (F.getattr args.where_dir)
    made ← attempt (F.mkdir args.where_dir args.name (mode_or 0o755 args.attributes.mode))
    elim made [
      | ok new_dir_handle ↦ do
        attrs ← attempt (F.getattr new_dir_handle)
        elim attrs [
          | err e ↦ lift (create_mkdir_response x xid nfs3_ok none none none)
          | ok attr ↦ do
            dir_after ← post_op_attr x F xid args.where_dir
            lift (
                create_mkdir_response x xid nfs3_ok (some new_dir_handle)
                  (some (fsal_to_fattr3 attr)) dir_after)
        ]
      | err e ↦ do
        dir_after ← post_op_attr x F xid args.where_dir
        lift (create_mkdir_response x xid (mkdir_status e) none none dir_after)
    ]

  unfoldable pub handle_symlink : Bytes → M F.State Bytes
  handle_symlink args_data = do
    args ← lift (deserialize_symlink3args x args_data)
    dir_before ← post_op_attr x F xid args.where_dir
    made ← attempt (F.symlink args.where_dir args.name args.symlink.symlink_data)
    elim made [
      | ok new_symlink_handle ↦ do
        symlink_attr ← post_op_attr x F xid new_symlink_handle
        dir_after ← post_op_attr x F xid args.where_dir
        lift
            (create_symlink_response x xid nfs3_ok (some new_symlink_handle) symlink_attr dir_after)
      | err e ↦ lift (create_symlink_response x xid (symlink_status e) none none dir_before)
    ]

  unfoldable pub handle_mknod : Bytes → M F.State Bytes
  unfolding mknod_request
  handle_mknod args_data = do
    args ← lift (deserialize_mknod3args x args_data)
    dir_before ← post_op_attr x F xid args.where_dir
    let (file_type, mode, rdev) = mknod_request args.what
    made ← attempt (F.mknod args.where_dir args.name file_type mode rdev)
    elim made [
      | ok handle ↦ do
        obj_attr ← post_op_attr x F xid handle
        dir_after ← post_op_attr x F xid args.where_dir
        lift (create_mknod_response x xid nfs3_ok (some handle) obj_attr dir_after)
      | err e ↦ lift (create_mknod_response x xid (mknod_status e) none none dir_before)
    ]

  unfoldable pub handle_remove : Bytes → M F.State Bytes
  handle_remove args_data = do
    args ← lift (deserialize_remove3args x args_data)
    dir_before ← attempt (F.getattr args.dir)
    removed ← attempt (F.remove args.dir args.name)
    dir_after ← post_op_attr x F xid args.dir
    elim removed [
      | ok _ ↦ lift (create_remove_response x xid nfs3_ok dir_after)
      | err e ↦ lift (create_remove_response x xid (remove_status e) dir_after)
    ]

  unfoldable pub handle_rmdir : Bytes → M F.State Bytes
  handle_rmdir args_data = do
    args ← lift (deserialize_rmdir3args x args_data)
    dir_before ← attempt (F.getattr args.dir)
    removed ← attempt (F.rmdir args.dir args.name)
    dir_after ← post_op_attr x F xid args.dir
    elim removed [
      | ok _ ↦ lift (create_rmdir_response x xid nfs3_ok dir_after)
      | err e ↦ lift (create_rmdir_response x xid (rmdir_status e) dir_after)
    ]

  -- The attributes of the target directory, which are not asked for twice.
  unfoldable pub todir_attr : Bytes → Bytes → Option Fattr3 → M F.State (Option Fattr3)
  todir_attr from_dir to_dir fromdir_attr =
      if bytes_eq from_dir to_dir then pure fromdir_attr else post_op_attr x F xid to_dir

  unfoldable pub handle_rename : Bytes → M F.State Bytes
  unfolding todir_attr
  handle_rename args_data = do
    args ← lift (deserialize_rename3args x args_data)
    fromdir_before ← post_op_attr x F xid args.from_dir
    todir_before ← todir_attr args.from_dir args.to_dir none
    renamed ← attempt (F.rename args.from_dir args.from_name args.to_dir args.to_name)
    fromdir_after ← post_op_attr x F xid args.from_dir
    todir_after ← todir_attr args.from_dir args.to_dir fromdir_after
    elim renamed [
      | ok _ ↦ lift (create_rename_response x xid nfs3_ok fromdir_after todir_after)
      | err e ↦ lift (create_rename_response x xid (rename_status e) fromdir_after todir_after)
    ]

  unfoldable pub handle_link : Bytes → M F.State Bytes
  handle_link args_data = do
    args ← lift (deserialize_link3args x args_data)
    file_before ← post_op_attr x F xid args.file
    dir_before ← post_op_attr x F xid args.link_dir
    linked ← attempt (F.link args.file args.link_dir args.name)
    elim linked [
      | ok _ ↦ do
        file_after ← post_op_attr x F xid args.file
        dir_after ← post_op_attr x F xid args.link_dir
        lift (create_link_response x xid nfs3_ok file_after dir_after)
      | err e ↦ lift (create_link_response x xid (link_status e) file_before dir_before)
    ]
