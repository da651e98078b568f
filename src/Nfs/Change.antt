-- ===== src/Nfs/Change.antt =====
-- The procedures that change a file or create one: SETATTR, WRITE, CREATE and COMMIT.
use arcticwolf.Base.{
  ℕ, Bool, true, false, not, ◌||◌, Option, none, some, [], ◌∷◌, replicate, Result, ok, err, anyhow,
  M, pure, lift, attempt, ◌>>=◌, ◌==◌, if◌then◌else◌, Error,
}
use arcticwolf.Base.Text.{Bytes, codes}
use arcticwolf.Fsal.Types.{FileAttributes}
use arcticwolf.Fsal.Filesystem.{Filesystem}
use arcticwolf.Protocol.Nfs.{
  Nfsstat3, status_code, Fattr3, nfs3_ok, nfs3err_io, nfs3err_not_sync, SetMode3, set_mode, SetUid3,
  set_uid, SetGid3, set_gid, SetSize3, set_size, Sattrguard3, check, Createhow3, exclusive,
}
use arcticwolf.Protocol.Xdr.{Xdr}
use arcticwolf.Nfs.Wire.{fsal_to_fattr3, pack_status, pack_post_op_attr, pack_opaque, reply_with}
use arcticwolf.Nfs.Codec.{
  deserialize_setattr3args, deserialize_write3args, deserialize_create3args,
  deserialize_commit3args, create_setattr_error_response, create_write_error_response,
  create_create_error_response,
}
use arcticwolf.Nfs.Query.{answer, post_op_attr}
use arcticwolf.Nfs.Status.{
  setattr_size_status, setattr_status, write_status, create_status, create_exclusive_status,
  commit_status,
}

-- The mode of a `sattr3`, or the procedure's own.
abbrev pub mode_or : ℕ → SetMode3 → ℕ
mode_or default (set_mode mode) = mode
mode_or default SetMode3.keep = default

abbrev pub uid_of : SetUid3 → Option ℕ
uid_of (set_uid u) = some u
uid_of SetUid3.keep = none

abbrev pub gid_of : SetGid3 → Option ℕ
gid_of (set_gid g) = some g
gid_of SetGid3.keep = none

-- The guard fails if it was asked for and the file's times are known and are others.
unfoldable pub guard_fails : Sattrguard3 → Result FileAttributes → Bool
guard_fails (check ctime) (ok before) =
    not (before.ctime.seconds == ctime.seconds) || not (before.ctime.nseconds == ctime.nseconds)
guard_fails _ _ = false

-- The three steps of SETATTR: each is skipped if the request does not set the attribute.
module _ (F : Filesystem) (object : Bytes) where
  unfoldable pub apply_size : SetSize3 → M F.State (Unit {0})
  apply_size (set_size size) = F.setattr_size object size
  apply_size SetSize3.keep = pure tt

  unfoldable pub apply_mode : SetMode3 → M F.State (Unit {0})
  apply_mode (set_mode mode) = F.setattr_mode object mode
  apply_mode SetMode3.keep = pure tt

  unfoldable pub apply_owner : Option ℕ → Option ℕ → M F.State (Unit {0})
  apply_owner none none = pure tt
  apply_owner uid gid = F.setattr_owner object uid gid

module _ (x : Xdr) (F : Filesystem) (xid : ℕ) where
  abbrev setattr_error : Nfsstat3 → M F.State Bytes
  setattr_error status = answer x F xid (create_setattr_error_response x status)

  abbrev write_error : Nfsstat3 → M F.State Bytes
  write_error status = answer x F xid (create_write_error_response x status)

  abbrev create_error : Nfsstat3 → M F.State Bytes
  create_error status = answer x F xid (create_create_error_response x status)

  unfoldable pub handle_setattr : Bytes → M F.State Bytes
  unfolding apply_size apply_mode apply_owner
  handle_setattr args_data = do
    args ← lift (deserialize_setattr3args x args_data)
    before ← attempt (F.getattr args.object)
    if guard_fails args.guard before then setattr_error nfs3err_not_sync else do
      sized ← attempt (apply_size F args.object args.new_attributes.size)
      elim sized [
        | err e ↦ setattr_error (setattr_size_status e)
        | ok _ ↦ do
          moded ← attempt (apply_mode F args.object args.new_attributes.mode)
          elim moded [
            | err e ↦ setattr_error (setattr_status e)
            | ok _ ↦ do
              owned ← attempt (
                  apply_owner F args.object (uid_of args.new_attributes.uid)
                    (gid_of args.new_attributes.gid))
              elim owned [
                | err e ↦ setattr_error (setattr_status e)
                | ok _ ↦ do
                  after ← attempt (F.getattr args.object)
                  elim after [
                    | err e ↦ setattr_error nfs3err_io
                    | ok after_attrs ↦ lift (
                        reply_with x xid (
                          pack_status x nfs3_ok
                          ∷ x.pack_bool false
                          ∷ x.pack_bool true
                          ∷ x.pack_fattr3 (fsal_to_fattr3 after_attrs)
                          ∷ []))
                  ]
              ]
          ]
      ]

  -- `committed` is 2, FILE_SYNC, and the verifier is fixed.
  unfoldable pub handle_write : Bytes → M F.State Bytes
  handle_write args_data = do
    args ← lift (deserialize_write3args x args_data)
    before ← attempt (F.getattr args.file)
    written ← attempt (F.write args.file args.offset args.contents)
    elim written [
      | err e ↦ write_error (write_status e)
      | ok bytes_written ↦ do
        after ← attempt (F.getattr args.file)
        elim after [
          | err e ↦ write_error nfs3err_io
          | ok after_attrs ↦ lift (
              reply_with x xid (
                pack_status x nfs3_ok
                ∷ x.pack_bool false
                ∷ x.pack_bool true
                ∷ x.pack_fattr3 (fsal_to_fattr3 after_attrs)
                ∷ x.pack_u32 bytes_written
                ∷ x.pack_i32 2
                ∷ ok (0 ∷ 1 ∷ 2 ∷ 3 ∷ 4 ∷ 5 ∷ 6 ∷ 7 ∷ [])
                ∷ []))
        ]
    ]

  -- The mode that CREATE passes on and the status of its failure, by the kind of creation.
  unfoldable pub create_mode : Createhow3 → ℕ
  create_mode (exclusive verf) = 0o644
  create_mode (Createhow3.unchecked attrs) = mode_or 0o644 attrs.mode
  create_mode (Createhow3.guarded attrs) = mode_or 0o644 attrs.mode

  unfoldable pub create_failure : Createhow3 → Error → Nfsstat3
  create_failure (exclusive verf) e = create_exclusive_status e
  create_failure (Createhow3.unchecked attrs) e = create_status e
  create_failure (Createhow3.guarded attrs) e = create_status e

  unfoldable pub handle_create : Bytes → M F.State Bytes
  unfolding create_mode create_failure
  handle_create args_data = do
    args ← lift (deserialize_create3args x args_data)
    before ← attempt (F.getattr args.where_dir)
    created ← attempt (F.create args.where_dir args.name (create_mode args.how))
    elim created [
      | err e ↦ create_error (create_failure args.how e)
      | ok file_handle ↦ do
        file ← attempt (F.getattr file_handle)
        elim file [
          | err e ↦ create_error nfs3err_io
          | ok file_attrs ↦ do
            dir ← attempt (F.getattr args.where_dir)
            elim dir [
              | err e ↦ create_error nfs3err_io
              | ok dir_attrs ↦ lift (
                  reply_with x xid (
                    pack_status x nfs3_ok
                    ∷ x.pack_bool true
                    ∷ pack_opaque x file_handle
                    ∷ x.pack_bool true
                    ∷ x.pack_fattr3 (fsal_to_fattr3 file_attrs)
                    ∷ x.pack_bool false
                    ∷ x.pack_bool true
                    ∷ x.pack_fattr3 (fsal_to_fattr3 dir_attrs)
                    ∷ []))
            ]
        ]
    ]

  -- The verifier goes with `NFS3_OK` alone.
  unfoldable pub create_commit_response : Nfsstat3 → Option Fattr3 → Option Bytes → Result Bytes
  create_commit_response status file_attr writeverf = reply_with x xid (
      pack_status x status
      ∷ x.pack_bool false
      ∷ pack_post_op_attr x file_attr
      ∷ (if status_code status == 0
          then elim writeverf [
            | some verf ↦ ok verf
            | none ↦ err (anyhow (codes "Success status but no write verifier provided"))
          ]
          else ok [])
      ∷ [])

  unfoldable pub handle_commit : Bytes → M F.State Bytes
  handle_commit args_data = do
    args ← lift (deserialize_commit3args x args_data)
    file_before ← post_op_attr x F xid args.file
    committed ← attempt (F.commit args.file args.offset args.count)
    elim committed [
      | ok _ ↦ do
        file_after ← post_op_attr x F xid args.file
        lift (create_commit_response nfs3_ok file_after (some (replicate 8 0)))
      | err e ↦ lift (create_commit_response (commit_status e) file_before none)
    ]
