-- ===== src/Mount.antt =====
-- The MOUNT protocol, program 100005 (src/mount and src/protocol/v3/mount.rs).
use arcticwolf.Base.{
  [], ◌∷◌, ◌++◌, Result, ok, err, M, pure, fail, lift, total, ◌>>=◌, anyhow, ◌==◌, not,
  if◌then◌else◌,
}
use arcticwolf.Base.Text.{Bytes, Text, codes}
use arcticwolf.Protocol.Rpc.{RpcCallMsg}
use arcticwolf.Protocol.Services.{Mountres3, mnt3_ok, default}
use arcticwolf.Protocol.Xdr.{Xdr}
use arcticwolf.Rpc.Message.{create_null_reply, serialize_reply}
use arcticwolf.Fsal.Filesystem.{Filesystem}

unfoldable pub create_mount_ok : Bytes → Mountres3
create_mount_ok fhandle_bytes = mnt3_ok (record { fhandle = fhandle_bytes; auth_flavors = 0 ∷ [] })

unfoldable pub create_mount_error : Mountres3
create_mount_error = default

module _ (x : Xdr) where
  unfoldable pub deserialize_dirpath : Bytes → Result Text
  deserialize_dirpath contents = x.unpack_dirpath contents

  unfoldable pub serialize_mountres3 : Mountres3 → Result Bytes
  serialize_mountres3 res = x.pack_mountres3 res

module _ (x : Xdr) (F : Filesystem) where
  unfoldable pub null_handle : RpcCallMsg → M F.State Bytes
  null_handle call = lift (serialize_reply x (create_null_reply call.xid))

  -- Any path gets the root handle.
  unfoldable pub mnt_handle : RpcCallMsg → Bytes → M F.State Bytes
  unfolding deserialize_dirpath serialize_mountres3 create_mount_ok
  mnt_handle call args = do
    dirpath ← lift (deserialize_dirpath x args)
    fhandle_bytes ← total (λ s. (s, F.root_handle s))
    rpc_header ← lift (serialize_reply x (create_null_reply call.xid))
    mount_data ← lift (serialize_mountres3 x (create_mount_ok fhandle_bytes))
    pure (rpc_header ++ mount_data)

  -- The same reply whether or not the path parses: the source's two branches.
  unfoldable pub umnt_handle : RpcCallMsg → Bytes → M F.State Bytes
  unfolding deserialize_dirpath
  umnt_handle call args s = elim (deserialize_dirpath x args) [
    | ok path ↦ lift (serialize_reply x (create_null_reply call.xid)) s
    | err e ↦ lift (serialize_reply x (create_null_reply call.xid)) s
  ]

  unfoldable pub handle_mount_call : RpcCallMsg → Bytes → M F.State Bytes
  handle_mount_call call args =
      if not (call.prog == 100005)
      then fail (anyhow (codes "Wrong program number"))
      else if not (call.vers == 3)
      then fail (anyhow (codes "Unsupported MOUNT version"))
      else if call.proc == 0
      then null_handle call
      else if call.proc == 1
      then mnt_handle call args
      else if call.proc == 3
      then umnt_handle call args
      else if call.proc == 2
      then fail (anyhow (codes "MOUNT DUMP procedure not implemented"))
      else if call.proc == 4
      then fail (anyhow (codes "MOUNT UMNTALL procedure not implemented"))
      else if call.proc == 5
      then fail (anyhow (codes "MOUNT EXPORT procedure not implemented"))
      else fail (anyhow (codes "Unknown MOUNT procedure"))
