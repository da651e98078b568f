-- ===== src/Nfs/Dispatch.antt =====
-- src/nfs/dispatcher.rs and src/nfs/null.rs.
use arcticwolf.Base.{ℕ, not, [], ◌∷◌, Result, M, fail, lift, anyhow, ◌==◌, if◌then◌else◌}
use arcticwolf.Base.Text.{Bytes, codes}
use arcticwolf.Fsal.Filesystem.{Filesystem}
use arcticwolf.Protocol.Rpc.{RpcCallMsg}
use arcticwolf.Protocol.Nfs.{nfs3err_notsupp}
use arcticwolf.Protocol.Xdr.{Xdr}
use arcticwolf.Rpc.Message.{create_null_reply, serialize_reply}
use arcticwolf.Nfs.Wire.{pack_status, reply_with}
use arcticwolf.Nfs.Query.{
  handle_getattr, handle_lookup, handle_access, handle_readlink, handle_read, handle_fsstat,
  handle_fsinfo, handle_pathconf,
}
use arcticwolf.Nfs.Listing.{handle_readdir, handle_readdirplus}
use arcticwolf.Nfs.Change.{handle_setattr, handle_write, handle_create, handle_commit}
use arcticwolf.Nfs.Names.{
  handle_mkdir, handle_symlink, handle_mknod, handle_remove, handle_rmdir, handle_rename,
  handle_link,
}

unfoldable pub handle_null : Xdr → ℕ → Result Bytes
handle_null x xid = serialize_reply x (create_null_reply xid)

unfoldable pub create_notsupp_response : Xdr → ℕ → Result Bytes
create_notsupp_response x xid = reply_with x xid (pack_status x nfs3err_notsupp ∷ [])

module _ (x : Xdr) (F : Filesystem) where
  -- The `match` on the procedure number.
  unfoldable pub procedure : ℕ → ℕ → Bytes → M F.State Bytes
  procedure n xid args_data =
      if n == 0
      then lift (handle_null x xid)
      else if n == 1
      then handle_getattr x F xid args_data
      else if n == 2
      then handle_setattr x F xid args_data
      else if n == 3
      then handle_lookup x F xid args_data
      else if n == 4
      then handle_access x F xid args_data
      else if n == 5
      then handle_readlink x F xid args_data
      else if n == 6
      then handle_read x F xid args_data
      else if n == 16
      then handle_readdir x F xid args_data
      else if n == 18
      then handle_fsstat x F xid args_data
      else if n == 19
      then handle_fsinfo x F xid args_data
      else if n == 20
      then handle_pathconf x F xid args_data
      else if n == 17
      then handle_readdirplus x F xid args_data
      else if n == 7
      then handle_write x F xid args_data
      else if n == 8
      then handle_create x F xid args_data
      else if n == 9
      then handle_mkdir x F xid args_data
      else if n == 10
      then handle_symlink x F xid args_data
      else if n == 11
      then handle_mknod x F xid args_data
      else if n == 12
      then handle_remove x F xid args_data
      else if n == 13
      then handle_rmdir x F xid args_data
      else if n == 14
      then handle_rename x F xid args_data
      else if n == 15
      then handle_link x F xid args_data
      else if n == 21
      then handle_commit x F xid args_data
      else lift (create_notsupp_response x xid)

  unfoldable pub dispatch : RpcCallMsg → Bytes → M F.State Bytes
  unfolding procedure
  dispatch call args_data =
      if not (call.vers == 3)
      then fail (anyhow (codes "NFS version not supported"))
      else procedure call.proc call.xid args_data
