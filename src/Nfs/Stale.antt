-- ===== src/Nfs/Stale.antt =====
-- What READ and WRITE answer on a handle that the local filesystem does not know.
use arcticwolf.Base.{ℕ, ◌≡◌, refl, none, ok, err, Error, bind, anyhow}
use arcticwolf.Base.Text.{Bytes, codes, is_prefix}
use arcticwolf.Fsal.Os.{Os}
use arcticwolf.Fsal.Handle.{FileHandle, lookup_path}
use arcticwolf.Fsal.Local.{Local, resolve_handle}
use arcticwolf.Fsal.Local.Operations.{read, write, getattr}
use arcticwolf.Fsal.Local.Backend.{local_filesystem}
use arcticwolf.Protocol.Nfs.{Read3args, Write3args, nfs3err_io}
use arcticwolf.Protocol.Xdr.{Xdr}
use arcticwolf.Rpc.Message.{create_success_reply_with_data}
use arcticwolf.Nfs.Wire.{create_attr_error_response, create_wcc_error_response}
use arcticwolf.Nfs.Status.{read_status, write_status}
use arcticwolf.Nfs.Query.{handle_read}
use arcticwolf.Nfs.Change.{handle_write}

abbrev unknown : Error
unknown = anyhow (codes "Invalid file handle")

read_status-unknown : read_status unknown ≡ nfs3err_io
unfolding read_status is_prefix
read_status-unknown = refl

write_status-unknown : write_status unknown ≡ nfs3err_io
unfolding write_status is_prefix
write_status-unknown = refl

module _ (x : Xdr) (O : Os) (xid : ℕ) where
  resolve_unknown :
      (h : FileHandle) (l : Local O)
      → lookup_path h l.handle_manager ≡ none
      → resolve_handle O h l ≡ err unknown
  unfolding resolve_handle
  resolve_unknown h l gone = rw (gone, resolve_handle) refl

  read_unknown :
      (h : FileHandle) (offset count : ℕ) (l : Local O)
      → lookup_path h l.handle_manager ≡ none
      → read O h offset count l ≡ (l, err unknown)
  unfolding read
  read_unknown h offset count l gone = rw (resolve_unknown h l gone) refl

  write_unknown :
      (h : FileHandle) (offset : ℕ) (contents : Bytes) (l : Local O)
      → lookup_path h l.handle_manager ≡ none
      → write O h offset contents l ≡ (l, err unknown)
  unfolding write
  write_unknown h offset contents l gone = rw (resolve_unknown h l gone) refl

  getattr_unknown :
      (h : FileHandle) (l : Local O)
      → lookup_path h l.handle_manager ≡ none
      → getattr O h l ≡ (l, err unknown)
  unfolding getattr
  getattr_unknown h l gone = rw (resolve_unknown h l gone) refl

  -- READ of the local filesystem with a handle that it does not know is answered with the status
  -- NFS3ERR_IO, and changes nothing, where the arguments parse.
  pub handle_read_stale :
      (args_data : Bytes) (args : Read3args) (l : Local O)
      → x.unpack_read3args args_data ≡ ok args
      → lookup_path args.file l.handle_manager ≡ none
      → handle_read x (local_filesystem O) xid args_data l
        ≡ (l, bind (create_attr_error_response x nfs3err_io) (create_success_reply_with_data x xid))
  unfolding handle_read
  handle_read_stale args_data args l parsed gone =
      rw parsed
        (rw (read_unknown args.file args.offset args.count l gone) (rw read_status-unknown refl))

  -- WRITE of the local filesystem with a handle that it does not know is answered with the status
  -- NFS3ERR_IO, and changes nothing, where the arguments parse.
  pub handle_write_stale :
      (args_data : Bytes) (args : Write3args) (l : Local O)
      → x.unpack_write3args args_data ≡ ok args
      → lookup_path args.file l.handle_manager ≡ none
      → handle_write x (local_filesystem O) xid args_data l
        ≡ (l, bind (create_wcc_error_response x nfs3err_io) (create_success_reply_with_data x xid))
  unfolding handle_write
  handle_write_stale args_data args l parsed gone = rw parsed (
      rw (getattr_unknown args.file l gone) (
        rw (write_unknown args.file args.offset args.contents l gone)
          (rw write_status-unknown refl)))
