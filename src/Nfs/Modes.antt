-- ===== src/Nfs/Modes.antt =====
-- The modes of CREATE (`createhow3`) in `handle_create` of src/nfs/create.rs.
use arcticwolf.Base.{ℕ, ◌≡◌, refl, ok}
use arcticwolf.Base.Text.{Bytes, Text}
use arcticwolf.Fsal.Filesystem.{Filesystem}
use arcticwolf.Fsal.Handle.{FileHandle}
use arcticwolf.Protocol.Nfs.{Createhow3}
use arcticwolf.Protocol.Xdr.{Xdr}
use arcticwolf.Nfs.Change.{handle_create, create_mode}

module _ (x : Xdr) (F : Filesystem) (xid : ℕ) where
  -- Two CREATE calls on one name, whose arguments parse, do and answer the same if the backend
  -- carries out the first, however their modes differ, UNCHECKED, GUARDED or EXCLUSIVE, as long
  -- as both ask for the same permissions.
  pub handle_create-how :
      (d d' : Bytes) (dir : FileHandle) (name : Text) (how how' : Createhow3) (h : FileHandle)
      → (s : F.State)
      → x.unpack_create3args d ≡ ok (record { where_dir = dir; name = name; how = how })
      → x.unpack_create3args d' ≡ ok (record { where_dir = dir; name = name; how = how' })
      → create_mode x F xid how ≡ create_mode x F xid how'
      → (F.create dir name (create_mode x F xid how) (F.getattr dir s).0).1 ≡ ok h
      → handle_create x F xid d s ≡ handle_create x F xid d' s
  unfolding handle_create
  handle_create-how d d' dir name how how' h s parsed parsed' same made =
      rw parsed (rw parsed' (rw (← same) (rw made refl)))
