-- ===== src/Nfs/Rules.antt =====
-- Decisions of the NFS procedures: the guard of SETATTR, padding and device numbers.
use arcticwolf.Base.{
  ◌≢◌, ◌⊎◌, ℕ, ◌+◌, ◌-◌, ◌/◌, ◌%◌, ◌^◌, ◌<◌, ◌≡◌, refl, true, ◌++◌, append-nil, length,
  length-replicate, ok, bind, arith,
}
use arcticwolf.Base.Text.{Bytes}
use arcticwolf.Base.Words.{be32}
use arcticwolf.Fsal.Types.{FileAttributes}
use arcticwolf.Fsal.Filesystem.{Filesystem}
use arcticwolf.Protocol.Nfs.{Setattr3args, Nfstime3, check, nfs3err_not_sync}
use arcticwolf.Protocol.Xdr.{Xdr, IsXdr}
use arcticwolf.Rpc.Message.{create_success_reply_with_data}
use arcticwolf.Nfs.Wire.{fsal_to_fattr3, padding, pack_opaque, create_wcc_error_response}
use arcticwolf.Nfs.Change.{guard_fails, handle_setattr}

-- Where the codec follows its laws, an opaque shorter than 2 ^ 32 bytes that is packed by hand is
-- its length, its bytes and fewer than four more bytes, which bring it to a multiple of four.
pub length-pack_opaque :
    (x : Xdr) (bytes : Bytes)
    → IsXdr x
    → length bytes < 2 ^ 32
    → (packed : Bytes) × (pack_opaque x bytes ≡ ok (be32 (length bytes) ++ (bytes ++ packed)))
      × ((length bytes + length packed) % 4 ≡ 0)
      × (length packed < 4)
unfolding pack_opaque padding
length-pack_opaque x bytes lawful h =
    let n = length bytes % 2 ^ 32 in
    let whole : n ≡ length bytes = omega arith in
    let zeros = length-replicate {A = ℕ} ((4 - length bytes % 4) % 4) 0 in
    (
      padding (length bytes),
      rw (whole, lawful.pack_u32_lem (length bytes) h, append-nil (padding (length bytes))) refl,
      omega (arith, zeros),
      omega (arith, zeros),
    )

-- Where the minor device number and the seconds of the modification time are below 2 ^ 32, the
-- device numbers and the seconds can be read back from the attributes of the wire.
pub fsal_to_fattr3_lem :
    (attrs : FileAttributes)
    → attrs.rdev.1 < 2 ^ 32
    → attrs.mtime.seconds < 2 ^ 32
    → let fattr = fsal_to_fattr3 attrs in
      (fattr.rdev / 2 ^ 32 ≡ attrs.rdev.0)
      × (fattr.rdev % 2 ^ 32 ≡ attrs.rdev.1)
      × (fattr.mtime.seconds ≡ attrs.mtime.seconds)
unfolding fsal_to_fattr3
fsal_to_fattr3_lem attrs minor time = (omega arith, omega arith, omega arith)

guard_fails-differs :
    (time : Nfstime3) (attrs : FileAttributes)
    → (attrs.ctime.seconds ≢ time.seconds) ⊎ (attrs.ctime.nseconds ≢ time.nseconds)
    → guard_fails (check time) (ok attrs) ≡ true
unfolding guard_fails
guard_fails-differs time attrs differs = ground (arith, differs)

module _ (x : Xdr) (F : Filesystem) (xid : ℕ) where
  -- SETATTR whose arguments parse, and whose guard is a time that the file's change time, which
  -- is found, differs from in its seconds or its nanoseconds, asks for the attributes once and
  -- calls nothing else: the reply is the status NFS3ERR_NOT_SYNC.
  pub handle_setattr-guarded :
      (args_data : Bytes) (args : Setattr3args) (time : Nfstime3) (attrs : FileAttributes)
      → (s : F.State) → x.unpack_setattr3args args_data ≡ ok args
      → args.guard ≡ check time
      → (F.getattr args.object s).1 ≡ ok attrs
      → (attrs.ctime.seconds ≢ time.seconds) ⊎ (attrs.ctime.nseconds ≢ time.nseconds)
      → handle_setattr x F xid args_data s ≡ (
        (F.getattr args.object s).0,
        bind (create_wcc_error_response x nfs3err_not_sync) (create_success_reply_with_data x xid),
      )
  unfolding handle_setattr
  handle_setattr-guarded args_data args time attrs s parsed guard seen differs =
      rw parsed (rw guard (rw seen (rw (guard_fails-differs time attrs differs) refl)))
