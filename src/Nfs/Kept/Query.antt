-- ===== src/Nfs/Kept/Query.antt =====
-- What the procedures that only ask keep.
use arcticwolf.Base.{ℕ}
use arcticwolf.Base.Kept.{Kept, kept, Kept-then, Kept-result}
use arcticwolf.Base.Text.{Bytes}
use arcticwolf.Fsal.Filesystem.{Filesystem}
use arcticwolf.Protocol.Xdr.{Xdr}
use arcticwolf.Nfs.Query.{
  handle_getattr, handle_lookup, handle_access, handle_readlink, handle_read, handle_fsstat,
  handle_fsinfo, handle_pathconf,
}
use arcticwolf.Nfs.Kept.{IsKept}

module _ (x : Xdr) (F : Filesystem) {P : F.State → Type 0} (k : IsKept F P) (xid : ℕ) (args : Bytes)
    {s : F.State} (p : P s) where
  pub getattr-Kept : Kept P (handle_getattr x F xid args s)
  unfolding handle_getattr
  getattr-Kept =
      Kept-then (x.unpack_fhandle3 args) _ p λ a.
        let q = k.getattr a s p in Kept-result (F.getattr a s).1 _ _ (λ t. kept q) (λ e. kept q)

  pub access-Kept : Kept P (handle_access x F xid args s)
  unfolding handle_access
  access-Kept = Kept-then (x.unpack_access3args args) _ p λ a.
      let q = k.getattr a.object s p in
      Kept-result (F.getattr a.object s).1 _ _ (λ t. kept q) (λ e. kept q)

  pub fsstat-Kept : Kept P (handle_fsstat x F xid args s)
  unfolding handle_fsstat
  fsstat-Kept =
      Kept-then (x.unpack_fhandle3 args) _ p λ a.
        let q = k.getattr a s p in Kept-result (F.getattr a s).1 _ _ (λ t. kept q) (λ e. kept q)

  pub fsinfo-Kept : Kept P (handle_fsinfo x F xid args s)
  unfolding handle_fsinfo
  fsinfo-Kept =
      Kept-then (x.unpack_fhandle3 args) _ p λ a.
        let q = k.getattr a s p in Kept-result (F.getattr a s).1 _ _ (λ t. kept q) (λ e. kept q)

  pub pathconf-Kept : Kept P (handle_pathconf x F xid args s)
  unfolding handle_pathconf
  pathconf-Kept =
      Kept-then (x.unpack_fhandle3 args) _ p λ a.
        let q = k.getattr a s p in Kept-result (F.getattr a s).1 _ _ (λ t. kept q) (λ e. kept q)

  pub lookup-Kept : Kept P (handle_lookup x F xid args s)
  unfolding handle_lookup
  lookup-Kept = Kept-then (x.unpack_lookup3args args) _ p λ a.
      let q = k.lookup a.what_dir a.name s p in
      Kept-result (F.lookup a.what_dir a.name s).1 _ _
        (λ h.
          let r = k.getattr h _ q in
          Kept-result (F.getattr h _).1 _ _ (λ t. kept (k.getattr a.what_dir _ r)) (λ e. kept r))
        (λ e. kept q)

  pub readlink-Kept : Kept P (handle_readlink x F xid args s)
  unfolding handle_readlink
  readlink-Kept = Kept-then (x.unpack_fhandle3 args) _ p λ a.
      let q = k.readlink a _ (k.getattr a s p) in
      Kept-result (F.readlink a _).1 _ _ (λ t. kept (k.getattr a _ q)) (λ e. kept q)

  pub read-Kept : Kept P (handle_read x F xid args s)
  unfolding handle_read
  read-Kept = Kept-then (x.unpack_read3args args) _ p λ a.
      let q = k.read a.file a.offset a.count s p in
      Kept-result (F.read a.file a.offset a.count s).1 _ _
        (λ b.
          let r = k.getattr a.file _ q in
          Kept-result (F.getattr a.file _).1 _ _ (λ t. kept r) (λ e. kept r))
        (λ e. kept q)
