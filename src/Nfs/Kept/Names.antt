-- ===== src/Nfs/Kept/Names.antt =====
-- What the procedures on names keep.
use arcticwolf.Base.{ℕ, none, Option, inl, inr, Bool-cases}
use arcticwolf.Base.Kept.{Kept, kept, Kept-then, Kept-result}
use arcticwolf.Base.Text.{Bytes, bytes_eq}
use arcticwolf.Fsal.Filesystem.{Filesystem}
use arcticwolf.Protocol.Nfs.{Fattr3}
use arcticwolf.Protocol.Xdr.{Xdr}
use arcticwolf.Nfs.Change.{mode_or}
use arcticwolf.Nfs.Names.{
  mknod_request, todir_attr, handle_mkdir, handle_symlink, handle_mknod, handle_remove,
  handle_rmdir, handle_rename, handle_link,
}
use arcticwolf.Nfs.Kept.{IsKept}

module _ (x : Xdr) (F : Filesystem) {P : F.State → Type 0} (k : IsKept F P) (xid : ℕ) where
  todir-Kept :
      (from_dir to_dir : Bytes) (o : Option Fattr3) (s : F.State)
      → P s
      → P (todir_attr x F xid from_dir to_dir o s).0
  unfolding todir_attr
  todir-Kept from_dir to_dir o s p = elim (Bool-cases (bytes_eq from_dir to_dir)) [
    | inl h ↦ rw h p
    | inr h ↦ rw h (k.getattr to_dir s p)
  ]

  module _ (args : Bytes) {s : F.State} (p : P s) where
    pub mkdir-Kept : Kept P (handle_mkdir x F xid args s)
    unfolding handle_mkdir
    mkdir-Kept = Kept-then (x.unpack_mkdir3args args) _ p λ a.
        let mode = mode_or 0o755 a.attributes.mode in
        let q = k.mkdir a.where_dir a.name mode _ (k.getattr a.where_dir s p) in
        Kept-result (F.mkdir a.where_dir a.name mode _).1 _ _
          (λ h.
            let r = k.getattr h _ q in
            Kept-result (F.getattr h _).1 _ _ (λ t. kept (k.getattr a.where_dir _ r)) (λ e. kept r))
          (λ e. kept (k.getattr a.where_dir _ q))

    pub symlink-Kept : Kept P (handle_symlink x F xid args s)
    unfolding handle_symlink
    symlink-Kept = Kept-then (x.unpack_symlink3args args) _ p λ a.
        let target = a.symlink.symlink_data in
        let q = k.symlink a.where_dir a.name target _ (k.getattr a.where_dir s p) in
        Kept-result (F.symlink a.where_dir a.name target _).1 _ _
          (λ h. kept (k.getattr a.where_dir _ (k.getattr h _ q))) (λ e. kept q)

    pub mknod-Kept : Kept P (handle_mknod x F xid args s)
    unfolding handle_mknod
    mknod-Kept = Kept-then (x.unpack_mknod3args args) _ p λ a.
        let (file_type, mode, rdev) = mknod_request a.what in
        let q = k.mknod a.where_dir a.name file_type mode rdev _ (k.getattr a.where_dir s p) in
        Kept-result (F.mknod a.where_dir a.name file_type mode rdev _).1 _ _
          (λ h. kept (k.getattr a.where_dir _ (k.getattr h _ q))) (λ e. kept q)

    pub remove-Kept : Kept P (handle_remove x F xid args s)
    unfolding handle_remove
    remove-Kept = Kept-then (x.unpack_remove3args args) _ p λ a.
        let q = k.remove a.dir a.name _ (k.getattr a.dir s p) in
        let r = k.getattr a.dir _ q in
        Kept-result (F.remove a.dir a.name _).1 _ _ (λ u. kept r) (λ e. kept r)

    pub rmdir-Kept : Kept P (handle_rmdir x F xid args s)
    unfolding handle_rmdir
    rmdir-Kept = Kept-then (x.unpack_rmdir3args args) _ p λ a.
        let q = k.rmdir a.dir a.name _ (k.getattr a.dir s p) in
        let r = k.getattr a.dir _ q in
        Kept-result (F.rmdir a.dir a.name _).1 _ _ (λ u. kept r) (λ e. kept r)

    pub link-Kept : Kept P (handle_link x F xid args s)
    unfolding handle_link
    link-Kept = Kept-then (x.unpack_link3args args) _ p λ a.
        let q = k.getattr a.link_dir _ (k.getattr a.file s p) in
        let r = k.link a.file a.link_dir a.name _ q in
        Kept-result (F.link a.file a.link_dir a.name _).1 _ _
          (λ u. kept (k.getattr a.link_dir _ (k.getattr a.file _ r))) (λ e. kept r)

    pub rename-Kept : Kept P (handle_rename x F xid args s)
    unfolding handle_rename
    rename-Kept = Kept-then (x.unpack_rename3args args) _ p λ a.
        let q = todir-Kept a.from_dir a.to_dir none _ (k.getattr a.from_dir s p) in
        Kept-then (todir_attr x F xid a.from_dir a.to_dir none _).1 _ q λ before.
          let r = k.rename a.from_dir a.from_name a.to_dir a.to_name _ q in
          let u = k.getattr a.from_dir _ r in
          let v = todir-Kept a.from_dir a.to_dir _ _ u in
          Kept-then (todir_attr x F xid a.from_dir a.to_dir _ _).1 _ v λ after.
            Kept-result (F.rename a.from_dir a.from_name a.to_dir a.to_name _).1 _ _ (λ w. kept v)
              (λ e. kept v)
