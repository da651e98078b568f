-- ===== src/Nfs/Kept/Change.antt =====
-- What SETATTR, WRITE, CREATE and COMMIT keep.
use arcticwolf.Base.{ℕ, Option, none, some}
use arcticwolf.Base.Kept.{Kept, kept, Kept-if, Kept-then, Kept-result}
use arcticwolf.Base.Text.{Bytes}
use arcticwolf.Fsal.Filesystem.{Filesystem}
use arcticwolf.Protocol.Nfs.{SetMode3, set_mode, SetSize3, set_size}
use arcticwolf.Protocol.Xdr.{Xdr}
use arcticwolf.Nfs.Change.{
  uid_of, gid_of, guard_fails, apply_size, apply_mode, apply_owner, create_mode, handle_setattr,
  handle_write, handle_create, handle_commit,
}
use arcticwolf.Nfs.Kept.{IsKept}

module _ (x : Xdr) (F : Filesystem) {P : F.State → Type 0} (k : IsKept F P) where
  apply_size-Kept : (h : Bytes) (v : SetSize3) (s : F.State) → P s → P (apply_size F h v s).0
  unfolding apply_size
  apply_size-Kept h (set_size n) s p = k.setattr_size h n s p
  apply_size-Kept h SetSize3.keep s p = p

  apply_mode-Kept : (h : Bytes) (v : SetMode3) (s : F.State) → P s → P (apply_mode F h v s).0
  unfolding apply_mode
  apply_mode-Kept h (set_mode n) s p = k.setattr_mode h n s p
  apply_mode-Kept h SetMode3.keep s p = p

  apply_owner-Kept : (h : Bytes) (u g : Option ℕ) (s : F.State) → P s → P (apply_owner F h u g s).0
  unfolding apply_owner
  apply_owner-Kept h none none s p = p
  apply_owner-Kept h none (some g) s p = k.setattr_owner h none (some g) s p
  apply_owner-Kept h (some u) none s p = k.setattr_owner h (some u) none s p
  apply_owner-Kept h (some u) (some g) s p = k.setattr_owner h (some u) (some g) s p

  module _ (xid : ℕ) (args : Bytes) {s : F.State} (p : P s) where
    pub setattr-Kept : Kept P (handle_setattr x F xid args s)
    unfolding handle_setattr
    setattr-Kept = Kept-then (x.unpack_setattr3args args) _ p λ a.
        let u = uid_of a.new_attributes.uid in
        let g = gid_of a.new_attributes.gid in
        let q = k.getattr a.object s p in
        let r1 = apply_size-Kept a.object a.new_attributes.size _ q in
        let r2 = apply_mode-Kept a.object a.new_attributes.mode _ r1 in
        let r3 = apply_owner-Kept a.object u g _ r2 in
        let r4 = k.getattr a.object _ r3 in
        Kept-if (guard_fails a.guard (F.getattr a.object s).1) _ _ (kept q) (
          Kept-result (apply_size F a.object a.new_attributes.size _).1 _ _
            (λ _.
              Kept-result (apply_mode F a.object a.new_attributes.mode _).1 _ _
                (λ _.
                  Kept-result (apply_owner F a.object u g _).1 _ _
                    (λ _. Kept-result (F.getattr a.object _).1 _ _ (λ t. kept r4) (λ e. kept r4))
                    (λ e. kept r3))
                (λ e. kept r2))
            (λ e. kept r1))

    pub write-Kept : Kept P (handle_write x F xid args s)
    unfolding handle_write
    write-Kept = Kept-then (x.unpack_write3args args) _ p λ a.
        let q = k.write a.file a.offset a.contents _ (k.getattr a.file s p) in
        let r = k.getattr a.file _ q in
        Kept-result (F.write a.file a.offset a.contents _).1 _ _
          (λ n. Kept-result (F.getattr a.file _).1 _ _ (λ t. kept r) (λ e. kept r)) (λ e. kept q)

    pub create-Kept : Kept P (handle_create x F xid args s)
    unfolding handle_create
    create-Kept = Kept-then (x.unpack_create3args args) _ p λ a.
        let mode = create_mode x F xid a.how in
        let q = k.create a.where_dir a.name mode _ (k.getattr a.where_dir s p) in
        Kept-result (F.create a.where_dir a.name mode _).1 _ _
          (λ h.
            let r1 = k.getattr h _ q in
            let r2 = k.getattr a.where_dir _ r1 in
            Kept-result (F.getattr h _).1 _ _
              (λ t. Kept-result (F.getattr a.where_dir _).1 _ _ (λ u. kept r2) (λ e. kept r2))
              (λ e. kept r1))
          (λ e. kept q)

    pub commit-Kept : Kept P (handle_commit x F xid args s)
    unfolding handle_commit
    commit-Kept = Kept-then (x.unpack_commit3args args) _ p λ a.
        let q = k.commit a.file a.offset a.count _ (k.getattr a.file s p) in
        Kept-result (F.commit a.file a.offset a.count _).1 _ _ (λ u. kept (k.getattr a.file _ q))
          (λ e. kept q)
