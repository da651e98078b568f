-- ===== src/Nfs/Layout/Names.antt =====
-- The layout of what the procedures on names answer.
use arcticwolf.Base.{ℕ, ◌^◌, ◌<◌, Option, some, none, Result, arith, length, then_on}
use arcticwolf.Base.Returns.{Returns, Returns-then, Returns-call, Returns-result}
use arcticwolf.Base.Text.{Bytes}
use arcticwolf.Fsal.Filesystem.{Filesystem}
use arcticwolf.Protocol.Nfs.{Nfsstat3, nfs3_ok, Fattr3}
use arcticwolf.Protocol.Xdr.{Xdr, IsXdr}
use arcticwolf.Nfs.Kept.{IsKept}
use arcticwolf.Nfs.Wire.{made_parts}
use arcticwolf.Nfs.Change.{mode_or}
use arcticwolf.Nfs.Layout.{done, result, post_op_attr, wcc_data, made}
use arcticwolf.Nfs.Layout.Parts.{IsSized, Makes, Makes-done}
use arcticwolf.Nfs.Layout.Values.{
  layouts, Makes-ok, Makes-failed, Makes-absent, Makes-post_op_attr, Makes-post_op_fh3,
  Makes-no_fh3,
}
use arcticwolf.Nfs.Layout.Answer.{IsLaidOut, IsBounded, laid_reply}
use arcticwolf.Nfs.Names.{
  mknod_request, todir_attr, create_mkdir_response, create_symlink_response, create_mknod_response,
  create_remove_response, create_rmdir_response, create_rename_response, create_link_response,
  handle_mkdir, handle_symlink, handle_mknod, handle_remove, handle_rmdir, handle_rename,
  handle_link,
}

module _ (x : Xdr) (lawful : IsXdr x) (sized : IsSized x) where
  -- Of an object with its handle, and of a failure.
  Makes-made :
      (h : Bytes) (attr dir_attr : Option Fattr3)
      → length h < 2 ^ 32
      → Makes made (made_parts x nfs3_ok (some h) attr dir_attr)
  unfolding made_parts
  Makes-made h attr dir_attr short = Makes-ok x lawful (
      Makes-post_op_fh3 x lawful sized h short (
        Makes-post_op_attr x lawful sized attr
          (Makes-absent x lawful (Makes-post_op_attr x lawful sized dir_attr Makes-done))))

  Makes-unmade :
      (s : Nfsstat3) (dir_attr : Option Fattr3) → Makes made (made_parts x s none none dir_attr)
  unfolding made_parts
  Makes-unmade nfs3_ok dir_attr = Makes-ok x lawful (
      Makes-no_fh3 x lawful sized (
        Makes-post_op_attr x lawful sized none
          (Makes-absent x lawful (Makes-post_op_attr x lawful sized dir_attr Makes-done))))
  Makes-unmade s dir_attr =
      Makes-failed x lawful s (omega arith)
        (Makes-absent x lawful (Makes-post_op_attr x lawful sized dir_attr Makes-done))

module _ (x : Xdr) (lawful : IsXdr x) (sized : IsSized x) (F : Filesystem) {xid : ℕ}
    (small : xid < 2 ^ 32) where
  module _ {P : F.State → Type 0} (k : IsKept F P) (bounds : IsBounded F P) where
    pub mkdir_laid :
        (args : Bytes) (s : F.State)
        → P s
        → Returns (IsLaidOut xid made) (handle_mkdir x F xid args s)
    unfolding handle_mkdir create_mkdir_response
    mkdir_laid args s p = Returns-then s (x.unpack_mkdir3args args) _ λ a.
        Returns-call (F.mkdir a.where_dir a.name (mode_or 0o755 a.attributes.mode)) _ _ _
          (λ h e.
            let short = bounds.mkdir a.where_dir a.name _ _ h (k.getattr a.where_dir s p) e in
            Returns-call (F.getattr h) _ _ _
              (λ t _. laid_reply x lawful small (Makes-made x lawful sized h _ _ short))
              (λ e. laid_reply x lawful small (Makes-unmade x lawful sized _ _)))
          (λ e. laid_reply x lawful small (Makes-unmade x lawful sized _ _))

    pub symlink_laid :
        (args : Bytes) (s : F.State)
        → P s
        → Returns (IsLaidOut xid made) (handle_symlink x F xid args s)
    unfolding handle_symlink create_symlink_response
    symlink_laid args s p = Returns-then s (x.unpack_symlink3args args) _ λ a.
        Returns-call (F.symlink a.where_dir a.name a.symlink.symlink_data) _ _ _
          (λ h e.
            let short = bounds.symlink a.where_dir a.name _ _ h (k.getattr a.where_dir s p) e in
            laid_reply x lawful small (Makes-made x lawful sized h _ _ short))
          (λ e. laid_reply x lawful small (Makes-unmade x lawful sized _ _))

    pub mknod_laid :
        (args : Bytes) (s : F.State)
        → P s
        → Returns (IsLaidOut xid made) (handle_mknod x F xid args s)
    unfolding handle_mknod create_mknod_response
    mknod_laid args s p = Returns-then s (x.unpack_mknod3args args) _ λ a.
        let (file_type, mode, rdev) = mknod_request a.what in
        Returns-call (F.mknod a.where_dir a.name file_type mode rdev) _ _ _
          (λ h e.
            let short = bounds.mknod a.where_dir a.name _ _ _ _ h (k.getattr a.where_dir s p) e in
            laid_reply x lawful small (Makes-made x lawful sized h _ _ short))
          (λ e. laid_reply x lawful small (Makes-unmade x lawful sized _ _))

  pub remove_laid :
      (args : Bytes) (s : F.State)
      → Returns
          (IsLaidOut xid (result (wcc_data done) (wcc_data done)))
          (handle_remove x F xid args s)
  unfolding handle_remove create_remove_response
  remove_laid args s = Returns-then s (x.unpack_remove3args args) _ λ a.
      Returns-result _ (F.remove a.dir a.name _).1 _ _
        (λ u _. laid_reply x lawful small (search layouts depth 40))
        (λ e. laid_reply x lawful small (search layouts depth 40))

  pub rmdir_laid :
      (args : Bytes) (s : F.State)
      → Returns
          (IsLaidOut xid (result (wcc_data done) (wcc_data done)))
          (handle_rmdir x F xid args s)
  unfolding handle_rmdir create_rmdir_response
  rmdir_laid args s = Returns-then s (x.unpack_rmdir3args args) _ λ a.
      Returns-result _ (F.rmdir a.dir a.name _).1 _ _
        (λ u _. laid_reply x lawful small (search layouts depth 40))
        (λ e. laid_reply x lawful small (search layouts depth 40))

  pub link_laid :
      (args : Bytes) (s : F.State)
      → Returns
          (IsLaidOut xid (result (post_op_attr (wcc_data done)) (post_op_attr (wcc_data done))))
          (handle_link x F xid args s)
  unfolding handle_link create_link_response
  link_laid args s = Returns-then s (x.unpack_link3args args) _ λ a.
      Returns-call (F.link a.file a.link_dir a.name) _ _ _
        (λ u _. laid_reply x lawful small (search layouts depth 40))
        (λ e. laid_reply x lawful small (search layouts depth 40))

  todir_laid :
      {Q : Bytes → Type 0} (from_dir to_dir : Bytes) (o : Option Fattr3) (s : F.State)
      → (k : Option Fattr3 → F.State → F.State × Result Bytes)
      → ((o' : Option Fattr3) (t : F.State) → Returns Q (k o' t))
      → Returns Q (then_on (todir_attr x F xid from_dir to_dir o s) k)
  todir_laid from_dir to_dir o s k each =
      let (t, r) = todir_attr x F xid from_dir to_dir o s in Returns-then t r k (λ o'. each o' t)

  pub rename_laid :
      (args : Bytes) (s : F.State)
      → Returns
          (IsLaidOut xid (result (wcc_data (wcc_data done)) (wcc_data (wcc_data done))))
          (handle_rename x F xid args s)
  unfolding handle_rename create_rename_response
  rename_laid args s = Returns-then s (x.unpack_rename3args args) _ λ a.
      todir_laid a.from_dir a.to_dir _ _ _ λ before t.
        todir_laid a.from_dir a.to_dir _ _ _ λ after u.
          Returns-result u (F.rename a.from_dir a.from_name a.to_dir a.to_name t).1 _ _
            (λ v _. laid_reply x lawful small (search layouts depth 40))
            (λ e. laid_reply x lawful small (search layouts depth 40))
