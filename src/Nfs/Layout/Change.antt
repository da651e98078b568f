-- ===== src/Nfs/Layout/Change.antt =====
-- The layout of what SETATTR, WRITE, CREATE and COMMIT answer.
use arcticwolf.Base.{ℕ, ◌^◌, ◌<◌, ◌≡◌, [], ◌∷◌, arith, length}
use arcticwolf.Base.Returns.{Returns, Returns-then, Returns-call, Returns-if}
use arcticwolf.Base.Text.{Bytes}
use arcticwolf.Fsal.Filesystem.{Filesystem}
use arcticwolf.Protocol.Nfs.{nfs3err_io, nfs3err_not_sync}
use arcticwolf.Protocol.Xdr.{Xdr, IsXdr}
use arcticwolf.Nfs.Kept.{IsKept}
use arcticwolf.Nfs.Layout.{done, result, word, hyper, wcc_data, made}
use arcticwolf.Nfs.Layout.Parts.{IsSized, Makes-nothing, Makes-bytes, Makes-done}
use arcticwolf.Nfs.Layout.Values.{layouts, Makes-ok, Makes-failed, Makes-absent, Makes-post_op_attr}
use arcticwolf.Nfs.Layout.Answer.{IsLaidOut, IsBounded, laid_reply, laid_wcc_error}
use arcticwolf.Nfs.Layout.Failure.{
  failure, write-IsFailure, setattr_size-IsFailure, setattr-IsFailure, create-IsFailure,
  commit-IsFailure,
}
use arcticwolf.Nfs.Status.{commit_status}
use arcticwolf.Nfs.Change.{
  uid_of, gid_of, guard_fails, apply_size, apply_mode, apply_owner, create_mode, handle_setattr,
  handle_write, handle_create, handle_commit, create_commit_response,
}

module _ (x : Xdr) (lawful : IsXdr x) (sized : IsSized x) (F : Filesystem) {xid : ℕ}
    (small : xid < 2 ^ 32) where
  pub setattr_laid :
      (args : Bytes) (s : F.State)
      → Returns
          (IsLaidOut xid (result (wcc_data done) (wcc_data done)))
          (handle_setattr x F xid args s)
  unfolding handle_setattr
  setattr_laid args s = Returns-then s (x.unpack_setattr3args args) _ λ a.
      let owner =
        apply_owner F a.object (uid_of a.new_attributes.uid) (gid_of a.new_attributes.gid) in
      Returns-if (guard_fails a.guard (F.getattr a.object s).1) _ _ _
        (laid_wcc_error x lawful small _ nfs3err_not_sync (failure (omega arith)))
        (Returns-call (apply_size F a.object a.new_attributes.size) _ _ _
          (λ u _.
            Returns-call (apply_mode F a.object a.new_attributes.mode) _ _ _
              (λ u _.
                Returns-call owner _ _ _
                  (λ u _.
                    Returns-call (F.getattr a.object) _ _ _
                      (λ t _. laid_reply x lawful small (search layouts depth 40))
                      (λ e. laid_wcc_error x lawful small _ nfs3err_io (failure (omega arith))))
                  (λ e. laid_wcc_error x lawful small _ _ (setattr-IsFailure e)))
              (λ e. laid_wcc_error x lawful small _ _ (setattr-IsFailure e)))
          (λ e. laid_wcc_error x lawful small _ _ (setattr_size-IsFailure e)))

  pub write_laid :
      (args : Bytes) (s : F.State)
      → Returns
          (IsLaidOut xid (result (wcc_data (word (word (hyper done)))) (wcc_data done)))
          (handle_write x F xid args s)
  unfolding handle_write
  write_laid args s =
      let verifier : length {A = ℕ} (0 ∷ 1 ∷ 2 ∷ 3 ∷ 4 ∷ 5 ∷ 6 ∷ 7 ∷ []) ≡ 8 = omega arith in
      Returns-then s (x.unpack_write3args args) _ λ a.
        Returns-call (F.write a.file a.offset a.contents) _ _ _
          (λ n _.
            Returns-call (F.getattr a.file) _ _ _
              (λ t _. laid_reply x lawful small (search (layouts, Makes-bytes) depth 40))
              (λ e. laid_wcc_error x lawful small _ nfs3err_io (failure (omega arith))))
          (λ e. laid_wcc_error x lawful small _ _ (write-IsFailure e))

  pub create_laid :
      {P : F.State → Type 0} (k : IsKept F P) (bounds : IsBounded F P) (args : Bytes) (s : F.State)
      → P s
      → Returns (IsLaidOut xid made) (handle_create x F xid args s)
  unfolding handle_create
  create_laid k bounds args s p = Returns-then s (x.unpack_create3args args) _ λ a.
      Returns-call (F.create a.where_dir a.name (create_mode x F xid a.how)) _ _ _
        (λ h e.
          let short = bounds.create a.where_dir a.name _ _ h (k.getattr a.where_dir s p) e in
          Returns-call (F.getattr h) _ _ _
            (λ t _.
              Returns-call (F.getattr a.where_dir) _ _ _
                (λ u _. laid_reply x lawful small (search layouts depth 40))
                (λ e. laid_wcc_error x lawful small _ nfs3err_io (failure (omega arith))))
            (λ e. laid_wcc_error x lawful small _ nfs3err_io (failure (omega arith))))
        (λ e. laid_wcc_error x lawful small _ _ (create-IsFailure e x F xid a.how))

  pub commit_laid :
      (args : Bytes) (s : F.State)
      → Returns
          (IsLaidOut xid (result (wcc_data (hyper done)) (wcc_data done)))
          (handle_commit x F xid args s)
  unfolding handle_commit create_commit_response
  commit_laid args s = Returns-then s (x.unpack_commit3args args) _ λ a.
      Returns-call (F.commit a.file a.offset a.count) _ _ _
        (λ u _. laid_reply x lawful small (
          Makes-ok x lawful (
            Makes-absent x lawful
              (Makes-post_op_attr x lawful sized _ (Makes-bytes 8 _ (omega arith) Makes-done)))))
        (λ e. laid_reply x lawful small (
          Makes-failed x lawful (commit_status e) (commit-IsFailure e).not_ok (
            Makes-absent x lawful (
              Makes-post_op_attr x lawful sized _ (
                Makes-nothing _ (λ c built. ground (arith, built, (commit-IsFailure e).not_ok))
                  Makes-done)))))
