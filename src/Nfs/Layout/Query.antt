-- ===== src/Nfs/Layout/Query.antt =====
-- The layout of what the procedures that only ask answer.
use arcticwolf.Base.{ℕ, ◌^◌, ◌<◌, true, [], ◌∷◌, arith}
use arcticwolf.Base.Returns.{Returns, Returns-then, Returns-bound, Returns-call}
use arcticwolf.Base.Text.{Bytes}
use arcticwolf.Fsal.Filesystem.{Filesystem}
use arcticwolf.Protocol.Xdr.{Xdr, IsXdr}
use arcticwolf.Nfs.Kept.{IsKept}
use arcticwolf.Nfs.Layout.{done, opaque, result, post_op_attr, word, hyper, boolean, fattr3}
use arcticwolf.Nfs.Layout.Parts.{IsSized, Makes-nothing, Makes-done}
use arcticwolf.Nfs.Layout.Values.{layouts, Makes-failed, Makes-post_op_attr}
use arcticwolf.Nfs.Status.{handle_status, readlink_status}
use arcticwolf.Nfs.Layout.Answer.{
  IsLaidOut, IsBounded, laid_answer, laid_reply, laid_getattr, laid_bare_error, laid_attr_error,
}
use arcticwolf.Nfs.Layout.Failure.{
  failure, lookup-IsFailure, handle-IsFailure, read-IsFailure, readlink-IsFailure,
}
use arcticwolf.Nfs.Query.{
  handle_getattr, handle_lookup, handle_access, handle_readlink, create_readlink_response,
  handle_read, handle_fsstat, handle_fsinfo, handle_pathconf, create_pathconf_ok,
  create_pathconf_error,
}
use arcticwolf.Protocol.Nfs.{nfs3_ok, nfs3err_io, nfs3err_stale}
use arcticwolf.Nfs.Wire.{pack_status}

module _ (x : Xdr) (lawful : IsXdr x) (sized : IsSized x) (F : Filesystem) {xid : ℕ}
    (small : xid < 2 ^ 32) where
  pub getattr_laid :
      (args : Bytes) (s : F.State)
      → Returns (IsLaidOut xid (result (fattr3 done) done)) (handle_getattr x F xid args s)
  unfolding handle_getattr
  getattr_laid args s = Returns-then s (x.unpack_fhandle3 args) _ λ a.
      Returns-call (F.getattr a) s _ _ (λ t _. laid_getattr x lawful small _ _ sized)
        (λ e. laid_bare_error x lawful small _ nfs3err_stale (failure (omega arith)))

  pub lookup_laid :
      (args : Bytes) (s : F.State)
      → Returns
          (IsLaidOut xid (result (opaque (post_op_attr (post_op_attr done))) (post_op_attr done)))
          (handle_lookup x F xid args s)
  unfolding handle_lookup
  lookup_laid args s = Returns-then s (x.unpack_lookup3args args) _ λ a.
      Returns-call (F.lookup a.what_dir a.name) s _ _
        (λ h _.
          Returns-call (F.getattr h) _ _ _
            (λ t _. laid_reply x lawful small (search layouts depth 40))
            (λ e. laid_attr_error x lawful small _ nfs3err_io (failure (omega arith))))
        (λ e. laid_attr_error x lawful small _ _ (lookup-IsFailure e))

  pub access_laid :
      (args : Bytes) (s : F.State)
      → Returns
          (IsLaidOut xid (result (post_op_attr (word done)) (post_op_attr done)))
          (handle_access x F xid args s)
  unfolding handle_access
  access_laid args s = Returns-then s (x.unpack_access3args args) _ λ a.
      Returns-call (F.getattr a.object) s _ _
        (λ t _. laid_reply x lawful small (search layouts depth 40))
        (λ e. laid_reply x lawful small (
          Makes-failed x lawful (handle_status e) (handle-IsFailure e).not_ok
            (search layouts depth 40)))

  pub readlink_laid :
      {P : F.State → Type 0} (k : IsKept F P) (bounds : IsBounded F P) (args : Bytes) (s : F.State)
      → P s
      → Returns
          (IsLaidOut xid (result (post_op_attr (opaque done)) (post_op_attr done)))
          (handle_readlink x F xid args s)
  unfolding handle_readlink create_readlink_response
  readlink_laid k bounds args s p = Returns-then s (x.unpack_fhandle3 args) _ λ a.
      Returns-call (F.readlink a) _ _ _
        (λ t e.
          let short = bounds.readlink a _ t (k.getattr a s p) e in
          laid_reply x lawful small (search layouts depth 40))
        (λ e. laid_reply x lawful small (
          Makes-failed x lawful (readlink_status e) (readlink-IsFailure e).not_ok (
            Makes-post_op_attr x lawful sized _ (
              Makes-nothing _ (λ c made. ground (arith, made, (readlink-IsFailure e).not_ok))
                Makes-done))))

  pub read_laid :
      {P : F.State → Type 0} (bounds : IsBounded F P) (args : Bytes) (s : F.State)
      → P s
      → Returns
          (IsLaidOut xid (result (post_op_attr (word (boolean (opaque done)))) (post_op_attr done)))
          (handle_read x F xid args s)
  unfolding handle_read
  read_laid bounds args s p = Returns-bound s (x.unpack_read3args args) _ λ a parsed.
      Returns-call (F.read a.file a.offset a.count) s _ _
        (λ b e.
          let short =
            bounds.read a.file a.offset a.count s b (sized.read_count args a parsed) p e in
          Returns-call (F.getattr a.file) _ _ _
            (λ t _. laid_reply x lawful small (search layouts depth 40))
            (λ e. laid_attr_error x lawful small _ nfs3err_io (failure (omega arith))))
        (λ e. laid_attr_error x lawful small _ _ (read-IsFailure e))

  pub fsstat_laid :
      (args : Bytes) (s : F.State)
      → Returns
          (IsLaidOut xid (
            result
              (post_op_attr (hyper (hyper (hyper (hyper (hyper (hyper (word done))))))))
              (post_op_attr done)))
          (handle_fsstat x F xid args s)
  unfolding handle_fsstat
  fsstat_laid args s = Returns-then s (x.unpack_fhandle3 args) _ λ a.
      Returns-call (F.getattr a) s _ _ (λ t _. laid_reply x lawful small (search layouts depth 40))
        (λ e. laid_attr_error x lawful small _ _ (handle-IsFailure e))

  pub fsinfo_laid :
      (args : Bytes) (s : F.State)
      → Returns
          (IsLaidOut xid (
            result
              (post_op_attr
                (word (word (word (word (word (word (word (hyper (hyper (word done)))))))))))
              (post_op_attr done)))
          (handle_fsinfo x F xid args s)
  unfolding handle_fsinfo
  fsinfo_laid args s = Returns-then s (x.unpack_fhandle3 args) _ λ a.
      Returns-call (F.getattr a) s _ _
        (λ t _.
          laid_answer x lawful small
            {parts = pack_status x nfs3_ok
              ∷ x.pack_bool true
              ∷ x.pack_fattr3 _
              ∷ x.pack_u32 _
              ∷ x.pack_u32 _
              ∷ x.pack_u32 _
              ∷ x.pack_u32 _
              ∷ x.pack_u32 _
              ∷ x.pack_u32 _
              ∷ x.pack_u32 _
              ∷ x.pack_u64 _
              ∷ x.pack_nfstime3 _
              ∷ x.pack_u32 _
              ∷ []}
            (search layouts depth 40))
        (λ e. laid_attr_error x lawful small _ _ (handle-IsFailure e))

  pub pathconf_laid :
      (args : Bytes) (s : F.State)
      → Returns
          (IsLaidOut xid (
            result
              (post_op_attr (word (word (boolean (boolean (boolean (boolean done)))))))
              (post_op_attr done)))
          (handle_pathconf x F xid args s)
  unfolding handle_pathconf create_pathconf_ok create_pathconf_error
  pathconf_laid args s = Returns-then s (x.unpack_fhandle3 args) _ λ a.
      Returns-call (F.getattr a) s _ _
        (λ t _.
          laid_answer x lawful small
            {parts = pack_status x nfs3_ok
              ∷ x.pack_bool true
              ∷ x.pack_fattr3 _
              ∷ x.pack_u32 _
              ∷ x.pack_u32 _
              ∷ x.pack_bool _
              ∷ x.pack_bool _
              ∷ x.pack_bool _
              ∷ x.pack_bool _
              ∷ []}
            (search layouts depth 40))
        (λ e.
          laid_reply x lawful small
            (Makes-failed x lawful nfs3err_stale (omega arith) (search layouts depth 40)))
