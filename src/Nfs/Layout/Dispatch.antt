-- ===== src/Nfs/Layout/Dispatch.antt =====
-- The layout of what the NFS program as a whole answers.
use arcticwolf.Base.{
  ℕ, ◌^◌, ◌<◌, ◌≡◌, refl, sym, subst, ap, ◌∙◌, false, some, ◌⊎◌, inl, inr, Result, ok, not, ◌==◌,
  if◌then◌else◌, Bool-cases, arith,
}
use arcticwolf.Base.Returns.{Returns, Returns-if, Returns-fail, Returns-map}
use arcticwolf.Base.Text.{Bytes}
use arcticwolf.Fsal.Filesystem.{Filesystem}
use arcticwolf.Protocol.Rpc.{RpcCallMsg}
use arcticwolf.Protocol.Xdr.{Xdr, IsXdr}
use arcticwolf.Nfs.Kept.{IsKept}
use arcticwolf.Nfs.Dispatch.{handle_null, procedure, dispatch}
use arcticwolf.Nfs.Layout.{Layout, done, listing, result_of}
use arcticwolf.Nfs.Layout.Parts.{IsSized}
use arcticwolf.Nfs.Layout.Answer.{IsLaidOut, IsBareFailure, IsBounded, laid_null}
use arcticwolf.Nfs.Layout.Query.{
  getattr_laid, lookup_laid, access_laid, readlink_laid, read_laid, fsstat_laid, fsinfo_laid,
  pathconf_laid,
}
use arcticwolf.Nfs.Layout.Change.{setattr_laid, write_laid, create_laid, commit_laid}
use arcticwolf.Nfs.Layout.Names.{
  mkdir_laid, symlink_laid, mknod_laid, remove_laid, rmdir_laid, rename_laid, link_laid,
}
use arcticwolf.Nfs.Layout.Listing.{IsListed, readdir_laid, readdirplus_laid}

abbrev pub IsListing : ℕ → Type 0
IsListing n = (n ≡ 16) ⊎ (n ≡ 17)

-- The result that RFC 1813 gives to the procedure, if it has the procedure; or, for a listing, a
-- status of failure alone.
pub record FollowsRfc (n xid : ℕ) (bytes : Bytes) : Type 0 where
  pub as_rfc :
      (l : Layout)
      → result_of n ≡ some l
      → IsLaidOut xid l bytes ⊎ (IsListing n × IsBareFailure xid bytes)

module _ {S : Type 0} {n xid : ℕ} where
  -- One test of the `match` on the procedure number.
  as_result :
      (k : ℕ) {l : Layout} (m rest : S → S × Result Bytes) (s : S)
      → result_of k ≡ some l
      → Returns (IsLaidOut xid l) (m s)
      → ((n == k) ≡ false → Returns (FollowsRfc n xid) (rest s))
      → Returns (FollowsRfc n xid) ((if n == k then m else rest) s)
  as_result k {l} m rest s known here there = elim (Bool-cases (n == k)) [
    | inl h ↦
        let same : n ≡ k = ground (arith, h) in
        rw h (
          Returns-map
            (λ b laid. record {
              as_rfc = λ l' e. inl (
                  subst (λ t. IsLaidOut xid t b)
                    (ground (arith, sym known ∙ sym (ap result_of same) ∙ e)) laid);
            })
            here)
    | inr h ↦ rw h (there h)
  ]

  as_listing :
      (k : ℕ) (entry : Layout) (m rest : S → S × Result Bytes) (s : S)
      → IsListing k
      → result_of k ≡ some (listing entry)
      → Returns (IsListed xid entry) (m s)
      → ((n == k) ≡ false → Returns (FollowsRfc n xid) (rest s))
      → Returns (FollowsRfc n xid) ((if n == k then m else rest) s)
  as_listing k entry m rest s listed known here there = elim (Bool-cases (n == k)) [
    | inl h ↦
        let same : n ≡ k = ground (arith, h) in
        rw h (
          Returns-map
            (λ b laid. record {
              as_rfc = λ l' e. elim laid [
                | inl whole ↦ inl (
                    subst (λ t. IsLaidOut xid t b)
                      (ground (arith, sym known ∙ sym (ap result_of same) ∙ e)) whole)
                | inr bare ↦ inr (subst IsListing (sym same) listed, bare)
              ];
            })
            here)
    | inr h ↦ rw h (there h)
  ]

module _ (x : Xdr) (lawful : IsXdr x) (sized : IsSized x) (F : Filesystem) {P : F.State → Type 0}
    (k : IsKept F P) (bounds : IsBounded F P) {xid : ℕ} (small : xid < 2 ^ 32) where
  null_laid : (s : F.State) → Returns (IsLaidOut xid done) (s, handle_null x xid)
  unfolding handle_null
  null_laid s = laid_null x lawful small s

  procedure-FollowsRfc :
      (n : ℕ) (args : Bytes) (s : F.State)
      → P s
      → Returns (FollowsRfc n xid) (procedure x F n xid args s)
  unfolding procedure
  procedure-FollowsRfc n args s p = as_result 0 _ _ s refl (null_laid s) λ h0.
      as_result 1 _ _ s refl (getattr_laid x lawful sized F small args s) λ h1.
        as_result 2 _ _ s refl (setattr_laid x lawful sized F small args s) λ h2.
          as_result 3 _ _ s refl (lookup_laid x lawful sized F small args s) λ h3.
            as_result 4 _ _ s refl (access_laid x lawful sized F small args s) λ h4.
              as_result 5 _ _ s refl (readlink_laid x lawful sized F small k bounds args s p) λ h5.
                as_result 6 _ _ s refl (read_laid x lawful sized F small bounds args s p) λ h6.
                  as_listing 16 _ _ _ s (inl refl) refl (readdir_laid x lawful sized F small args s)
                    λ h16.
                      as_result 18 _ _ s refl (fsstat_laid x lawful sized F small args s) λ h18.
                        as_result 19 _ _ s refl (fsinfo_laid x lawful sized F small args s) λ h19.
                          as_result 20 _ _ s refl (pathconf_laid x lawful sized F small args s)
                            λ h20.
                              as_listing 17 _ _ _ s (inr refl) refl
                                (readdirplus_laid x lawful sized F small args s)
                                λ h17.
                                  as_result 7 _ _ s refl (write_laid x lawful sized F small args s)
                                    λ h7.
                                      as_result 8 _ _ s refl
                                        (create_laid x lawful sized F small k bounds args s p)
                                        λ h8.
                                          as_result 9 _ _ s refl
                                            (mkdir_laid x lawful sized F small k bounds args s p)
                                            λ h9.
                                              as_result 10 _ _ s refl
                                                (symlink_laid x lawful sized F small k bounds args s
                                                  p)
                                                λ h10.
                                                  as_result 11 _ _ s refl
                                                    (mknod_laid x lawful sized F small k bounds args
                                                      s p)
                                                    λ h11.
                                                      as_result 12 _ _ s refl
                                                        (remove_laid x lawful sized F small args s)
                                                        λ h12.
                                                          as_result 13 _ _ s refl
                                                            (rmdir_laid x lawful sized F small args
                                                            s)
                                                            λ h13.
                                                            as_result 14 _ _ s refl
                                                            (rename_laid x lawful sized F small args
                                                            s)
                                                            λ h14.
                                                            as_result 15 _ _ s refl
                                                            (link_laid x lawful sized F small args
                                                            s)
                                                            λ h15.
                                                            as_result 21 _ _ s refl
                                                            (commit_laid x lawful sized F small args
                                                            s)
                                                            λ h21. record {
                                                            result_of = λ b e. record {
                                                            as_rfc = λ l known.
                                                            absurd (ground (arith, known));
                                                            };
                                                            }

module _ (x : Xdr) (lawful : IsXdr x) (sized : IsSized x) (F : Filesystem) {P : F.State → Type 0}
    (k : IsKept F P) (bounds : IsBounded F P) where
  -- Where a property is kept in which a backend hands out nothing too long.
  pub dispatch-FollowsRfc :
      (call : RpcCallMsg) (args : Bytes) (s : F.State) (bytes : Bytes)
      → call.xid < 2 ^ 32
      → P s
      → (dispatch x F call args s).1 ≡ ok bytes
      → FollowsRfc call.proc call.xid bytes
  unfolding dispatch
  dispatch-FollowsRfc call args s bytes small p =
      (Returns-if (not (call.vers == 3)) _ _ s (Returns-fail s _)
          (procedure-FollowsRfc x lawful sized F k bounds small call.proc args s p)).result_of
        bytes
