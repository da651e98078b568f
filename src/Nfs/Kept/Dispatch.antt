-- ===== src/Nfs/Kept/Dispatch.antt =====
-- What the NFS program as a whole keeps.
use arcticwolf.Base.{ℕ, not, ◌==◌}
use arcticwolf.Base.Kept.{Kept, kept, Kept-if}
use arcticwolf.Base.Text.{Bytes}
use arcticwolf.Fsal.Filesystem.{Filesystem}
use arcticwolf.Protocol.Rpc.{RpcCallMsg}
use arcticwolf.Protocol.Xdr.{Xdr}
use arcticwolf.Nfs.Dispatch.{procedure, dispatch}
use arcticwolf.Nfs.Kept.{IsKept}
use arcticwolf.Nfs.Kept.Query.{
  getattr-Kept, lookup-Kept, access-Kept, readlink-Kept, read-Kept, fsstat-Kept, fsinfo-Kept,
  pathconf-Kept,
}
use arcticwolf.Nfs.Kept.Listing.{readdir-Kept, readdirplus-Kept}
use arcticwolf.Nfs.Kept.Change.{setattr-Kept, write-Kept, create-Kept, commit-Kept}
use arcticwolf.Nfs.Kept.Names.{
  mkdir-Kept, symlink-Kept, mknod-Kept, remove-Kept, rmdir-Kept, rename-Kept, link-Kept,
}

module _ (x : Xdr) (F : Filesystem) {P : F.State → Type 0} (k : IsKept F P) {s : F.State}
    (p : P s) where
  procedure-Kept : (n xid : ℕ) (args : Bytes) → Kept P (procedure x F n xid args s)
  unfolding procedure
  procedure-Kept n xid args = Kept-if (n == 0) _ _ (kept p) (
      Kept-if (n == 1) _ _ (getattr-Kept x F k xid args p) (
        Kept-if (n == 2) _ _ (setattr-Kept x F k xid args p) (
          Kept-if (n == 3) _ _ (lookup-Kept x F k xid args p) (
            Kept-if (n == 4) _ _ (access-Kept x F k xid args p) (
              Kept-if (n == 5) _ _ (readlink-Kept x F k xid args p) (
                Kept-if (n == 6) _ _ (read-Kept x F k xid args p) (
                  Kept-if (n == 16) _ _ (readdir-Kept x F k xid args p) (
                    Kept-if (n == 18) _ _ (fsstat-Kept x F k xid args p) (
                      Kept-if (n == 19) _ _ (fsinfo-Kept x F k xid args p) (
                        Kept-if (n == 20) _ _ (pathconf-Kept x F k xid args p) (
                          Kept-if (n == 17) _ _ (readdirplus-Kept x F k xid args p) (
                            Kept-if (n == 7) _ _ (write-Kept x F k xid args p) (
                              Kept-if (n == 8) _ _ (create-Kept x F k xid args p) (
                                Kept-if (n == 9) _ _ (mkdir-Kept x F k xid args p) (
                                  Kept-if (n == 10) _ _ (symlink-Kept x F k xid args p) (
                                    Kept-if (n == 11) _ _ (mknod-Kept x F k xid args p) (
                                      Kept-if (n == 12) _ _ (remove-Kept x F k xid args p) (
                                        Kept-if (n == 13) _ _ (rmdir-Kept x F k xid args p) (
                                          Kept-if (n == 14) _ _ (rename-Kept x F k xid args p) (
                                            Kept-if (n == 15) _ _ (link-Kept x F k xid args p) (
                                              Kept-if (n == 21) _ _ (commit-Kept x F k xid args p)
                                                (kept p))))))))))))))))))))))

  pub dispatch-Kept : (call : RpcCallMsg) (args : Bytes) → Kept P (dispatch x F call args s)
  unfolding dispatch
  dispatch-Kept call args =
      Kept-if (not (call.vers == 3)) _ _ (kept p) (procedure-Kept call.proc call.xid args)
