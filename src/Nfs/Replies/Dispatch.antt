-- ===== src/Nfs/Replies/Dispatch.antt =====
-- The replies of the NFS program as a whole.
use arcticwolf.Base.{ℕ, ◌^◌, ◌<◌, ◌≡◌, ok, not, ◌==◌}
use arcticwolf.Base.Returns.{Returns-fail, Returns-if}
use arcticwolf.Base.Text.{Bytes}
use arcticwolf.Fsal.Filesystem.{Filesystem}
use arcticwolf.Protocol.Rpc.{RpcCallMsg}
use arcticwolf.Protocol.Xdr.{Xdr, IsXdr}
use arcticwolf.Nfs.Dispatch.{handle_null, create_notsupp_response, procedure, dispatch}
use arcticwolf.Nfs.Replies.{IsReply, Replies, replies_null, replies_reply_with}
use arcticwolf.Nfs.Replies.Query.{
  getattr_replies, lookup_replies, access_replies, readlink_replies, read_replies, fsstat_replies,
  fsinfo_replies, pathconf_replies,
}
use arcticwolf.Nfs.Replies.Listing.{readdir_replies, readdirplus_replies}
use arcticwolf.Nfs.Replies.Change.{setattr_replies, write_replies, create_replies, commit_replies}
use arcticwolf.Nfs.Replies.Names.{
  mkdir_replies, symlink_replies, mknod_replies, remove_replies, rmdir_replies, rename_replies,
  link_replies,
}

module _ (x : Xdr) (lawful : IsXdr x) (F : Filesystem) {xid : ℕ} (small : xid < 2 ^ 32) where
  null_replies : (s : F.State) → Replies xid (s, handle_null x xid)
  unfolding handle_null
  null_replies s = replies_null x lawful small s

  notsupp_replies : (s : F.State) → Replies xid (s, create_notsupp_response x xid)
  unfolding create_notsupp_response
  notsupp_replies s = replies_reply_with x lawful small s _

  procedure_replies :
      (n : ℕ) (args : Bytes) (s : F.State) → Replies xid (procedure x F n xid args s)
  unfolding procedure
  procedure_replies n args s = Returns-if (n == 0) _ _ s (null_replies s) (
      Returns-if (n == 1) _ _ s (getattr_replies x lawful F small args s) (
        Returns-if (n == 2) _ _ s (setattr_replies x lawful F small args s) (
          Returns-if (n == 3) _ _ s (lookup_replies x lawful F small args s) (
            Returns-if (n == 4) _ _ s (access_replies x lawful F small args s) (
              Returns-if (n == 5) _ _ s (readlink_replies x lawful F small args s) (
                Returns-if (n == 6) _ _ s (read_replies x lawful F small args s) (
                  Returns-if (n == 16) _ _ s (readdir_replies x lawful F small args s) (
                    Returns-if (n == 18) _ _ s (fsstat_replies x lawful F small args s) (
                      Returns-if (n == 19) _ _ s (fsinfo_replies x lawful F small args s) (
                        Returns-if (n == 20) _ _ s (pathconf_replies x lawful F small args s) (
                          Returns-if (n == 17) _ _ s (readdirplus_replies x lawful F small args s) (
                            Returns-if (n == 7) _ _ s (write_replies x lawful F small args s) (
                              Returns-if (n == 8) _ _ s (create_replies x lawful F small args s) (
                                Returns-if (n == 9) _ _ s (mkdir_replies x lawful F small args s) (
                                  Returns-if (n == 10) _ _ s
                                    (symlink_replies x lawful F small args s)
                                    (Returns-if (n == 11) _ _ s
                                      (mknod_replies x lawful F small args s)
                                      (Returns-if (n == 12) _ _ s
                                        (remove_replies x lawful F small args s)
                                        (Returns-if (n == 13) _ _ s
                                          (rmdir_replies x lawful F small args s)
                                          (Returns-if (n == 14) _ _ s
                                            (rename_replies x lawful F small args s)
                                            (Returns-if (n == 15) _ _ s
                                              (link_replies x lawful F small args s)
                                              (Returns-if (n == 21) _ _ s
                                                (commit_replies x lawful F small args s)
                                                (notsupp_replies s))))))))))))))))))))))

module _ (x : Xdr) (lawful : IsXdr x) (F : Filesystem) where
  -- Whatever the NFS program answers is a success reply.
  pub dispatch_replies :
      (call : RpcCallMsg) (args : Bytes) (s : F.State) (bytes : Bytes)
      → call.xid < 2 ^ 32
      → (dispatch x F call args s).1 ≡ ok bytes
      → IsReply call.xid bytes
  unfolding dispatch
  dispatch_replies call args s bytes small =
      (Returns-if (not (call.vers == 3)) _ _ s (Returns-fail s _)
          (procedure_replies x lawful F small call.proc args s)).result_of
        bytes
