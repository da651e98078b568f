-- ===== src/Nfs/Replies/Change.antt =====
-- The replies of SETATTR, WRITE, CREATE and COMMIT.
use arcticwolf.Base.{ℕ, ◌^◌, ◌<◌, List, Result, bind}
use arcticwolf.Base.Returns.{Returns-call_any, Returns-if, Returns-then}
use arcticwolf.Base.Text.{Bytes}
use arcticwolf.Fsal.Filesystem.{Filesystem}
use arcticwolf.Protocol.Xdr.{Xdr, IsXdr}
use arcticwolf.Rpc.Message.{create_success_reply_with_data}
use arcticwolf.Nfs.Wire.{reply_with}
use arcticwolf.Nfs.Change.{
  uid_of, gid_of, guard_fails, apply_size, apply_mode, apply_owner, create_mode, handle_setattr,
  handle_write, handle_create, handle_commit, create_commit_response,
}
use arcticwolf.Nfs.Replies.{Replies, replies_answer, replies_reply_with}

module _ (x : Xdr) (lawful : IsXdr x) (F : Filesystem) {xid : ℕ} (small : xid < 2 ^ 32) where
  abbrev full :
      (t : F.State) (parts : List (Result Bytes))
      → Replies {S = F.State} xid (t, reply_with x xid parts)
  full t parts = replies_reply_with x lawful small t parts

  abbrev short :
      (t : F.State) (r : Result Bytes)
      → Replies {S = F.State} xid (t, bind r (create_success_reply_with_data x xid))
  short t r = replies_answer x lawful small t r

  pub setattr_replies : (args : Bytes) (s : F.State) → Replies xid (handle_setattr x F xid args s)
  unfolding handle_setattr
  setattr_replies args s = Returns-then s (x.unpack_setattr3args args) _ λ a.
      let owner =
        apply_owner F a.object (uid_of a.new_attributes.uid) (gid_of a.new_attributes.gid) in
      Returns-if (guard_fails a.guard (F.getattr a.object s).1) _ _ _ (short _ _) (
        Returns-call_any (apply_size F a.object a.new_attributes.size) _ _ _
          (λ u.
            Returns-call_any (apply_mode F a.object a.new_attributes.mode) _ _ _
              (λ u.
                Returns-call_any owner _ _ _
                  (λ u.
                    Returns-call_any (F.getattr a.object) _ _ _ (λ t. full _ _) (λ e. short _ _))
                  (λ e. short _ _))
              (λ e. short _ _))
          (λ e. short _ _))

  pub write_replies : (args : Bytes) (s : F.State) → Replies xid (handle_write x F xid args s)
  unfolding handle_write
  write_replies args s = Returns-then s (x.unpack_write3args args) _ λ a.
      Returns-call_any (F.write a.file a.offset a.contents) _ _ _
        (λ n. Returns-call_any (F.getattr a.file) _ _ _ (λ t. full _ _) (λ e. short _ _))
        (λ e. short _ _)

  pub create_replies : (args : Bytes) (s : F.State) → Replies xid (handle_create x F xid args s)
  unfolding handle_create
  create_replies args s = Returns-then s (x.unpack_create3args args) _ λ a.
      Returns-call_any (F.create a.where_dir a.name (create_mode x F xid a.how)) _ _ _
        (λ h.
          Returns-call_any (F.getattr h) _ _ _
            (λ t. Returns-call_any (F.getattr a.where_dir) _ _ _ (λ u. full _ _) (λ e. short _ _))
            (λ e. short _ _))
        (λ e. short _ _)

  pub commit_replies : (args : Bytes) (s : F.State) → Replies xid (handle_commit x F xid args s)
  unfolding handle_commit create_commit_response
  commit_replies args s =
      Returns-then s (x.unpack_commit3args args) _ λ a.
        Returns-call_any (F.commit a.file a.offset a.count) _ _ _ (λ u. full _ _) (λ e. full _ _)
