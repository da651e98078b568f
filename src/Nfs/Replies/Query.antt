-- ===== src/Nfs/Replies/Query.antt =====
-- The replies of the procedures that only ask.
use arcticwolf.Base.{ℕ, ◌^◌, ◌<◌, List, Result, bind}
use arcticwolf.Base.Returns.{Returns-call_any, Returns-then}
use arcticwolf.Base.Text.{Bytes}
use arcticwolf.Fsal.Filesystem.{Filesystem}
use arcticwolf.Protocol.Xdr.{Xdr, IsXdr}
use arcticwolf.Rpc.Message.{create_success_reply_with_data}
use arcticwolf.Nfs.Wire.{reply_with}
use arcticwolf.Nfs.Query.{
  handle_getattr, handle_lookup, handle_access, handle_readlink, create_readlink_response,
  handle_read, handle_fsstat, handle_fsinfo, handle_pathconf, create_pathconf_error,
}
use arcticwolf.Nfs.Replies.{Replies, replies_answer, replies_reply_with}

module _ (x : Xdr) (lawful : IsXdr x) (F : Filesystem) {xid : ℕ} (small : xid < 2 ^ 32) where
  abbrev full :
      (t : F.State) (parts : List (Result Bytes))
      → Replies {S = F.State} xid (t, reply_with x xid parts)
  full t parts = replies_reply_with x lawful small t parts

  abbrev short :
      (t : F.State) (r : Result Bytes)
      → Replies {S = F.State} xid (t, bind r (create_success_reply_with_data x xid))
  short t r = replies_answer x lawful small t r

  pub getattr_replies : (args : Bytes) (s : F.State) → Replies xid (handle_getattr x F xid args s)
  unfolding handle_getattr
  getattr_replies args s =
      Returns-then s (x.unpack_fhandle3 args) _
        λ a. Returns-call_any (F.getattr a) s _ _ (λ t. short _ _) (λ e. short _ _)

  pub lookup_replies : (args : Bytes) (s : F.State) → Replies xid (handle_lookup x F xid args s)
  unfolding handle_lookup
  lookup_replies args s = Returns-then s (x.unpack_lookup3args args) _ λ a.
      Returns-call_any (F.lookup a.what_dir a.name) s _ _
        (λ h. Returns-call_any (F.getattr h) _ _ _ (λ t. full _ _) (λ e. short _ _))
        (λ e. short _ _)

  pub access_replies : (args : Bytes) (s : F.State) → Replies xid (handle_access x F xid args s)
  unfolding handle_access
  access_replies args s =
      Returns-then s (x.unpack_access3args args) _
        λ a. Returns-call_any (F.getattr a.object) s _ _ (λ t. full _ _) (λ e. full _ _)

  pub fsstat_replies : (args : Bytes) (s : F.State) → Replies xid (handle_fsstat x F xid args s)
  unfolding handle_fsstat
  fsstat_replies args s =
      Returns-then s (x.unpack_fhandle3 args) _
        λ a. Returns-call_any (F.getattr a) s _ _ (λ t. full _ _) (λ e. short _ _)

  pub fsinfo_replies : (args : Bytes) (s : F.State) → Replies xid (handle_fsinfo x F xid args s)
  unfolding handle_fsinfo
  fsinfo_replies args s =
      Returns-then s (x.unpack_fhandle3 args) _
        λ a. Returns-call_any (F.getattr a) s _ _ (λ t. short _ _) (λ e. short _ _)

  pub pathconf_replies : (args : Bytes) (s : F.State) → Replies xid (handle_pathconf x F xid args s)
  unfolding handle_pathconf create_pathconf_error
  pathconf_replies args s =
      Returns-then s (x.unpack_fhandle3 args) _
        λ a. Returns-call_any (F.getattr a) s _ _ (λ t. short _ _) (λ e. full _ _)

  -- The attributes before and after the call are asked for in between, whatever they are.
  pub readlink_replies : (args : Bytes) (s : F.State) → Replies xid (handle_readlink x F xid args s)
  unfolding handle_readlink create_readlink_response
  readlink_replies args s =
      Returns-then s (x.unpack_fhandle3 args) _
        λ a. Returns-call_any (F.readlink a) _ _ _ (λ t. full _ _) (λ e. full _ _)

  pub read_replies : (args : Bytes) (s : F.State) → Replies xid (handle_read x F xid args s)
  unfolding handle_read
  read_replies args s = Returns-then s (x.unpack_read3args args) _ λ a.
      Returns-call_any (F.read a.file a.offset a.count) s _ _
        (λ b. Returns-call_any (F.getattr a.file) _ _ _ (λ t. full _ _) (λ e. short _ _))
        (λ e. short _ _)
