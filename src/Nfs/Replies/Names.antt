-- ===== src/Nfs/Replies/Names.antt =====
-- The replies of the procedures on names.
use arcticwolf.Base.{ℕ, ◌^◌, ◌<◌, List, Result, bind, Option, then_on}
use arcticwolf.Base.Returns.{Returns-call_any, Returns-result_any, Returns-then}
use arcticwolf.Base.Text.{Bytes}
use arcticwolf.Fsal.Filesystem.{Filesystem}
use arcticwolf.Protocol.Nfs.{Fattr3}
use arcticwolf.Protocol.Xdr.{Xdr, IsXdr}
use arcticwolf.Rpc.Message.{create_success_reply_with_data}
use arcticwolf.Nfs.Wire.{reply_with}
use arcticwolf.Nfs.Change.{mode_or}
use arcticwolf.Nfs.Names.{
  mknod_request, todir_attr, create_mkdir_response, create_symlink_response, create_mknod_response,
  create_remove_response, create_rmdir_response, create_rename_response, create_link_response,
  handle_mkdir, handle_symlink, handle_mknod, handle_remove, handle_rmdir, handle_rename,
  handle_link,
}
use arcticwolf.Nfs.Replies.{Replies, replies_answer, replies_reply_with}

module _ (x : Xdr) (lawful : IsXdr x) (F : Filesystem) {xid : ℕ} (small : xid < 2 ^ 32) where
  abbrev full :
      (t : F.State) (parts : List (Result Bytes))
      → Replies {S = F.State} xid (t, reply_with x xid parts)
  full t parts = replies_reply_with x lawful small t parts

  abbrev short :
      (t : F.State) (r : Result Bytes)
      → Replies {S = F.State} xid (t, bind r (create_success_reply_with_data x xid))
  short t r = replies_answer x lawful small t r

  pub mkdir_replies : (args : Bytes) (s : F.State) → Replies xid (handle_mkdir x F xid args s)
  unfolding handle_mkdir create_mkdir_response
  mkdir_replies args s = Returns-then s (x.unpack_mkdir3args args) _ λ a.
      Returns-call_any (F.mkdir a.where_dir a.name (mode_or 0o755 a.attributes.mode)) _ _ _
        (λ h. Returns-call_any (F.getattr h) _ _ _ (λ t. full _ _) (λ e. full _ _)) (λ e. full _ _)

  pub symlink_replies : (args : Bytes) (s : F.State) → Replies xid (handle_symlink x F xid args s)
  unfolding handle_symlink create_symlink_response
  symlink_replies args s = Returns-then s (x.unpack_symlink3args args) _ λ a.
      Returns-call_any (F.symlink a.where_dir a.name a.symlink.symlink_data) _ _ _ (λ h. full _ _)
        (λ e. full _ _)

  pub mknod_replies : (args : Bytes) (s : F.State) → Replies xid (handle_mknod x F xid args s)
  unfolding handle_mknod create_mknod_response
  mknod_replies args s = Returns-then s (x.unpack_mknod3args args) _ λ a.
      let (file_type, mode, rdev) = mknod_request a.what in
      Returns-call_any (F.mknod a.where_dir a.name file_type mode rdev) _ _ _ (λ h. full _ _)
        (λ e. full _ _)

  pub remove_replies : (args : Bytes) (s : F.State) → Replies xid (handle_remove x F xid args s)
  unfolding handle_remove create_remove_response
  remove_replies args s =
      Returns-then s (x.unpack_remove3args args) _
        λ a. Returns-result_any _ (F.remove a.dir a.name _).1 _ _ (λ u. full _ _) (λ e. full _ _)

  pub rmdir_replies : (args : Bytes) (s : F.State) → Replies xid (handle_rmdir x F xid args s)
  unfolding handle_rmdir create_rmdir_response
  rmdir_replies args s =
      Returns-then s (x.unpack_rmdir3args args) _
        λ a. Returns-result_any _ (F.rmdir a.dir a.name _).1 _ _ (λ u. full _ _) (λ e. full _ _)

  pub link_replies : (args : Bytes) (s : F.State) → Replies xid (handle_link x F xid args s)
  unfolding handle_link create_link_response
  link_replies args s =
      Returns-then s (x.unpack_link3args args) _ λ a.
        Returns-call_any (F.link a.file a.link_dir a.name) _ _ _ (λ u. full _ _) (λ e. full _ _)

  replies_todir :
      (from_dir to_dir : Bytes) (o : Option Fattr3) (s : F.State)
      → (k : Option Fattr3 → F.State → F.State × Result Bytes)
      → ((o' : Option Fattr3) (t : F.State) → Replies xid (k o' t))
      → Replies xid (then_on (todir_attr x F xid from_dir to_dir o s) k)
  replies_todir from_dir to_dir o s k each =
      let (t, r) = todir_attr x F xid from_dir to_dir o s in Returns-then t r k (λ o'. each o' t)

  pub rename_replies : (args : Bytes) (s : F.State) → Replies xid (handle_rename x F xid args s)
  unfolding handle_rename create_rename_response
  rename_replies args s = Returns-then s (x.unpack_rename3args args) _ λ a.
      replies_todir a.from_dir a.to_dir _ _ _ λ before t.
        replies_todir a.from_dir a.to_dir _ _ _ λ after u.
          Returns-result_any u (F.rename a.from_dir a.from_name a.to_dir a.to_name t).1 _ _
            (λ v. full _ _) (λ e. full _ _)
