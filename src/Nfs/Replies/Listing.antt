-- ===== src/Nfs/Replies/Listing.antt =====
-- The replies of READDIR and READDIRPLUS.
use arcticwolf.Base.{ℕ, ◌^◌, ◌<◌, List, Result, bind, then_on}
use arcticwolf.Base.Returns.{Returns-call_any, Returns-then}
use arcticwolf.Base.Text.{Bytes}
use arcticwolf.Fsal.Filesystem.{Filesystem}
use arcticwolf.Fsal.Types.{DirEntry}
use arcticwolf.Protocol.Xdr.{Xdr, IsXdr, pack_all}
use arcticwolf.Rpc.Message.{create_success_reply_with_data}
use arcticwolf.Nfs.Wire.{reply_with}
use arcticwolf.Nfs.Listing.{listing_header, plus_entries, handle_readdir, handle_readdirplus}
use arcticwolf.Nfs.Replies.{Replies, replies_answer, replies_reply_with}

module _ (x : Xdr) (lawful : IsXdr x) (F : Filesystem) {xid : ℕ} (small : xid < 2 ^ 32) where
  abbrev full :
      (t : F.State) (parts : List (Result Bytes))
      → Replies {S = F.State} xid (t, reply_with x xid parts)
  full t parts = replies_reply_with x lawful small t parts

  abbrev short :
      (t : F.State) (r : Result Bytes)
      → Replies {S = F.State} xid (t, bind r (create_success_reply_with_data x xid))
  short t r = replies_answer x lawful small t r

  pub readdir_replies : (args : Bytes) (s : F.State) → Replies xid (handle_readdir x F xid args s)
  unfolding handle_readdir
  readdir_replies args s = Returns-then s (x.unpack_readdir3args args) _ λ a.
      Returns-call_any (F.getattr a.dir) s _ _
        (λ t.
          Returns-call_any (F.readdir a.dir a.cookie a.count) _ _ _ (λ listed. full _ _)
            (λ e. short _ _))
        (λ e. short _ _)

  replies_listed :
      (dir : Bytes) (cookie : ℕ) (entries : List DirEntry) (s : F.State)
      → (k : Bytes → F.State → F.State × Result Bytes)
      → ((listed : Bytes) (t : F.State) → Replies xid (k listed t))
      → Replies xid (then_on (plus_entries x F xid dir cookie entries s) k)
  replies_listed dir cookie entries s k each =
      let (t, r) = plus_entries x F xid dir cookie entries s in
      Returns-then t r k (λ listed. each listed t)

  pub readdirplus_replies :
      (args : Bytes) (s : F.State) → Replies xid (handle_readdirplus x F xid args s)
  unfolding handle_readdirplus
  readdirplus_replies args s = Returns-then s (x.unpack_readdirplus3args args) _ λ a.
      Returns-call_any (F.getattr a.dir) s _ _
        (λ t.
          Returns-call_any (F.readdir a.dir a.cookie a.dircount) _ _ _
            (λ found.
              Returns-then _ (pack_all (listing_header x t)) _
                λ header. replies_listed a.dir a.cookie found.0 _ _ λ listed u. full _ _)
            (λ e. short _ _))
        (λ e. short _ _)
