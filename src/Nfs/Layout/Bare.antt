-- ===== src/Nfs/Layout/Bare.antt =====
-- What READDIR answers where it cannot read the directory: it differs from RFC 1813.
use arcticwolf.Base.{
  ℕ, ◌^◌, ◌<◌, ◌≡◌, refl, ap, ◌∙◌, sym, none, ok, err, Error, ◌++◌, append-nil, [], arith,
}
use arcticwolf.Base.Text.{Bytes}
use arcticwolf.Base.Words.{be32}
use arcticwolf.Fsal.Filesystem.{Filesystem}
use arcticwolf.Protocol.Nfs.{Readdir3args}
use arcticwolf.Protocol.Rpc.{success}
use arcticwolf.Protocol.Xdr.{Xdr, IsXdr, reply_header}
use arcticwolf.Rpc.Message.{accepted_reply, create_success_reply_with_data}
use arcticwolf.Nfs.Replies.{header_lem}
use arcticwolf.Nfs.Wire.{create_bare_error_response, pack_status}
use arcticwolf.Nfs.Layout.{
  Layout, done, hyper, list, boolean, post_op_attr, listing, entry3, skip, first_word,
}
use arcticwolf.Nfs.Layout.Reading.{skip_status}
use arcticwolf.Nfs.Listing.{handle_readdir}

-- A listing has something behind any status.
skip-bare_status : (entry : Layout) → skip (listing entry) (be32 5 ++ []) ≡ none
unfolding skip first_word
skip-bare_status entry =
    skip_status (post_op_attr (hyper (list entry (boolean done)))) (post_op_attr done) 5 []
      (omega arith)
    ∙ refl

module _ (x : Xdr) (lawful : IsXdr x) (F : Filesystem) (xid : ℕ) (small : xid < 2 ^ 32) where
  -- READDIR of a directory whose attributes cannot be had is answered with the status NFS3ERR_IO
  -- and nothing behind it, and a reader of the result that RFC 1813 gives to READDIR finds no end
  -- in that: where the codec follows its laws, the arguments parse and the transaction id is a
  -- word.
  pub handle_readdir-bare :
      (args_data : Bytes) (args : Readdir3args) (s : F.State) (e : Error)
      → x.unpack_readdir3args args_data ≡ ok args
      → (F.getattr args.dir s).1 ≡ err e
      → ((handle_readdir x F xid args_data s).1
          ≡ ok (reply_header (accepted_reply xid success) ++ be32 5))
        × (skip (listing entry3) (be32 5) ≡ none)
  unfolding handle_readdir create_bare_error_response pack_status create_success_reply_with_data
  handle_readdir-bare args_data args s e parsed gone = (
    rw (parsed, gone)
        (rw (lawful.pack_i32_lem 5 (omega arith), header_lem x lawful small)
          (ap (λ t. ok (reply_header (accepted_reply xid success) ++ t)) (append-nil (be32 5)))),
    ap (skip (listing entry3)) (sym (append-nil (be32 5))) ∙ skip-bare_status entry3,
  )
