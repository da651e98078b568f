-- ===== src/Nfs/Listing.antt =====
-- READDIR and READDIRPLUS (src/nfs/readdir.rs, src/nfs/readdirplus.rs).
use arcticwolf.Base.{
  ℕ, ◌+◌, ◌%◌, ◌^◌, true, false, List, [], ◌∷◌, ◌++◌, replicate, Result, ok, err, M, pure, lift,
  attempt, ◌>>=◌,
}
use arcticwolf.Base.Text.{Bytes}
use arcticwolf.Fsal.Types.{DirEntry, FileAttributes}
use arcticwolf.Fsal.Filesystem.{Filesystem}
use arcticwolf.Protocol.Nfs.{nfs3_ok, nfs3err_io}
use arcticwolf.Protocol.Xdr.{Xdr, pack_all}
use arcticwolf.Nfs.Wire.{fsal_to_fattr3, pack_status, reply_with}
use arcticwolf.Nfs.Codec.{
  deserialize_readdir3args, deserialize_readdirplus3args, create_readdir_error_response,
  create_readdirplus_error_response,
}
use arcticwolf.Nfs.Query.{answer}

abbrev pub cookieverfsize : ℕ
cookieverfsize = 8

-- `cookie_counter += 1`
abbrev pub next_cookie : ℕ → ℕ
next_cookie cookie = (cookie + 1) % 2 ^ 64

module _ (x : Xdr) where
  -- An entry up to its cookie.
  unfoldable pub entry_parts : ℕ → DirEntry → List (Result Bytes)
  entry_parts cookie e =
      x.pack_bool true ∷ x.pack_u64 e.fileid ∷ x.pack_filename3 e.name ∷ x.pack_u64 cookie ∷ []

  -- The loop of READDIR, with the cookie before the first entry.
  unfoldable pub entries_parts : ℕ → List DirEntry → List (Result Bytes)
  unfolding entry_parts
  entries_parts cookie [] = []
  entries_parts cookie (e ∷ es) =
      entry_parts (next_cookie cookie) e ++ entries_parts (next_cookie cookie) es

  -- The status, the directory's attributes and the verifier.
  abbrev pub listing_header : FileAttributes → List (Result Bytes)
  listing_header dir_attr =
      pack_status x nfs3_ok
      ∷ x.pack_bool true
      ∷ x.pack_fattr3 (fsal_to_fattr3 dir_attr)
      ∷ x.pack_cookieverf3 (replicate cookieverfsize 0)
      ∷ []

module _ (x : Xdr) (F : Filesystem) (xid : ℕ) where
  unfoldable pub handle_readdir : Bytes → M F.State Bytes
  handle_readdir args_data = do
    args ← lift (deserialize_readdir3args x args_data)
    attrs ← attempt (F.getattr args.dir)
    elim attrs [
      | err e ↦ answer x F xid (create_readdir_error_response x nfs3err_io)
      | ok dir_attr ↦ do
        result ← attempt (F.readdir args.dir args.cookie args.count)
        elim result [
          | err e ↦ answer x F xid (create_readdir_error_response x nfs3err_io)
          | ok (entries, eof) ↦ lift (
              reply_with x xid (
                pack_status x nfs3_ok
                ∷ x.pack_bool true
                ∷ x.pack_fattr3 (fsal_to_fattr3 dir_attr)
                ∷ x.pack_cookieverf3 (replicate cookieverfsize 0)
                ∷ (entries_parts x args.cookie entries
                    ++ (x.pack_bool false ∷ x.pack_bool eof ∷ []))))
        ]
    ]

  -- The attributes and the handle of one entry of READDIRPLUS, or neither.
  unfoldable pub entry_extras : Bytes → DirEntry → M F.State Bytes
  entry_extras dir e = do
    found ← attempt (F.lookup dir e.name)
    elim found [
      | err e ↦ lift (pack_all (x.pack_bool false ∷ x.pack_bool false ∷ []))
      | ok entry_handle ↦ do
        attrs ← attempt (F.getattr entry_handle)
        elim attrs [
          | err e ↦ lift (pack_all (x.pack_bool false ∷ x.pack_bool false ∷ []))
          | ok entry_attr ↦ lift (
              pack_all (
                x.pack_bool true
                ∷ x.pack_fattr3 (fsal_to_fattr3 entry_attr)
                ∷ x.pack_bool true
                ∷ x.pack_fhandle3 entry_handle
                ∷ []))
        ]
    ]

  -- The loop of READDIRPLUS looks each entry up while it writes.
  unfoldable pub plus_entries : Bytes → ℕ → List DirEntry → M F.State Bytes
  unfolding entry_extras
  plus_entries dir cookie [] = pure []
  plus_entries dir cookie (e ∷ es) =
      let rest = plus_entries dir (next_cookie cookie) es in
      do
        head ← lift (pack_all (entry_parts x (next_cookie cookie) e))
        extras ← entry_extras dir e
        tail ← rest
        pure (head ++ (extras ++ tail))

  unfoldable pub handle_readdirplus : Bytes → M F.State Bytes
  unfolding plus_entries
  handle_readdirplus args_data = do
    args ← lift (deserialize_readdirplus3args x args_data)
    attrs ← attempt (F.getattr args.dir)
    elim attrs [
      | err e ↦ answer x F xid (create_readdirplus_error_response x nfs3err_io)
      | ok dir_attr ↦ do
        result ← attempt (F.readdir args.dir args.cookie args.dircount)
        elim result [
          | err e ↦ answer x F xid (create_readdirplus_error_response x nfs3err_io)
          | ok (entries, eof) ↦ do
            header ← lift (pack_all (listing_header x dir_attr))
            listed ← plus_entries args.dir args.cookie entries
            lift (
                reply_with x xid (ok header ∷ ok listed ∷ x.pack_bool false ∷ x.pack_bool eof ∷ []))
        ]
    ]
