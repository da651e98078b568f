-- ===== src/Nfs/Layout/Listing.antt =====
-- The layout of what READDIR and READDIRPLUS answer.
use arcticwolf.Base.{
  ℕ, ◌^◌, ◌<◌, ◌≡◌, sym, subst, ap, ◌∙◌, some, true, false, List, [], ◌∷◌, ◌++◌, append_assoc,
  append-nil, ◌⊎◌, inl, inr, Result, ok, Result-cases, arith,
}
use arcticwolf.Base.Returns.{Returns, Returns-then, Returns-bound, Returns-call, Returns-map}
use arcticwolf.Base.Text.{Bytes}
use arcticwolf.Base.Words.{be32}
use arcticwolf.Fsal.Filesystem.{Filesystem}
use arcticwolf.Fsal.Types.{DirEntry}
use arcticwolf.Protocol.Nfs.{nfs3err_io}
use arcticwolf.Protocol.Xdr.{Xdr, IsXdr, pack_all}
use arcticwolf.Nfs.Layout.{
  Layout, list, done, hyper, opaque, post_op_attr, post_op_fh3, entry3, entryplus3, listing, skip,
}
use arcticwolf.Nfs.Layout.Parts.{
  IsSized, Makes, Makes-flat, Makes-unflat, Makes-u64, Makes-filename3, Makes-done, Makes-fattr3,
  Makes-cookieverf3, Makes-fhandle3,
}
use arcticwolf.Nfs.Layout.Values.{Makes-ok, Makes-present, Makes-bool, Makes-absent}
use arcticwolf.Nfs.Layout.Reading.{pack_all-cons, pack_all_flat, skip_done}
use arcticwolf.Nfs.Layout.Entries.{BeginsList, nil-BeginsList, entry-BeginsList, Makes-list}
use arcticwolf.Nfs.Layout.Answer.{IsLaidOut, IsBareFailure, laid_reply, bare_error}
use arcticwolf.Nfs.Layout.Failure.{failure}
use arcticwolf.Nfs.Wire.{fsal_to_fattr3}
use arcticwolf.Nfs.Listing.{
  next_cookie, entry_parts, entries_parts, listing_header, entry_extras, plus_entries,
  handle_readdir, handle_readdirplus,
}

module _ (x : Xdr) (lawful : IsXdr x) (sized : IsSized x) where
  -- What is packed for an entry begins with a Boolean, and the entry is behind it.
  split_entry :
      (cookie : ℕ) (e : DirEntry) (head : Bytes)
      → pack_all (entry_parts x cookie e) ≡ ok head
      → (c : Bytes) × (head ≡ be32 1 ++ c)
        × (pack_all (x.pack_u64 e.fileid ∷ x.pack_filename3 e.name ∷ x.pack_u64 cookie ∷ []) ≡ ok c)
  unfolding entry_parts
  split_entry cookie e head h =
      let (c, d, made, packed, whole) =
        pack_all-cons (x.pack_bool true)
          (x.pack_u64 e.fileid ∷ x.pack_filename3 e.name ∷ x.pack_u64 cookie ∷ []) head h in
      (d, ground (arith, made, whole, lawful.pack_bool_lem true), packed)

  -- What is packed for an entry, and its attributes and handle if there are any, begin a list.
  head-BeginsList :
      (l : Layout) (cookie : ℕ) (e : DirEntry) (head extras b : Bytes)
      → pack_all (entry_parts x cookie e) ≡ ok head
      → ((d : Bytes) → skip l (extras ++ d) ≡ some d)
      → BeginsList (hyper (opaque (hyper l))) b
      → BeginsList (hyper (opaque (hyper l))) (head ++ (extras ++ b))
  head-BeginsList l cookie e head extras b h whole begun =
      let (c, shape, packed) = split_entry cookie e head h in
      let last : Makes l (ok extras ∷ []) = record {
        read_back = λ bytes d made.
            ap (λ t. skip l (t ++ d)) (ground (arith, made, append-nil extras)) ∙ whole d;
      } in
      let makes : Makes (hyper (opaque (hyper l)))
          (x.pack_u64 e.fileid ∷ x.pack_filename3 e.name ∷ x.pack_u64 cookie ∷ ok extras ∷ []) =
        Makes-u64 x sized e.fileid
          (Makes-filename3 x sized e.name (Makes-u64 x sized cookie last)) in
      let built =
        sym (
          pack_all_flat (x.pack_u64 e.fileid ∷ x.pack_filename3 e.name ∷ x.pack_u64 cookie ∷ [])
            (ok extras ∷ []))
        ∙ ap (λ t. pack_all (t ∷ ok extras ∷ [])) packed
        ∙ ap (λ t. ok (c ++ t)) (append-nil extras) in
      subst (BeginsList (hyper (opaque (hyper l))))
        (ground (arith, shape, append_assoc (be32 1) c (extras ++ b), append_assoc c extras b))
        (entry-BeginsList (c ++ extras) b (λ d. makes.read_back (c ++ extras) d built) begun)

  entries-BeginsList :
      (cookie : ℕ) (es : List DirEntry) (b : Bytes)
      → pack_all (entries_parts x cookie es) ≡ ok b
      → BeginsList entry3 b
  unfolding entries_parts
  entries-BeginsList cookie [] b h = subst (BeginsList entry3) (ground (arith, h)) nil-BeginsList
  entries-BeginsList cookie (e ∷ es) b h =
      let first = entry_parts x (next_cookie cookie) e in
      let (head, tail, made, packed, whole) =
        pack_all-cons (pack_all first) (entries_parts x (next_cookie cookie) es) b
          (pack_all_flat first (entries_parts x (next_cookie cookie) es) ∙ h) in
      subst (BeginsList entry3) (sym whole) (
        head-BeginsList done (next_cookie cookie) e head [] tail made skip_done
          (entries-BeginsList (next_cookie cookie) es tail packed))

-- A listing as RFC 1813 has it, or a status of failure alone.
abbrev pub IsListed : ℕ → Layout → Bytes → Type 0
IsListed xid entry bytes = IsLaidOut xid (listing entry) bytes ⊎ IsBareFailure xid bytes

-- What an entry's attributes and handle are packed as.
record IsExtras (b : Bytes) : Type 0 where
  skipped : (d : Bytes) → skip (post_op_attr (post_op_fh3 done)) (b ++ d) ≡ some d

module _ (x : Xdr) (lawful : IsXdr x) (sized : IsSized x) (F : Filesystem) {xid : ℕ}
    (small : xid < 2 ^ 32) where
  Makes-entries :
      (cookie : ℕ) (es : List DirEntry) {l : Layout} {rs : List (Result Bytes)}
      → Makes l rs
      → Makes (list entry3 l) (entries_parts x cookie es ++ (x.pack_bool false ∷ rs))
  Makes-entries cookie es {l} {rs} m =
      Makes-unflat (entries_parts x cookie es)
        (elim (Result-cases (pack_all (entries_parts x cookie es))) [
          | inl (b, h) ↦
              subst (λ r. Makes (list entry3 l) (r ∷ x.pack_bool false ∷ rs)) (sym h)
                (Makes-list x lawful b (entries-BeginsList x lawful sized cookie es b h) m)
          | inr (f, h) ↦ record { read_back = λ b d e. absurd (ground (arith, e, h)) }
        ])

  pub readdir_laid :
      (args : Bytes) (s : F.State) → Returns (IsListed xid entry3) (handle_readdir x F xid args s)
  unfolding handle_readdir
  readdir_laid args s = Returns-then s (x.unpack_readdir3args args) _ λ a.
      Returns-call (F.getattr a.dir) s _ _
        (λ t _.
          Returns-call (F.readdir a.dir a.cookie a.count) _ _ _
            (λ found _.
              Returns-map (λ b. inl)
                (laid_reply x lawful small (
                  Makes-ok x lawful (
                    Makes-present x lawful (Makes-fattr3 x sized _ Makes-done) (
                      Makes-cookieverf3 x sized _ (
                        Makes-entries a.cookie found.0
                          (Makes-bool x lawful found.1 Makes-done)))))))
            (λ e.
              Returns-map (λ b. inr)
                (bare_error x lawful small _ nfs3err_io (failure (omega arith)))))
        (λ e.
          Returns-map (λ b. inr) (bare_error x lawful small _ nfs3err_io (failure (omega arith))))

  packed-IsExtras :
      (s : F.State) (ps : List (Result Bytes))
      → Makes (post_op_attr (post_op_fh3 done)) ps
      → Returns IsExtras (s, pack_all ps)
  packed-IsExtras s ps m = record { result_of = λ b e. record { skipped = λ d. m.read_back b d e } }

  entry_extras-IsExtras :
      (dir : Bytes) (e : DirEntry) (s : F.State) → Returns IsExtras (entry_extras x F xid dir e s)
  unfolding entry_extras
  entry_extras-IsExtras dir e s =
      let neither : Makes (post_op_attr (post_op_fh3 done))
          (x.pack_bool false ∷ x.pack_bool false ∷ []) =
        Makes-absent x lawful (Makes-absent x lawful Makes-done) in
      Returns-call (F.lookup dir e.name) s _ _
        (λ h _.
          Returns-call (F.getattr h) _ _ _
            (λ t _.
              packed-IsExtras _
                (x.pack_bool true
                  ∷ x.pack_fattr3 (fsal_to_fattr3 t)
                  ∷ x.pack_bool true
                  ∷ x.pack_fhandle3 h
                  ∷ [])
                (Makes-present x lawful (Makes-fattr3 x sized _ Makes-done)
                  (Makes-present x lawful (Makes-fhandle3 x sized h Makes-done) Makes-done)))
            (λ e. packed-IsExtras _ _ neither))
        (λ e. packed-IsExtras _ _ neither)

  plus_entries-BeginsList :
      (dir : Bytes) (cookie : ℕ) (es : List DirEntry) (s : F.State)
      → Returns (BeginsList entryplus3) (plus_entries x F xid dir cookie es s)
  unfolding plus_entries
  plus_entries-BeginsList dir cookie [] s = record {
    result_of = λ b e. subst (BeginsList entryplus3) (ground (arith, e)) nil-BeginsList;
  }
  plus_entries-BeginsList dir cookie (e ∷ es) s =
      let next = next_cookie cookie in
      Returns-bound s (pack_all (entry_parts x next e)) _ λ head made.
        let (t, extras) = entry_extras x F xid dir e s in
        Returns-bound t extras _ λ extra found.
          let (u, rest) = plus_entries x F xid dir next es t in
          Returns-bound u rest _ λ tail listed. record {
            result_of = λ b h. subst (BeginsList entryplus3) (ground (arith, h)) (
                head-BeginsList x lawful sized (post_op_attr (post_op_fh3 done)) next e head extra
                  tail made ((entry_extras-IsExtras dir e s).result_of extra found).skipped
                  ((plus_entries-BeginsList dir next es t).result_of tail listed));
          }

  pub readdirplus_laid :
      (args : Bytes) (s : F.State)
      → Returns (IsListed xid entryplus3) (handle_readdirplus x F xid args s)
  unfolding handle_readdirplus
  readdirplus_laid args s = Returns-then s (x.unpack_readdirplus3args args) _ λ a.
      Returns-call (F.getattr a.dir) s _ _
        (λ t _.
          Returns-call (F.readdir a.dir a.cookie a.dircount) _ _ _
            (λ found _. Returns-bound _ (pack_all (listing_header x t)) _ λ header packed.
              let (u, listed) = plus_entries x F xid a.dir a.cookie found.0 _ in
              Returns-bound u listed _ λ entries h.
                Returns-map (λ b. inl)
                  (laid_reply x lawful small (
                    subst
                      (λ r.
                        Makes (listing entryplus3)
                          (r ∷ ok entries ∷ x.pack_bool false ∷ x.pack_bool found.1 ∷ []))
                      packed
                      (Makes-flat (listing_header x t) (
                        Makes-ok x lawful (
                          Makes-present x lawful (Makes-fattr3 x sized _ Makes-done) (
                            Makes-cookieverf3 x sized _ (
                              Makes-list x lawful entries
                                ((plus_entries-BeginsList a.dir a.cookie found.0 _).result_of
                                  entries h)
                                (Makes-bool x lawful found.1 Makes-done)))))))))
            (λ e.
              Returns-map (λ b. inr)
                (bare_error x lawful small _ nfs3err_io (failure (omega arith)))))
        (λ e.
          Returns-map (λ b. inr) (bare_error x lawful small _ nfs3err_io (failure (omega arith))))
