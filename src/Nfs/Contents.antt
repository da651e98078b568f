-- ===== src/Nfs/Contents.antt =====
-- A READ call after a WRITE call, src/nfs/read.rs and src/nfs/write.rs over the local filesystem.
use arcticwolf.Base.{
  ◌⊎◌, ℕ, ◌≤◌, ◌%◌, ◌^◌, ◌<◌, ◌≡◌, refl, sym, ◌∙◌, ap, true, some, [], ◌∷◌, length, take, ok, inl,
  inr, Result, Result-cases,
}
use arcticwolf.Base.Kept.{Kept, kept, Kept-then}
use arcticwolf.Base.Text.{Bytes}
use arcticwolf.Fsal.FilePath.{FilePath}
use arcticwolf.Fsal.Os.{Os}
use arcticwolf.Fsal.Types.{FileAttributes}
use arcticwolf.Fsal.Handle.{FileHandle}
use arcticwolf.Fsal.Local.{Local, resolve_handle}
use arcticwolf.Fsal.Local.Operations.{read, write, getattr}
use arcticwolf.Fsal.Local.Backend.{local_filesystem}
use arcticwolf.Fsal.Local.Contents.{IsDisk, read-write}
use arcticwolf.Protocol.Nfs.{Read3args, Write3args, nfs3_ok}
use arcticwolf.Protocol.Xdr.{Xdr}
use arcticwolf.Nfs.Wire.{fsal_to_fattr3, pack_status, pack_opaque, reply_with}
use arcticwolf.Nfs.Query.{handle_read, reaches_end}
use arcticwolf.Nfs.Change.{handle_write}

module _ (O : Os) where
  getattr-Kept :
      {P : Local O → Type 0} (h : FileHandle) (l : Local O) → P l → Kept P (getattr O h l)
  unfolding getattr
  getattr-Kept h l p = search (Kept-then, kept)

  getattr_keeps : (h : FileHandle) (l : Local O) → (getattr O h l).0 ≡ l
  getattr_keeps h l = (getattr-Kept {P = λ t. t ≡ l} h l refl).state

module _ (x : Xdr) (xid : ℕ) where
  -- What READ sends of the contents that it got.
  abbrev pub read_reply : ℕ → FileAttributes → Bytes → Result Bytes
  read_reply offset attrs found =
      let n = length found % 2 ^ 32 in
      reply_with x xid (
        pack_status x nfs3_ok
        ∷ x.pack_bool true
        ∷ x.pack_fattr3 (fsal_to_fattr3 attrs)
        ∷ x.pack_u32 n
        ∷ x.pack_bool (reaches_end offset n attrs.size)
        ∷ pack_opaque x found
        ∷ [])

module _ (x : Xdr) (O : Os) where
  -- WRITE leaves what the backend's write leaves.
  handle_write_leaves :
      (xid : ℕ) (args_data : Bytes) (args : Write3args) (l : Local O)
      → x.unpack_write3args args_data ≡ ok args
      → (handle_write x (local_filesystem O) xid args_data l).0
        ≡ (write O args.file args.offset args.contents l).0
  unfolding handle_write
  handle_write_leaves xid args_data args l parsed =
      let l' = (write O args.file args.offset args.contents l).0 in
      rw (parsed, getattr_keeps O args.file l)
        (elim (Result-cases (write O args.file args.offset args.contents l).1) [
          | inr (e, failed) ↦ rw failed refl
          | inl (n, wrote) ↦ rw wrote (elim (Result-cases (getattr O args.file l').1) [
            | inr (e, failed) ↦ rw failed (getattr_keeps O args.file l')
            | inl (attrs, seen) ↦ rw seen (getattr_keeps O args.file l')
          ])
        ])

  handle_read_replies :
      (xid : ℕ) (args_data : Bytes) (args : Read3args) (l : Local O) (found : Bytes)
      (attrs : FileAttributes)
      → x.unpack_read3args args_data ≡ ok args
      → (read O args.file args.offset args.count l).1 ≡ ok found
      → (getattr O args.file (read O args.file args.offset args.count l).0).1 ≡ ok attrs
      → (handle_read x (local_filesystem O) xid args_data l).1
        ≡ read_reply x xid args.offset attrs found
  unfolding handle_read
  handle_read_replies xid args_data args l found attrs parsed got seen = rw (parsed, got, seen) refl

  -- After a WRITE call of which the local filesystem takes so many bytes, a READ call for as many
  -- at the same offset, for which the file is read and its attributes are found, is answered with
  -- the status NFS3_OK and those bytes or the first of them, at least one if any were written: on
  -- a disk that keeps the contents of its files, where both calls parse, the handle is that of a
  -- regular file and the data are shorter than 2 ^ 32 bytes.
  pub handle_read-handle_write :
      (disk : IsDisk O) (xid xid' : ℕ) (write_data read_data : Bytes) (args : Write3args)
      → (l l' : Local O) (p : FilePath) (c : Bytes) (n : ℕ) (found : Bytes) (attrs : FileAttributes)
      → length args.contents < 2 ^ 32
      → x.unpack_write3args write_data ≡ ok args
      → x.unpack_read3args read_data
        ≡ ok (record { file = args.file; offset = args.offset; count = n })
      → resolve_handle O args.file l ≡ ok p
      → disk.contents l.disk p ≡ some c
      → (write O args.file args.offset args.contents l).1 ≡ ok n
      → (handle_write x (local_filesystem O) xid write_data l).0 ≡ l'
      → (read O args.file args.offset n l').1 ≡ ok found
      → (getattr O args.file (read O args.file args.offset n l').0).1 ≡ ok attrs
      → ((handle_read x (local_filesystem O) xid' read_data l').1
          ≡ read_reply x xid' args.offset attrs (take (length found) args.contents))
        × (length found ≤ n)
        × ((n ≡ 0) ⊎ (0 < length found))
  handle_read-handle_write disk xid xid' write_data read_data args l l' p c n found attrs small
        parsed asked at has wrote next got seen =
      let left = sym (handle_write_leaves xid write_data args l parsed) ∙ next in
      let got' = ap (λ t. (read O args.file args.offset n t).1) left ∙ got in
      let (_, few, same, some_of) =
        read-write O disk args.file args.offset args.contents l p c n found small at has wrote
          got' in
      (
        handle_read_replies xid' read_data _ l' found attrs asked got seen
            ∙ ap (read_reply x xid' args.offset attrs) same,
        few,
        some_of,
      )
