-- ===== src/Nfs/Kept/Listing.antt =====
-- What READDIR and READDIRPLUS keep.
use arcticwolf.Base.{ℕ, List, [], ◌∷◌}
use arcticwolf.Base.Kept.{Kept, kept, Kept-then, Kept-result}
use arcticwolf.Base.Text.{Bytes}
use arcticwolf.Fsal.Filesystem.{Filesystem}
use arcticwolf.Fsal.Types.{DirEntry}
use arcticwolf.Protocol.Xdr.{Xdr, pack_all}
use arcticwolf.Nfs.Listing.{
  next_cookie, entry_parts, entry_extras, listing_header, plus_entries, handle_readdir,
  handle_readdirplus,
}
use arcticwolf.Nfs.Kept.{IsKept}

module _ (x : Xdr) (F : Filesystem) {P : F.State → Type 0} (k : IsKept F P) (xid : ℕ) where
  extras-Kept :
      (dir : Bytes) (e : DirEntry) {s : F.State} (p : P s) → Kept P (entry_extras x F xid dir e s)
  unfolding entry_extras
  extras-Kept dir e {s} p =
      let q = k.lookup dir e.name s p in
      Kept-result (F.lookup dir e.name s).1 _ _
        (λ h.
          let r = k.getattr h _ q in Kept-result (F.getattr h _).1 _ _ (λ t. kept r) (λ e. kept r))
        (λ e. kept q)

  entries-Kept :
      (dir : Bytes) (cookie : ℕ) (entries : List DirEntry) {s : F.State} (p : P s)
      → Kept P (plus_entries x F xid dir cookie entries s)
  unfolding plus_entries
  entries-Kept dir cookie [] p = kept p
  entries-Kept dir cookie (e ∷ es) {s} p =
      Kept-then (pack_all (entry_parts x (next_cookie cookie) e)) _ p λ head.
        let q = (extras-Kept dir e p).state in
        Kept-then (entry_extras x F xid dir e s).1 _ q λ extras.
          let r = (entries-Kept dir (next_cookie cookie) es q).state in
          Kept-then (plus_entries x F xid dir (next_cookie cookie) es _).1 _ r λ tail. kept r

  module _ (args : Bytes) {s : F.State} (p : P s) where
    pub readdir-Kept : Kept P (handle_readdir x F xid args s)
    unfolding handle_readdir
    readdir-Kept = Kept-then (x.unpack_readdir3args args) _ p λ a.
        let q = k.getattr a.dir s p in
        let r = k.readdir a.dir a.cookie a.count _ q in
        Kept-result (F.getattr a.dir s).1 _ _
          (λ t.
            Kept-result (F.readdir a.dir a.cookie a.count _).1 _ _ (λ listed. kept r) (λ e. kept r))
          (λ e. kept q)

    pub readdirplus-Kept : Kept P (handle_readdirplus x F xid args s)
    unfolding handle_readdirplus
    readdirplus-Kept = Kept-then (x.unpack_readdirplus3args args) _ p λ a.
        let q = k.getattr a.dir s p in
        let r = k.readdir a.dir a.cookie a.dircount _ q in
        Kept-result (F.getattr a.dir s).1 _ _
          (λ t.
            Kept-result (F.readdir a.dir a.cookie a.dircount _).1 _ _
              (λ found. Kept-then (pack_all (listing_header x t)) _ r λ header.
                let u = (entries-Kept a.dir a.cookie found.0 r).state in
                Kept-then (plus_entries x F xid a.dir a.cookie found.0 _).1 _ u λ listed. kept u)
              (λ e. kept r))
          (λ e. kept q)
