-- ===== src/Fsal/Local/Escape.antt =====
-- READ through the handle that SYMLINK gives, in src/fsal/local/mod.rs: the operations on a handle
-- open its path as it is, and so follow a link.
use arcticwolf.Base.{
  ℕ, ◌≡◌, refl, ◌∙◌, ap, true, none, some, ok, subst, then_on, M, Result, err, context, context-ok,
  arith,
}
use arcticwolf.Base.Text.{Text, Bytes, bytes_eq_refl}
use arcticwolf.Fsal.FilePath.{FilePath, join, is_absolute}
use arcticwolf.Fsal.Os.{Os}
use arcticwolf.Fsal.Handle.{FileHandle, HandleManager, create_handle, find_handle, lookup_path}
use arcticwolf.Fsal.Handle.Laws.{create_handle_absent, lookup_path-stored}
use arcticwolf.Fsal.Local.{Local, resolve_handle, checked_path}
use arcticwolf.Fsal.Local.Contents.{IsDisk, IsRead, read_gives}
use arcticwolf.Fsal.Local.Naming.{symlink-Names, checked_path-ok}
use arcticwolf.Fsal.Local.Operations.{read, symlink}

-- POSIX: what is read at a new symbolic link is what is read at its target, an absolute path.
pub record FollowsLinks (O : Os) (disk : IsDisk O) : Type 0 where
  pub link_lem :
      (target : Text) (p : FilePath) (s : O.State) (c : Bytes)
      → is_absolute target ≡ true
      → (O.symlink target p s).1 ≡ ok tt
      → disk.contents s (record { os_str = target }) ≡ some c
      → disk.contents (O.symlink target p s).0 p ≡ some c

-- A handle that is new reads as the very path that it is given for.
create_handle-new :
    (path_hash : FilePath → ℕ) (p : FilePath) (m : HandleManager)
    → find_handle p m ≡ none
    → lookup_path (create_handle path_hash p m).1 (create_handle path_hash p m).0 ≡ some p
create_handle-new path_hash p m absent =
    rw (create_handle_absent path_hash p m absent)
      (lookup_path-stored path_hash p m _ ∙ rw (bytes_eq_refl _) refl)

module _ (O : Os) where
  resolve_known :
      (h : FileHandle) (p : FilePath) (l : Local O)
      → lookup_path h l.handle_manager ≡ some p
      → resolve_handle O h l ≡ ok p
  unfolding resolve_handle
  resolve_known h p l e = rw (e, resolve_handle) refl

  -- Where the operation succeeds, it has made the link, and done nothing else to the disk.
  record Links (target : Text) (p : FilePath) (l : Local O) (t : Local O × Result FileHandle)
      : Type 0 where
    linked :
        (h : FileHandle)
        → t.1 ≡ ok h
        → ((O.symlink target p l.disk).1 ≡ ok tt) × (t.0.disk ≡ (O.symlink target p l.disk).0)

  Links-then :
      {A : Type 0} {target : Text} {p : FilePath} {l s : Local O} (r : Result A)
      → (k : A → M (Local O) FileHandle) → ((a : A) → r ≡ ok a → Links target p l (k a s))
      → Links target p l (then_on (s, r) k)
  Links-then (ok a) k each = each a refl
  Links-then (err e) k each = record { linked = λ h e. absurd (cc) }

  Links-made :
      {target : Text} {p path : FilePath} {l : Local O} (what : Text) (root_path : FilePath)
      → (m : HandleManager) (root : FileHandle) (r : Result FileHandle) → p ≡ path
      → context what (O.symlink target p l.disk).1 ≡ ok tt
      → Links target path l (
        record {
          root_path = root_path;
          handle_manager = m;
          root_handle = root;
          disk = (O.symlink target p l.disk).0;
        },
        r,
      )
  Links-made {target} {p} {path} {l} what root_path m root r same made = record {
    linked = λ h e. (
      subst (λ q. (O.symlink target q l.disk).1 ≡ ok tt) same (context-ok what _ tt made),
      ap (λ q. (O.symlink target q l.disk).0) same,
    );
  }

  symlink-Links :
      (dir : FileHandle) (name target : Text) (l : Local O) (d : FilePath)
      → resolve_handle O dir l ≡ ok d
      → Links target (join d name) l (symlink O dir name target l)
  unfolding symlink
  symlink-Links dir name target l d at = Links-then (resolve_handle O dir l) _ λ q found.
      Links-then (checked_path O "Invalid symlink name" q name l) _ λ p checked.
        let same : p ≡ join d name =
          checked_path-ok O "Invalid symlink name" q name l p checked
          ∙ ap (λ r. join r name) (ground (arith, found, at)) in
        search (Links-then, Links-made)

  -- After SYMLINK of a name to an absolute path, a READ with the handle that it returned, if it
  -- succeeds, returns what is in the file at that path from the offset on, or the first of it, at
  -- least one byte if any is asked for and there, wherever the path is, inside the export root or
  -- not: where the name had no handle before, on a disk that keeps the contents of its files and
  -- follows links.
  pub read-symlink :
      (disk : IsDisk O) (links : FollowsLinks O disk) (dir : FileHandle) (name target : Text)
      → (l : Local O) (d : FilePath) (h : FileHandle) (c b : Bytes) (offset count : ℕ)
      → resolve_handle O dir l ≡ ok d
      → find_handle (join d name) l.handle_manager ≡ none
      → is_absolute target ≡ true
      → disk.contents l.disk (record { os_str = target }) ≡ some c
      → (symlink O dir name target l).1 ≡ ok h
      → (read O h offset count (symlink O dir name target l).0).1 ≡ ok b
      → IsRead c offset count b
  read-symlink disk links dir name target l d h c b offset count at absent absolute has made e =
      let l' = (symlink O dir name target l).0 in
      let (linked, left) = (symlink-Links dir name target l d at).linked h made in
      let (d', at', table, handle) = (symlink-Names O dir name l target).named h made in
      let same : d' ≡ d = ground (arith, at, at') in
      let fresh = create_handle O.path_hash (join d name) l.handle_manager in
      let known : lookup_path h l'.handle_manager ≡ some (join d name) =
        ap (λ m. lookup_path h m) table
        ∙ ap (λ j. lookup_path j (create_handle O.path_hash (join d' name) l.handle_manager).0)
            handle
        ∙ ap
            (λ q.
              lookup_path (create_handle O.path_hash (join q name) l.handle_manager).1
                (create_handle O.path_hash (join q name) l.handle_manager).0)
            same
        ∙ create_handle-new O.path_hash (join d name) l.handle_manager absent in
      let there : disk.contents l'.disk (join d name) ≡ some c =
        ap (λ s. disk.contents s (join d name)) left
        ∙ links.link_lem target (join d name) l.disk c absolute linked has in
      read_gives O disk h offset count l' (join d name) c b (resolve_known h (join d name) l' known)
        there e
