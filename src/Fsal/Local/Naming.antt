-- ===== src/Fsal/Local/Naming.antt =====
-- The handles that the operations of src/fsal/local/mod.rs give for a name.
use arcticwolf.Base.{
  ℕ, ◌≡◌, refl, sym, ◌∙◌, ap, some, Option-cases, ok, err, inl, inr, M, then_on, subst, Result,
  arith,
}
use Prim.Native.String.{String}
use arcticwolf.Base.Text.{Text}
use arcticwolf.Fsal.FilePath.{FilePath, join, path_eq_refl}
use arcticwolf.Fsal.Os.{Os}
use arcticwolf.Fsal.Handle.{FileHandle, create_handle, lookup_path, HandleManager}
use arcticwolf.Fsal.Handle.Invariant.{HasRoom, IsValid}
use arcticwolf.Fsal.Handle.Laws.{lookup_path-create_handle, create_handle_again}
use arcticwolf.Fsal.Local.{Local, checked_path, resolve_handle}
use arcticwolf.Fsal.Local.Operations.{lookup, create, mkdir, symlink, mknod, make_node}
use arcticwolf.Fsal.Types.{FileType}
use arcticwolf.Fsal.Local.Kept.{make_node-Kept}

-- The operations that give a handle for a name in a directory.
pub data Naming : Type 0 where
  by_lookup : Naming
  by_create by_mkdir : ℕ → Naming
  by_symlink : Text → Naming
  by_mknod : FileType → ℕ → ℕ × ℕ → Naming

-- The handle table is this.
record HasTable (O : Os) (m : HandleManager) (l : Local O) : Type 0 where
  same : l.handle_manager ≡ m

module _ (O : Os) where
  abbrev pub name_it : Naming → FileHandle → Text → M (Local O) FileHandle
  name_it by_lookup dir name = lookup O dir name
  name_it (by_create mode) dir name = create O dir name mode
  name_it (by_mkdir mode) dir name = mkdir O dir name mode
  name_it (by_symlink target) dir name = symlink O dir name target
  name_it (by_mknod file_type mode rdev) dir name = mknod O dir name file_type mode rdev

  -- If it succeeds, the operation has issued the handle of this path, and returns it.
  record Issues (path : FilePath) (m : HandleManager) (t : Local O × Result FileHandle)
      : Type 0 where
    issued :
        (h : FileHandle)
        → t.1 ≡ ok h
        → (t.0.handle_manager ≡ (create_handle O.path_hash path m).0)
          × (h ≡ (create_handle O.path_hash path m).1)

  Issues-then :
      {A : Type 0} {path : FilePath} {m : HandleManager} {s : Local O} (r : Result A)
      → (k : A → M (Local O) FileHandle) → ((a : A) → Issues path m (k a s))
      → Issues path m (then_on (s, r) k)
  Issues-then (ok a) k each = each a
  Issues-then (err e) k each = record { issued = λ h e. absurd (cc) }

  Issues-end :
      (path root_path : FilePath) (m : HandleManager) (root : FileHandle) (d : O.State)
      → Issues path m (
        record {
          root_path = root_path;
          handle_manager = (create_handle O.path_hash path m).0;
          root_handle = root;
          disk = d;
        },
        ok (create_handle O.path_hash path m).1,
      )
  Issues-end path root_path m root d = record { issued = λ h e. (refl, ground (arith, e)) }

  -- The same of an operation on a name, whose path is the name's in the directory.
  pub record Names (dir : FileHandle) (name : Text) (l : Local O) (t : Local O × Result FileHandle)
      : Type 0 where
    pub named :
        (h : FileHandle)
        → t.1 ≡ ok h
        → (d : FilePath) × (resolve_handle O dir l ≡ ok d)
          × (t.0.handle_manager ≡ (create_handle O.path_hash (join d name) l.handle_manager).0)
          × (h ≡ (create_handle O.path_hash (join d name) l.handle_manager).1)

  Names-then :
      {A : Type 0} {dir : FileHandle} {name : Text} {l s : Local O} (r : Result A)
      → (k : A → M (Local O) FileHandle) → ((a : A) → r ≡ ok a → Names dir name l (k a s))
      → Names dir name l (then_on (s, r) k)
  Names-then (ok a) k each = each a refl
  Names-then (err e) k each = record { named = λ h e. absurd (cc) }

  Names-at :
      {dir : FileHandle} {name : Text} {l : Local O} {t : Local O × Result FileHandle}
      {d : FilePath}
      → (p : FilePath) → resolve_handle O dir l ≡ ok d
      → p ≡ join d name
      → Issues p l.handle_manager t
      → Names dir name l t
  Names-at {l} {t} {d} p found same i = record {
    named = λ h e.
        let (table, handle) = i.issued h e in
        (
          d,
          found,
          subst (λ q. t.0.handle_manager ≡ (create_handle O.path_hash q l.handle_manager).0) same
              table,
          subst (λ q. h ≡ (create_handle O.path_hash q l.handle_manager).1) same handle,
        );
  }

  pub checked_path-ok :
      (invalid : String) (d : FilePath) (name : Text) (l : Local O) (p : FilePath)
      → checked_path O invalid d name l ≡ ok p
      → p ≡ join d name
  unfolding checked_path
  checked_path-ok invalid d name l p e = ground (arith, e)

  module _ (dir : FileHandle) (name : Text) (l : Local O) where
    lookup-Names : Names dir name l (lookup O dir name l)
    unfolding lookup
    lookup-Names = Names-then (resolve_handle O dir l) _ λ d found.
        Names-then (checked_path O "Invalid filename" d name l) _ λ p checked.
          Names-at p found (checked_path-ok "Invalid filename" d name l p checked)
            (search (Issues-then, Issues-end))

    create-Names : (mode : ℕ) → Names dir name l (create O dir name mode l)
    unfolding create
    create-Names mode = Names-then (resolve_handle O dir l) _ λ d found.
        Names-then (checked_path O "Invalid filename" d name l) _ λ p checked.
          Names-at p found (checked_path-ok "Invalid filename" d name l p checked)
            (search (Issues-then, Issues-end))

    mkdir-Names : (mode : ℕ) → Names dir name l (mkdir O dir name mode l)
    unfolding mkdir
    mkdir-Names mode = Names-then (resolve_handle O dir l) _ λ d found.
        Names-then (checked_path O "Invalid directory name" d name l) _ λ p checked.
          Names-at p found (checked_path-ok "Invalid directory name" d name l p checked)
            (search (Issues-then, Issues-end))

    pub symlink-Names : (target : Text) → Names dir name l (symlink O dir name target l)
    unfolding symlink
    symlink-Names target = Names-then (resolve_handle O dir l) _ λ d found.
        Names-then (checked_path O "Invalid symlink name" d name l) _ λ p checked.
          Names-at p found (checked_path-ok "Invalid symlink name" d name l p checked)
            (search (Issues-then, Issues-end))

    mknod-Names :
        (file_type : FileType) (mode : ℕ) (rdev : ℕ × ℕ)
        → Names dir name l (mknod O dir name file_type mode rdev l)
    unfolding mknod
    mknod-Names file_type mode rdev = Names-then (resolve_handle O dir l) _ λ d found.
        let q =
          (make_node-Kept O {P = HasTable O l.handle_manager} (λ d l p. record { same = p.same })
            file_type (join d name) mode rdev l (record { same = refl })).state in
        Names-then (make_node O file_type (join d name) mode rdev l).1 _ λ u done.
          Names-at (join d name) found refl (record {
            issued = λ h e. (
              ap (λ m. (create_handle O.path_hash (join d name) m).0) q.same,
              ground (arith, e, q.same),
            );
          })

    pub name_it-Names : (op : Naming) → Names dir name l (name_it op dir name l)
    name_it-Names by_lookup = lookup-Names
    name_it-Names (by_create mode) = create-Names mode
    name_it-Names (by_mkdir mode) = mkdir-Names mode
    name_it-Names (by_symlink target) = symlink-Names target
    name_it-Names (by_mknod file_type mode rdev) = mknod-Names file_type mode rdev

  pub resolved_path :
      (h : FileHandle) (l : Local O) (d : FilePath)
      → resolve_handle O h l ≡ ok d
      → lookup_path h l.handle_manager ≡ some d
  unfolding resolve_handle
  resolved_path h l d e = elim (Option-cases (lookup_path h l.handle_manager)) [
    | inl absent ↦ absurd (ground (arith, e, absent))
    | inr (q, found) ↦ ground (arith, e, found)
  ]

  -- A name that LOOKUP, CREATE, MKDIR, SYMLINK or MKNOD has given a handle for is given the same
  -- handle by a LOOKUP right after it that succeeds, where the handle table is valid and its
  -- counter has room.
  pub lookup-name_it :
      (op : Naming) (dir : FileHandle) (name : Text) (l : Local O) (h h' : FileHandle)
      → IsValid l.handle_manager
      → HasRoom l.handle_manager
      → (name_it op dir name l).1 ≡ ok h
      → (lookup O dir name (name_it op dir name l).0).1 ≡ ok h'
      → h' ≡ h
  unfolding lookup_path
  lookup-name_it op dir name l h h' v room e e' =
      let l' = (name_it op dir name l).0 in
      let (d, found, table, handle) = (name_it-Names dir name l op).named h e in
      let (d', found', table', handle') = (lookup-Names dir name l').named h' e' in
      let at = resolved_path dir l d found in
      let at' = resolved_path dir l' d' found' in
      let made = create_handle O.path_hash (join d name) l.handle_manager in
      let kept =
        lookup_path-create_handle O.path_hash (join d name) l.handle_manager v dir room
          (v.issued dir d at).1 in
      let at_made : lookup_path dir made.0 ≡ some d' =
        subst (λ m. lookup_path dir m ≡ some d') table at' in
      let same : d' ≡ d = ground (arith, at_made, kept, at) in
      let again =
        create_handle_again O.path_hash (join d name) l.handle_manager (join d name)
          (path_eq_refl (join d name)) in
      handle'
      ∙ ap (λ m. (create_handle O.path_hash (join d' name) m).1) table
      ∙ ap (λ q. (create_handle O.path_hash (join q name) made.0).1) same
      ∙ ap (λ t. t.1) again
      ∙ sym handle
