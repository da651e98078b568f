-- ===== src/Fsal/Local/Containment.antt =====
-- The checks of src/fsal/local/mod.rs on names and paths, and the export root.
use arcticwolf.Base.{
  some, List, ◌≢◌, ap, Option-cases, ℕ, ◌++◌, anyhow, ◌≡◌, refl, ◌⊎◌, inl, inr, true, false, ok,
  err, Error, M, ◌>>=◌, Result-cases, Bool-cases, if◌then◌else◌, arith,
}
use Prim.Native.String.{String}
use arcticwolf.Base.Text.{Text, codes, contains, contains-append}
use arcticwolf.Fsal.FilePath.{
  FilePath, join, starts_with, is_absolute, components, parent, file_name, starts_with-components,
}
use arcticwolf.Fsal.Os.{Os}
use arcticwolf.Fsal.Handle.{FileHandle}
use arcticwolf.Fsal.Local.{
  Local, query, is_unsafe_name, canonical_form, validate_path, checked_path, resolve_handle,
}
use arcticwolf.Fsal.Local.Operations.{lookup, create, remove, mkdir, rmdir, symlink, rename, link}

module _ (O : Os) where
  -- The operation returns an error and leaves the handles and the disk alone.
  abbrev pub IsRefused : {A : Type 0} → M (Local O) A → Local O → Type 0
  IsRefused m l = (e : Error) × (m l ≡ (l, err e))

  -- The path as `validate_path` reads it, from the export root.
  abbrev pub from_root : FilePath → Local O → FilePath
  from_root path l = if is_absolute path.os_str then path else join l.root_path path.os_str

  -- The name has no slash and no "..".
  abbrev pub IsPlain : Text → Type 0
  IsPlain name =
      ((a b : Text) → name ≢ a ++ (codes "/" ++ b)) × ((a b : Text) → name ≢ a ++ (codes ".." ++ b))

  -- The components of the path begin with those of the root.
  abbrev pub IsUnder : FilePath → FilePath → Type 0
  IsUnder path root = (rest : List Text) × (components path ≡ components root ++ rest)

  -- As the disk has it: what is at the path has its canonical path under the export root; or nothing
  -- is there, which is also said of a link that leads nowhere, and its parent has.
  abbrev pub IsBelow : FilePath → Local O → Type 0
  IsBelow path l =
      ((O.exists l.disk path ≡ true)
        × (c : FilePath) × (O.canonicalize l.disk path ≡ ok c)
        × IsUnder c l.root_path)
      ⊎ ((O.exists l.disk path ≡ false)
          × (dir : FilePath) × (c : FilePath) × (name : Text) × (parent path ≡ some dir)
          × (O.canonicalize l.disk dir ≡ ok c)
          × IsUnder c l.root_path
          × (file_name path ≡ some name)
          × IsPlain name
          × IsUnder (join c name) l.root_path)

  -- The directory's handle is known, the name is plain, and the path that it makes in the directory
  -- is below the export root.
  abbrev pub IsInside : FileHandle → Text → Local O → Type 0
  IsInside dir name l =
      (dir_path : FilePath) × (resolve_handle O dir l ≡ ok dir_path)
      × IsPlain name
      × IsBelow (from_root (join dir_path name) l) l

  abbrev pub IsGuarded : {A : Type 0} → M (Local O) A → FileHandle → Text → Local O → Type 0
  IsGuarded m dir name l = IsRefused m l ⊎ IsInside dir name l

  validated :
      (path : FilePath) (l : Local O)
      → validate_path O path l ≡ ok tt
      → (canonical : FilePath) × (canonical_form O path (from_root path l) l ≡ ok canonical)
        × (starts_with canonical l.root_path ≡ true)
  unfolding validate_path
  validated path l e = elim (Result-cases (canonical_form O path (from_root path l) l)) [
    | inl (c, h) ↦ (c, h, ground (arith, e, h))
    | inr (f, h) ↦ absurd (ground (arith, e, h))
  ]

  existing :
      (given path : FilePath) (l : Local O) (c : FilePath)
      → O.exists l.disk path ≡ true
      → canonical_form O given path l ≡ ok c
      → O.canonicalize l.disk path ≡ ok c
  unfolding canonical_form
  existing given path l c there e = elim (Result-cases (O.canonicalize l.disk path)) [
    | inl (q, found) ↦ ground (arith, e, there, found)
    | inr (f, failed) ↦ absurd (ground (arith, e, there, failed))
  ]

  plain :
      (name : Text)
      → contains name (codes "/") ≡ false
      → contains name (codes "..") ≡ false
      → IsPlain name
  plain name no_slash no_dots = (
    λ a b e. absurd (
        ground
          (arith, no_slash, ap (λ t. contains t (codes "/")) e, contains-append a (codes "/") b)),
    λ a b e. absurd (
        ground
          (arith, no_dots, ap (λ t. contains t (codes "..")) e, contains-append a (codes "..") b)),
  )

  safe-IsPlain : (name : Text) → is_unsafe_name name ≡ false → IsPlain name
  unfolding is_unsafe_name
  safe-IsPlain name safe = plain name (ground (arith, safe)) (ground (arith, safe))

  new-IsBelow :
      (given path : FilePath) (l : Local O) (q : FilePath)
      → O.exists l.disk path ≡ false
      → canonical_form O given path l ≡ ok q
      → starts_with q l.root_path ≡ true
      → IsBelow path l
  unfolding canonical_form
  new-IsBelow given path l q free e inside = elim (Option-cases (parent path)) [
    | inl none_of ↦ absurd (ground (arith, e, free, none_of))
    | inr (dir, up) ↦ elim (Result-cases (O.canonicalize l.disk dir)) [
      | inr (f, failed) ↦ absurd (ground (arith, e, free, up, failed))
      | inl (c, found) ↦ elim (Option-cases (file_name path)) [
        | inl none_of ↦ absurd (ground (arith, e, free, up, found, none_of))
        | inr (name, last) ↦ inr (
          free,
          dir,
          c,
          name,
          up,
          found,
          starts_with-components c l.root_path (ground (arith, e, free, up, found, last)),
          last,
          plain name (ground (arith, e, free, up, found, last))
              (ground (arith, e, free, up, found, last)),
          starts_with-components (join c name) l.root_path
              (ground (arith, e, free, up, found, last, inside)),
        )
      ]
    ]
  ]

  below :
      (path : FilePath) (l : Local O)
      → validate_path O path l ≡ ok tt
      → IsBelow (from_root path l) l
  below path l e =
      let (c, form, inside) = validated path l e in
      let at = from_root path l in
      elim (Bool-cases (O.exists l.disk at)) [
        | inl there ↦
            inl (
              there,
              c,
              existing path at l c there form,
              starts_with-components c l.root_path inside,
            )
        | inr free ↦ new-IsBelow path at l c free form inside
      ]

  checked :
      (invalid : String) (dir_path : FilePath) (name : Text) (l : Local O) (path : FilePath)
      → checked_path O invalid dir_path name l ≡ ok path
      → (is_unsafe_name name ≡ false) × (validate_path O (join dir_path name) l ≡ ok tt)
  unfolding checked_path
  checked invalid dir_path name l path e = ground (arith, e)

  guarded :
      {A : Type 0} (invalid : String) (dir : FileHandle) (name : Text)
      → (k : FilePath → FilePath → M (Local O) A) (l : Local O)
      → IsGuarded
          (query O (resolve_handle O dir) >>= λ d. query O (checked_path O invalid d name) >>= k d)
          dir
          name
          l
  guarded invalid dir name k l = elim (Result-cases (resolve_handle O dir l)) [
    | inr (e, h) ↦ inl (e, rw h refl)
    | inl (d, h) ↦ elim (Result-cases (checked_path O invalid d name l)) [
      | inr (e, h') ↦ inl (e, rw h (rw h' refl))
      | inl (p, h') ↦
          let (safe, valid) = checked invalid d name l p h' in
          inr (d, h, safe-IsPlain name safe, below (join d name) l valid)
    ]
  ]

  -- LOOKUP, CREATE, REMOVE, MKDIR, RMDIR and SYMLINK on a name are refused, with nothing changed,
  -- unless the directory's handle is known, the name has no slash and no "..", and the path that
  -- it makes in the directory is below the export root as the disk has it: its canonical path is
  -- under the root, or, where the disk says that nothing is there, as it does of a link that
  -- leads nowhere, that of its parent is.
  pub names_contained :
      (dir : FileHandle) (name target : Text) (mode : ℕ) (l : Local O)
      → IsGuarded (lookup O dir name) dir name l
        × IsGuarded (create O dir name mode) dir name l
        × IsGuarded (remove O dir name) dir name l
        × IsGuarded (mkdir O dir name mode) dir name l
        × IsGuarded (rmdir O dir name) dir name l
        × IsGuarded (symlink O dir name target) dir name l
  unfolding lookup create remove mkdir rmdir symlink
  names_contained dir name target mode l = (
    guarded "Invalid filename" dir name _ l,
    guarded "Invalid filename" dir name _ l,
    guarded "Invalid filename" dir name _ l,
    guarded "Invalid directory name" dir name _ l,
    guarded "Invalid directory name" dir name _ l,
    guarded "Invalid symlink name" dir name _ l,
  )

  -- LINK is refused, with nothing changed, unless the directory's handle is known, the new name
  -- has no slash and no "..", and its path is below the export root as the disk has it: its
  -- canonical path is under the root, or, where the disk says that nothing is there, as it does
  -- of a link that leads nowhere, that of its parent is.
  pub link_contained :
      (file dir : FileHandle) (name : Text) (l : Local O)
      → IsGuarded (link O file dir name) dir name l
  unfolding link
  link_contained file dir name l = elim (Result-cases (resolve_handle O file l)) [
    | inr (e, h) ↦ inl (e, rw h refl)
    | inl (f, h) ↦ rw h (guarded "Invalid link name" dir name _ l)
  ]

  -- RENAME is refused, with nothing changed, unless both directories' handles are known, both
  -- names have no slash and no "..", and each path is below the export root as the disk has it:
  -- its canonical path is under the root, or, where the disk says that nothing is there, as it
  -- does of a link that leads nowhere, that of its parent is.
  pub rename_contained :
      (from : FileHandle) (from_name : Text) (to : FileHandle) (to_name : Text) (l : Local O)
      → IsRefused (rename O from from_name to to_name) l
        ⊎ (IsInside from from_name l × IsInside to to_name l)
  unfolding rename
  rename_contained from from_name to to_name l = elim (Result-cases (resolve_handle O from l)) [
    | inr (e, h) ↦ inl (e, rw h refl)
    | inl (d, h) ↦ elim (Result-cases (resolve_handle O to l)) [
      | inr (e, h') ↦ inl (e, rw h (rw h' refl))
      | inl (d', h') ↦ elim (Bool-cases (is_unsafe_name from_name)) [
        | inl u ↦ inl (
          anyhow (codes "Invalid source name" ++ (codes ": " ++ from_name)),
          rw h (rw h' (rw u refl)),
        )
        | inr u ↦ elim (Bool-cases (is_unsafe_name to_name)) [
          | inl u' ↦ inl (
            anyhow (codes "Invalid target name" ++ (codes ": " ++ to_name)),
            rw h (rw h' (rw u (rw u' refl))),
          )
          | inr u' ↦ elim (Result-cases (validate_path O (join d from_name) l)) [
            | inr (e, v) ↦ inl (e, rw h (rw h' (rw u (rw u' (rw v refl)))))
            | inl (_, v) ↦ elim (Result-cases (validate_path O (join d' to_name) l)) [
              | inr (e, v') ↦ inl (e, rw h (rw h' (rw u (rw u' (rw v (rw v' refl))))))
              | inl (_, v') ↦ inr (
                (d, h, safe-IsPlain from_name u, below (join d from_name) l v),
                (d', h', safe-IsPlain to_name u', below (join d' to_name) l v'),
              )
            ]
          ]
        ]
      ]
    ]
  ]
