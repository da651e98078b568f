-- ===== src/Fsal/Local/Start.antt =====
-- The local filesystem as `create_filesystem` of src/fsal/mod.rs starts it.
use arcticwolf.Base.{
  ◌≡◌, refl, inl, inr, none, some, ok, arith, subst, Option, Result-cases, Bool-cases,
}
use arcticwolf.Base.Text.{bytes_eq_refl}
use arcticwolf.Base.HashMap.{get, insert}
use arcticwolf.Fsal.FilePath.{FilePath}
use arcticwolf.Fsal.Os.{Os}
use arcticwolf.Fsal.Handle
use arcticwolf.Fsal.Handle.{
  HandleManager, create_handle, lookup_path, count, find_handle, take_id, store_mappings,
  new_handle,
}
use arcticwolf.Fsal.Handle.Invariant.{IsValid, new-IsValid, create_handle-IsValid}
use arcticwolf.Fsal.Local.{Local}
use arcticwolf.Fsal.Local.Backend.{
  BackendType, BackendConfig, local, s3, ceph, memory, new, create_filesystem,
}

-- The table of a server that has just started holds its root, and nothing else.
pub record IsFresh (O : Os) (l : Local O) : Type 0 where
  pub valid : IsValid l.handle_manager
  pub root_resolves : lookup_path l.root_handle l.handle_manager ≡ some l.root_path
  pub one_handle : count l.handle_manager ≡ 1
  pub next : l.handle_manager.next_id ≡ 2

module _ (O : Os) where
  abbrev pub started : FilePath → O.State → Local O
  started root disk =
      let (manager, handle) = create_handle O.path_hash root Handle.new in
      record { root_path = root; handle_manager = manager; root_handle = handle; disk = disk }

  started-IsFresh : (root : FilePath) (disk : O.State) → IsFresh O (started root disk)
  unfolding create_handle lookup_path count find_handle take_id store_mappings get insert Handle.new
  started-IsFresh root disk = record {
    valid = create_handle-IsValid O.path_hash root Handle.new new-IsValid (omega arith);
    root_resolves = ground (arith, bytes_eq_refl (new_handle 1 (O.path_hash root)));
    one_handle = refl;
    next = refl;
  }

  pub new_started :
      (root : FilePath) (disk : O.State) (l : Local O)
      → new O root disk ≡ ok l
      → (path : FilePath) × (started path disk ≡ l)
  unfolding new
  new_started root disk l e = elim (Result-cases (O.canonicalize disk root)) [
    | inr (f, h) ↦ absurd (ground (arith, e, h))
    | inl (path, h) ↦ elim (Result-cases (O.metadata disk path)) [
      | inr (f, h') ↦ absurd (ground (arith, e, h, h'))
      | inl (m, h') ↦ elim (Bool-cases m.file_type.is_dir) [
        | inr no_dir ↦ absurd (ground (arith, e, h, h', no_dir))
        | inl dir ↦ (path, ground (arith, e, h, h', dir))
      ]
    ]
  ]

  pub configured_root :
      (b : BackendType) (r : Option FilePath) (disk : O.State) (l : Local O)
      → create_filesystem O (record { backend_type = b; local_root = r }) disk ≡ ok l
      → (root : FilePath) × (new O root disk ≡ ok l)
  unfolding create_filesystem
  configured_root local (some root) disk l e = (root, e)
  configured_root local none disk l e = absurd (cc)
  configured_root s3 r disk l e = absurd (cc)
  configured_root ceph r disk l e = absurd (cc)
  configured_root memory r disk l e = absurd (cc)

  -- The table of a server that has started is valid and holds one handle, which reads as the root.
  pub create_filesystem-IsFresh :
      (config : BackendConfig) (disk : O.State) (l : Local O)
      → create_filesystem O config disk ≡ ok l
      → IsFresh O l
  create_filesystem-IsFresh config disk l e =
      let (root, made) = configured_root config.backend_type config.local_root disk l e in
      let (path, same) = new_started root disk l made in
      subst (λ l. IsFresh O l) same (started-IsFresh path disk)
