-- ===== src/Fsal/Handle/Invariant.antt =====
-- Validity of the handle table of src/fsal/handle.rs: its two maps against one another.
use arcticwolf.Base.{
  ℕ, ◌+◌, ◌^◌, ◌≤◌, ◌<◌, ◌≡◌, true, none, some, arith, inl, inr, if◌then◌else◌, Bool-cases,
  Option-cases,
}
use arcticwolf.Base.Text.{bytes_eq, bytes_eq_refl, bytes_eq→eq}
use arcticwolf.Base.HashMap.{get, get-insert, get-remove, get_cong}
use arcticwolf.Fsal.FilePath.{FilePath, path_key, path_eq, path_eq_refl}
use arcticwolf.Fsal.Handle.{
  FileHandle, handle_key, HandleManager, new, new_handle, find_handle, take_id, store_mappings,
  create_handle, remove_handle,
}
use arcticwolf.Fsal.Handle.Ids.{id_of, id_of-new_handle}

-- The counter has not come to its last value.
abbrev pub HasRoom : HandleManager → Type 0
HasRoom m = m.next_id + 1 < 2 ^ 64

pub record IsValid (m : HandleManager) : Type 0 where
  -- A handle of the table carries an id that was issued.
  pub issued :
      (h : FileHandle) (p : FilePath)
      → get m.handle_to_path h ≡ some p
      → (1 ≤ id_of h) × (id_of h < m.next_id)
  pub forth :
      (h : FileHandle) (p : FilePath)
      → get m.handle_to_path h ≡ some p
      → get m.path_to_handle p ≡ some h
  pub back :
      (p : FilePath) (h : FileHandle)
      → get m.path_to_handle p ≡ some h
      → (q : FilePath) × (get m.handle_to_path h ≡ some q) × (path_eq q p ≡ true)
  pub started : 1 ≤ m.next_id

pub new-IsValid : IsValid new
unfolding new get
new-IsValid = record {
  issued = λ h p e. absurd (cc);
  forth = λ h p e. absurd (cc);
  back = λ p h e. absurd (cc);
  started = omega arith;
}

module _ (path_hash : FilePath → ℕ) (path : FilePath) (m : HandleManager) (v : IsValid m)
    (room : HasRoom m) where
  abbrev fresh : FileHandle
  fresh = new_handle m.next_id (path_hash path)

  abbrev stored : HandleManager
  stored = store_mappings fresh path (take_id m).0

  id_of-fresh : id_of fresh ≡ m.next_id
  id_of-fresh = id_of-new_handle m.next_id (path_hash path) (omega arith)

  pub get-fresh : get m.handle_to_path fresh ≡ none
  get-fresh = elim (Option-cases (get m.handle_to_path fresh)) [
    | inl e ↦ e
    | inr (p, e) ↦ absurd (omega (arith, (v.issued fresh p e).1, id_of-fresh))
  ]

  get-stored :
      (h : FileHandle)
      → get stored.handle_to_path h
        ≡ (if bytes_eq fresh h then some path else get m.handle_to_path h)
  unfolding store_mappings take_id
  get-stored h = get-insert m.handle_to_path fresh h path

  get-stored_path :
      (p : FilePath)
      → get stored.path_to_handle p
        ≡ (if path_eq path p then some fresh else get m.path_to_handle p)
  unfolding store_mappings take_id
  get-stored_path p = get-insert m.path_to_handle path p fresh

  stored-issued :
      (h : FileHandle) (p : FilePath)
      → get stored.handle_to_path h ≡ some p
      → (1 ≤ id_of h) × (id_of h < stored.next_id)
  unfolding store_mappings take_id
  stored-issued h p e =
      ground (arith, get-stored h, bytes_eq→eq fresh h, id_of-fresh, v.issued h p, v.started)

  stored-forth :
      (h : FileHandle) (p : FilePath)
      → get m.path_to_handle path ≡ none
      → get stored.handle_to_path h ≡ some p
      → get stored.path_to_handle p ≡ some h
  stored-forth h p absent e = ground (
    arith,
    get-stored h,
    get-stored_path p,
    bytes_eq→eq fresh h,
    v.forth h p,
    path_eq_refl path,
    get_cong m.path_to_handle path p,
  )

  stored-back :
      (p : FilePath) (h : FileHandle)
      → get stored.path_to_handle p ≡ some h
      → (q : FilePath) × (get stored.handle_to_path h ≡ some q) × (path_eq q p ≡ true)
  stored-back p h e = elim (Bool-cases (path_eq path p)) [
    | inl same ↦ (path, ground (arith, get-stored h, get-stored_path p, bytes_eq_refl fresh), same)
    | inr differs ↦
        let (q, found, eq) = v.back p h (ground (arith, get-stored_path p)) in
        (q, ground (arith, get-stored h, bytes_eq→eq fresh h, get-fresh), eq)
  ]

  stored-IsValid : get m.path_to_handle path ≡ none → IsValid stored
  unfolding take_id store_mappings
  stored-IsValid absent = record {
    issued = stored-issued;
    forth = λ h p e. stored-forth h p absent e;
    back = stored-back;
    started = omega (arith, v.started);
  }

  -- Where the counter has room, `create_handle` keeps the table valid.
  pub create_handle-IsValid : IsValid (create_handle path_hash path m).0
  unfolding create_handle find_handle
  create_handle-IsValid = elim (Option-cases (get m.path_to_handle path)) [
    | inl absent ↦ rw (absent, create_handle) (stored-IsValid absent)
    | inr (h, e) ↦ rw (e, create_handle) v
  ]

-- `remove_handle` keeps the table valid.
pub remove_handle-IsValid :
    (h : FileHandle) (m : HandleManager) → IsValid m → IsValid (remove_handle h m).0
unfolding remove_handle
remove_handle-IsValid h m v = elim (Option-cases (get m.handle_to_path h)) [
  | inl absent ↦ rw (absent, remove_handle) v
  | inr (p, found) ↦
      rw (found, remove_handle)
        (record {
          issued = λ j q e. ground (arith, get-remove m.handle_to_path h j, v.issued j q);
          forth = λ j q e. ground (
            arith,
            get-remove m.handle_to_path h j,
            get-remove m.path_to_handle p q,
            get_cong m.path_to_handle p q,
            v.forth h p found,
            v.forth j q,
            bytes_eq_refl h,
          );
          back = λ q j e.
              let (q', at, eq) = v.back q j (ground (arith, get-remove m.path_to_handle p q)) in
              (
                q',
                ground (
                  arith,
                  get-remove m.handle_to_path h j,
                  get-remove m.path_to_handle p q,
                  bytes_eq→eq h j,
                ),
                eq,
              );
          started = v.started;
        })
]
