-- ===== src/Fsal/Handle/Laws.antt =====
-- What a caller of the handle table may rely on.
use arcticwolf.Base.{
  ℕ, ◌+◌, ◌^◌, ◌≤◌, ◌<◌, ◌≡◌, refl, true, none, some, arith, inl, inr, if◌then◌else◌, Option-cases,
  ◌↔◌, sym, ◌∙◌, ap,
}
use arcticwolf.Base.Text.{bytes_eq, bytes_eq_refl, bytes_eq→eq}
use arcticwolf.Base.HashMap.{get-insert, get-remove, get_cong}
use arcticwolf.Fsal.FilePath.{FilePath, path_key, path_eq, path_eq_refl, path_eq_cong}
use arcticwolf.Fsal.Handle.{
  FileHandle, handle_key, HandleManager, new_handle, find_handle, take_id, store_mappings,
  create_handle, lookup_path, remove_handle,
}
use arcticwolf.Fsal.Handle.Ids.{id_of, id_of-new_handle}
use arcticwolf.Fsal.Handle.Invariant.{HasRoom, IsValid, create_handle-IsValid}

-- Once a handle is removed it reads as nothing, and every other handle reads as before.
pub lookup_path-remove_handle :
    (h j : FileHandle) (m : HandleManager)
    → lookup_path j (remove_handle h m).0 ≡ (if bytes_eq h j then none else lookup_path j m)
unfolding lookup_path remove_handle
lookup_path-remove_handle h j m = ground (arith, get-remove m.handle_to_path h j, bytes_eq→eq h j)

pub create_handle_found :
    (path_hash : FilePath → ℕ) (path : FilePath) (m : HandleManager) (h : FileHandle)
    → find_handle path m ≡ some h
    → create_handle path_hash path m ≡ (m, h)
unfolding create_handle
create_handle_found path_hash path m h e = rw (e, create_handle)

module _ (path_hash : FilePath → ℕ) (path : FilePath) (m : HandleManager) where
  abbrev pub fresh : FileHandle
  fresh = new_handle m.next_id (path_hash path)

  pub create_handle_absent :
      find_handle path m ≡ none
      → create_handle path_hash path m ≡ (store_mappings fresh path (take_id m).0, fresh)
  unfolding create_handle take_id
  create_handle_absent e = rw (e, create_handle)

  pub lookup_path-stored :
      (h : FileHandle)
      → lookup_path h (store_mappings fresh path (take_id m).0)
        ≡ (if bytes_eq fresh h then some path else lookup_path h m)
  unfolding lookup_path store_mappings take_id
  lookup_path-stored h = get-insert m.handle_to_path fresh h path

  find_handle-stored :
      (p : FilePath)
      → find_handle p (store_mappings fresh path (take_id m).0)
        ≡ (if path_eq path p then some fresh else find_handle p m)
  unfolding find_handle store_mappings take_id
  find_handle-stored p = get-insert m.path_to_handle path p fresh

  -- Every later lookup of an equal path finds the handle that `create_handle` returned.
  pub find_handle-create_handle :
      (p : FilePath)
      → path_eq path p ≡ true
      → let (m', h) = create_handle path_hash path m in find_handle p m' ≡ some h
  unfolding find_handle
  find_handle-create_handle p same = elim (Option-cases (find_handle path m)) [
    | inl absent ↦ rw (create_handle_absent absent) (rw (find_handle-stored p) (rw same refl))
    | inr (h, e) ↦
        rw (create_handle_found path_hash path m h e)
          (sym (get_cong m.path_to_handle path p same) ∙ e)
  ]

  -- Asking again for an equal path changes nothing and returns the same handle.
  pub create_handle_again :
      (p : FilePath)
      → path_eq path p ≡ true
      → let t = create_handle path_hash path m in create_handle path_hash p t.0 ≡ t
  create_handle_again p same =
      create_handle_found path_hash p _ _ (find_handle-create_handle p same)

module _ (path_hash : FilePath → ℕ) (path : FilePath) (m : HandleManager) (v : IsValid m) where
  -- In a valid table, the handle that `create_handle` returns reads as an equal path.
  pub create_handle_resolves :
      let (m', h) = create_handle path_hash path m in
      (q : FilePath) × (lookup_path h m' ≡ some q) × (path_eq q path ≡ true)
  unfolding find_handle lookup_path
  create_handle_resolves = elim (Option-cases (find_handle path m)) [
    | inl absent ↦ rw (create_handle_absent path_hash path m absent) (
      path,
      rw (lookup_path-stored path_hash path m (fresh path_hash path m))
          (rw (bytes_eq_refl (fresh path_hash path m)) refl),
      path_eq_refl path,
    )
    | inr (h, e) ↦ rw (create_handle_found path_hash path m h e) (v.back path h e)
  ]

  -- In a valid table whose counter has room, `create_handle` leaves the path of every handle
  -- whose id was issued before.
  pub lookup_path-create_handle :
      (h : FileHandle)
      → HasRoom m
      → id_of h < m.next_id
      → lookup_path h (create_handle path_hash path m).0 ≡ lookup_path h m
  lookup_path-create_handle h room old = elim (Option-cases (find_handle path m)) [
    | inl absent ↦ rw (create_handle_absent path_hash path m absent) (
        rw (lookup_path-stored path_hash path m h) (
          ground (
            arith,
            bytes_eq→eq (fresh path_hash path m) h,
            id_of-new_handle m.next_id (path_hash path),
          )))
    | inr (j, e) ↦ rw (create_handle_found path_hash path m j e) refl
  ]

  -- At most one id is taken.
  pub next_id-create_handle :
      HasRoom m
      → (m.next_id ≤ (create_handle path_hash path m).0.next_id)
        × ((create_handle path_hash path m).0.next_id ≤ m.next_id + 1)
  unfolding store_mappings take_id
  next_id-create_handle room = elim (Option-cases (find_handle path m)) [
    | inl absent ↦ rw (create_handle_absent path_hash path m absent) (omega arith)
    | inr (j, e) ↦ rw (create_handle_found path_hash path m j e) (omega arith)
  ]

module _ (path_hash : FilePath → ℕ) (path p : FilePath) (m : HandleManager) (v : IsValid m) where
  same_of_eq :
      m.next_id + 2 < 2 ^ 64
      → let (m', h) = create_handle path_hash path m in
        (create_handle path_hash p m').1 ≡ h → path_eq path p ≡ true
  unfolding lookup_path
  same_of_eq room e =
      let m' = (create_handle path_hash path m).0 in
      let h = (create_handle path_hash path m).1 in
      let v' = create_handle-IsValid path_hash path m v (omega arith) in
      let below = next_id-create_handle path_hash path m v (omega arith) in
      let (q, at, eq) = create_handle_resolves path_hash path m v in
      let (r, at', eq') = create_handle_resolves path_hash p m' v' in
      let kept = lookup_path-create_handle path_hash p m' v' h (omega arith) (v'.issued h q at).1 in
      let again = ap (λ j. lookup_path j (create_handle path_hash p m').0) e in
      ground (arith, path_eq_cong q path p eq, kept, at, at', again)

  -- In a valid table whose counter has room for two more, two paths get one handle exactly if
  -- they are equal as paths.
  pub create_handle-eq_iff :
      m.next_id + 2 < 2 ^ 64
      → let (m', h) = create_handle path_hash path m in
        ((create_handle path_hash p m').1 ≡ h) ↔ (path_eq path p ≡ true)
  create_handle-eq_iff room =
      (same_of_eq room, λ same. ap (λ t. t.1) (create_handle_again path_hash path m p same))
