-- ===== src/Fsal/Handle/Growth.antt =====
-- The handle table of src/fsal/handle.rs where handles are issued and none is removed, as the
-- server uses it. Its size tells whether the counter has run out.
use arcticwolf.Base.{
  ℕ, suc, ◌+◌, ◌^◌, ◌≤◌, ◌<◌, ◌≡◌, refl, ◌⊎◌, inl, inr, none, some, [], ◌∷◌, length, arith,
  Option-cases,
}
use native.Mathlib.Decide.{dec_lt}
use arcticwolf.Base.HashMap.{Eq, HashMap, get, insert}
use arcticwolf.Fsal.FilePath.{FilePath}
use arcticwolf.Fsal.Handle.{
  FileHandle, handle_key, HandleManager, new_handle, find_handle, take_id, store_mappings,
  create_handle, lookup_path, count,
}
use arcticwolf.Fsal.Handle.Invariant.{IsValid, get-fresh, create_handle-IsValid}
use arcticwolf.Fsal.Handle.Laws.{
  create_handle_found, create_handle_absent, lookup_path-create_handle,
}

module _ {K V : Type 0} ⦃e : Eq K⦄ where
  length-insert : (m : HashMap K V) (k : K) (v : V) → length m ≤ length (insert m k v)
  unfolding insert
  length-insert [] k v = omega arith
  length-insert ((j, w) ∷ m) k v = ground (arith, length-insert m k v)

  length-insert_absent :
      (m : HashMap K V) (k : K) (v : V) → get m k ≡ none → length (insert m k v) ≡ suc (length m)
  unfolding insert get
  length-insert_absent [] k v h = refl
  length-insert_absent ((j, w) ∷ m) k v h = ground (arith, length-insert_absent m k v)

-- Since the table was `m`: it is valid, the handles it had then read as they did, and one id was
-- taken for each handle it has gained.
pub record HasGrown (m t : HandleManager) : Type 0 where
  pub valid : IsValid t
  pub lasts : (h : FileHandle) (p : FilePath) → lookup_path h m ≡ some p → lookup_path h t ≡ some p
  pub ids : t.next_id + count m ≡ count t + m.next_id

-- The handles issued since the table was `m` have used the counter up.
abbrev pub IsUsedUp : HandleManager → HandleManager → Type 0
IsUsedUp m t = 2 ^ 64 + count m ≤ count t + m.next_id + 1

pub HasGrown-refl : (m : HandleManager) → IsValid m → HasGrown m m
HasGrown-refl m v = record { valid = v; lasts = λ h p e. e; ids = omega arith }

module _ (path_hash : FilePath → ℕ) (path : FilePath) where
  abbrev issued : HandleManager → HandleManager
  issued t = (create_handle path_hash path t).0

  count-issued : (t : HandleManager) → count t ≤ count (issued t)
  unfolding count store_mappings take_id
  count-issued t = elim (Option-cases (find_handle path t)) [
    | inr (h, e) ↦ rw (create_handle_found path_hash path t h e, issued) (omega arith)
    | inl absent ↦
        rw (create_handle_absent path_hash path t absent, issued)
          (length-insert t.handle_to_path (new_handle t.next_id (path_hash path)) path)
  ]

  ids-issued :
      (t : HandleManager)
      → t.next_id + 1 < 2 ^ 64
      → IsValid t
      → (issued t).next_id + count t ≡ count (issued t) + t.next_id
  unfolding count store_mappings take_id
  ids-issued t room v = elim (Option-cases (find_handle path t)) [
    | inr (h, e) ↦ rw (create_handle_found path_hash path t h e, issued) (omega arith)
    | inl absent ↦
        let new =
          length-insert_absent t.handle_to_path _ path (get-fresh path_hash path t v room) in
        rw (create_handle_absent path_hash path t absent, issued) (omega (arith, new))
  ]

  grown : (m t : HandleManager) → t.next_id + 1 < 2 ^ 64 → HasGrown m t → HasGrown m (issued t)
  unfolding lookup_path
  grown m t room g = record {
    valid = create_handle-IsValid path_hash path t g.valid room;
    lasts = λ h p e.
        let at = g.lasts h p e in
        let old = (g.valid.issued h p at).1 in
        ground (arith, lookup_path-create_handle path_hash path t g.valid h room old);
    ids = omega (arith, g.ids, ids-issued t room g.valid);
  }

  -- `create_handle` keeps what is known of a table that has grown, until the counter is used up.
  pub create_handle-HasGrown :
      (m t : HandleManager)
      → HasGrown m t ⊎ IsUsedUp m t
      → HasGrown m (issued t) ⊎ IsUsedUp m (issued t)
  create_handle-HasGrown m t (inr full) = inr (omega (arith, count-issued t))
  create_handle-HasGrown m t (inl g) = elim (dec_lt (t.next_id + 1) (2 ^ 64)) [
    | yes room ↦ inl (grown m t room g)
    | no full ↦ inr (omega (arith, g.ids, count-issued t))
  ]
