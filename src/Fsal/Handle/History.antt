-- ===== src/Fsal/Handle/History.antt =====
-- What any sequence of calls of the handle table leaves of the handles issued before it.
use arcticwolf.Base.{
  ℕ, ◌+◌, ◌^◌, ◌≤◌, ◌<◌, ◌≡◌, refl, ◌⊎◌, inl, inr, none, List, [], ◌∷◌, length, arith, Bool-cases,
  ◌∙◌,
}
use arcticwolf.Base.Text.{bytes_eq}
use arcticwolf.Fsal.FilePath.{FilePath}
use arcticwolf.Fsal.Handle.{FileHandle, HandleManager, create_handle, lookup_path, remove_handle}
use arcticwolf.Fsal.Handle.Ids.{id_of}
use arcticwolf.Fsal.Handle.Invariant.{IsValid, create_handle-IsValid, remove_handle-IsValid}
use arcticwolf.Fsal.Handle.Laws.{
  lookup_path-create_handle, next_id-create_handle, lookup_path-remove_handle,
}

-- The calls that change the table.
pub data Op : Type 0 where
  create : FilePath → Op
  remove : FileHandle → Op

module _ (path_hash : FilePath → ℕ) where
  abbrev pub step : Op → HandleManager → HandleManager
  step (create path) m = (create_handle path_hash path m).0
  step (remove h) m = (remove_handle h m).0

  unfoldable pub run : List Op → HandleManager → HandleManager
  run [] m = m
  run (op ∷ ops) m = run ops (step op m)

  step-IsValid :
      (op : Op) (m : HandleManager) → m.next_id + 1 < 2 ^ 64 → IsValid m → IsValid (step op m)
  step-IsValid (create path) m room v = create_handle-IsValid path_hash path m v room
  step-IsValid (remove h) m room v = remove_handle-IsValid h m v

  next_id-step :
      (op : Op) (m : HandleManager)
      → m.next_id + 1 < 2 ^ 64
      → IsValid m
      → (m.next_id ≤ (step op m).next_id) × ((step op m).next_id ≤ m.next_id + 1)
  unfolding remove_handle
  next_id-step (create path) m room v = next_id-create_handle path_hash path m v room
  next_id-step (remove h) m room v = ground arith

  lookup_path-step :
      (op : Op) (m : HandleManager) (h : FileHandle)
      → m.next_id + 1 < 2 ^ 64
      → IsValid m
      → id_of h < m.next_id
      → (lookup_path h (step op m) ≡ lookup_path h m) ⊎ (lookup_path h (step op m) ≡ none)
  lookup_path-step (create path) m h room v old =
      inl (lookup_path-create_handle path_hash path m v h room old)
  lookup_path-step (remove j) m h room v old = elim (Bool-cases (bytes_eq j h)) [
    | inl same ↦ inr (lookup_path-remove_handle j h m ∙ rw same refl)
    | inr differs ↦ inl (lookup_path-remove_handle j h m ∙ rw differs refl)
  ]

  -- Any calls of `create_handle` and `remove_handle` keep a valid table valid, as long as the
  -- counter does not run out: every handle carries an issued id, and the two maps are inverse to
  -- one another up to equality of paths.
  pub run-IsValid :
      (ops : List Op) (m : HandleManager)
      → m.next_id + length ops < 2 ^ 64
      → IsValid m
      → IsValid (run ops m)
  unfolding run
  run-IsValid [] m room v = v
  run-IsValid (op ∷ ops) m room v =
      let below = next_id-step op m (omega arith) v in
      run-IsValid ops (step op m) (omega arith) (step-IsValid op m (omega arith) v)

  -- From a valid table, and as long as the counter does not run out, a handle that was issued
  -- keeps its path under any calls of `create_handle` and `remove_handle`, or reads as nothing:
  -- it never comes to stand for another file.
  pub lookup_path-run :
      (ops : List Op) (m : HandleManager) (h : FileHandle)
      → m.next_id + length ops < 2 ^ 64
      → IsValid m
      → id_of h < m.next_id
      → (lookup_path h (run ops m) ≡ lookup_path h m) ⊎ (lookup_path h (run ops m) ≡ none)
  unfolding run
  lookup_path-run [] m h room v old = inl refl
  lookup_path-run (op ∷ ops) m h room v old =
      let below = next_id-step op m (omega arith) v in
      let v' = step-IsValid op m (omega arith) v in
      let later = lookup_path-run ops (step op m) h (omega arith) v' (omega arith) in
      ground (arith, lookup_path-step op m h (omega arith) v old, later)
