-- ===== src/Fsal/Handle/Threads/Safety.antt =====
-- What tasks that call `create_handle` of src/fsal/handle.rs at the same time may rely on.
use arcticwolf.Base.{ℕ, ◌+◌, ◌^◌, ◌<◌, ◌≡◌, some, true, arith, subst}
use arcticwolf.Fsal.FilePath.{FilePath, path_eq, path_eq_cong}
use arcticwolf.Fsal.Handle.{FileHandle, lookup_path}
use arcticwolf.Fsal.Handle.Threads.{returned, Step, pick, System, Reach}
use arcticwolf.Fsal.Handle.Threads.Invariant.{IsFine}
use arcticwolf.Fsal.Handle.Threads.Moves.{next_id-Reach, Reach-IsSafe, Move-lasts}

module _ (path_hash : FilePath → ℕ) {n : ℕ} {s : System} where
  -- Any number of tasks call `create_handle`, their critical sections interleaved in any order.
  -- In every state that they come to in fewer than 2 ^ 64 - 1 steps, a handle that a task was
  -- given reads as a path equal to the one it asked for, and two tasks that were given one handle
  -- asked for equal paths.
  pub interleaved_resolves :
      (i j : ℕ) (p q : FilePath) (h : FileHandle)
      → Reach path_hash n s
      → n + 1 < 2 ^ 64
      → s.pc i ≡ returned p h
      → s.pc j ≡ returned q h
      → (r : FilePath) × (lookup_path h s.table ≡ some r)
        × (path_eq r p ≡ true)
        × (path_eq p q ≡ true)
  interleaved_resolves i j p q h reach room e e' =
      let safe = Reach-IsSafe reach room in
      let (r, at, same) = subst (λ c. IsFine s.table c) e (safe.fine i) in
      let (r', at', same') = subst (λ c. IsFine s.table c) e' (safe.fine j) in
      (r, at, same, ground (arith, at, at', path_eq_cong r p q same, same'))

  -- In every state that tasks which call `create_handle` come to in fewer than 2 ^ 64 - 2 steps,
  -- no further critical section of any task changes the path that a handle reads as.
  pub interleaved_lasts :
      {t : System} (h : FileHandle) (p : FilePath)
      → Reach path_hash n s
      → Step path_hash s t
      → n + 2 < 2 ^ 64
      → lookup_path h s.table ≡ some p
      → lookup_path h t.table ≡ some p
  interleaved_lasts h p reach (pick i mv) room e =
      let before = next_id-Reach reach (omega arith) in
      Move-lasts h p (omega arith) mv ((Reach-IsSafe reach (omega arith)).fine i) e
