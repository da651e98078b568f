-- ===== src/Fsal/Handle/Threads.antt =====
-- Tasks that call `create_handle` of src/fsal/handle.rs at the same time, interleaved at its locks
-- in any order.
pub mod Invariant
pub mod Steps
pub mod Moves
pub mod Safety
pub mod Race
use arcticwolf.Base.{ℕ, zero, suc, none, some, ◌≡◌}
use mathlib.Core.Logic.{ite}
use native.Mathlib.Decide.{ℕ_discrete}
use arcticwolf.Fsal.FilePath.{FilePath}
use arcticwolf.Fsal.Handle.{
  FileHandle, HandleManager, new, new_handle, find_handle, take_id, store_mappings,
}

-- Where a task stands in `create_handle`, with what it has found so far.
pub data Pc : Type 0 where
  idle : Pc
  asked : FilePath → Pc
  missing : FilePath → Pc
  numbered : FilePath → ℕ → Pc
  returned : FilePath → FileHandle → Pc

-- One critical section of one task, from a table and its place to the next ones.
pub data Move (path_hash : FilePath → ℕ) (m : HandleManager)
    : Pc → HandleManager → Pc → Type 0 where
  call : (path : FilePath) → Move path_hash m idle m (asked path)
  found :
      {path : FilePath} {h : FileHandle}
      → find_handle path m ≡ some h
      → Move path_hash m (asked path) m (returned path h)
  absent :
      {path : FilePath} → find_handle path m ≡ none → Move path_hash m (asked path) m (missing path)
  number :
      {path : FilePath}
      → Move path_hash m (missing path) (take_id m).0 (numbered path (take_id m).1)
  store :
      {path : FilePath} {id : ℕ}
      → Move path_hash m
          (numbered path id)
          (store_mappings (new_handle id (path_hash path)) path m)
          (returned path (new_handle id (path_hash path)))
  leave : {path : FilePath} {h : FileHandle} → Move path_hash m (returned path h) m idle

-- The tasks over one table.
pub record System : Type 0 where
  pub table : HandleManager
  pub pc : ℕ → Pc

abbrev pub update : (ℕ → Pc) → ℕ → Pc → ℕ → Pc
update pc i p j = ite (ℕ_discrete i j) p (pc j)

pub data Step (path_hash : FilePath → ℕ) (s : System) : System → Type 0 where
  pick :
      (i : ℕ) {m : HandleManager} {p : Pc}
      → Move path_hash s.table (s.pc i) m p
      → Step path_hash s (record { table = m; pc = update s.pc i p })

abbrev pub init : System
init = record { table = new; pc = λ i. idle }

-- The states that the tasks come to in a number of steps.
pub data Reach (path_hash : FilePath → ℕ) : ℕ → System → Type 0 where
  start : Reach path_hash 0 init
  later :
      {n : ℕ} {s t : System} → Reach path_hash n s → Step path_hash s t → Reach path_hash (suc n) t
