-- ===== src/Fsal/Handle/Threads/Invariant.antt =====
-- What holds of the handle table and of the tasks in every state they reach (src/fsal/handle.rs).
use arcticwolf.Base.{ℕ, ◌<◌, ◌≡◌, ◌≢◌, sym, ◌∙◌, none, some, Option, true}
use mathlib.Core.Logic.{ite}
use native.Mathlib.Decide.{ℕ_discrete}
use arcticwolf.Base.HashMap.{get}
use arcticwolf.Fsal.FilePath.{FilePath, path_key, path_eq}
use arcticwolf.Fsal.Handle.{FileHandle, handle_key, HandleManager, new, find_handle, lookup_path}
use arcticwolf.Fsal.Handle.Ids.{id_of}
use arcticwolf.Fsal.Handle.Threads.{Pc, numbered, returned, update, init}

-- A path that leads to a handle is a path that the handle reads as; ids are issued in order.
pub record IsSound (m : HandleManager) : Type 0 where
  pub issued : (h : FileHandle) (p : FilePath) → lookup_path h m ≡ some p → id_of h < m.next_id
  pub back :
      (p : FilePath) (h : FileHandle)
      → find_handle p m ≡ some h
      → (q : FilePath) × (lookup_path h m ≡ some q) × (path_eq q p ≡ true)

-- An id that a task has taken is in no handle yet; a handle that it was given reads as its path.
abbrev pub IsFine : HandleManager → Pc → Type 0
IsFine m (numbered path id) =
    (id < m.next_id) × ((h : FileHandle) (q : FilePath) → lookup_path h m ≡ some q → id_of h ≢ id)
IsFine m (returned path h) = (q : FilePath) × (lookup_path h m ≡ some q) × (path_eq q path ≡ true)
IsFine m _ = Unit {0}

-- The id that a task has taken for a handle it has not stored.
abbrev pub taken : Pc → Option ℕ
taken (numbered path id) = some id
taken _ = none

pub record IsSafe (m : HandleManager) (pc : ℕ → Pc) : Type 0 where
  pub sound : IsSound m
  pub fine : (i : ℕ) → IsFine m (pc i)
  pub apart : (i j a : ℕ) → i ≢ j → taken (pc i) ≡ some a → taken (pc j) ≢ some a

-- One task's move: what is left to show of the others.
pub IsSafe-update :
    {m m' : HandleManager} {pc : ℕ → Pc} (i : ℕ) (p : Pc)
    → IsSafe m pc
    → IsSound m'
    → IsFine m' p
    → ((j : ℕ) → i ≢ j → IsFine m' (pc j))
    → ((j a : ℕ) → i ≢ j → taken p ≡ some a → taken (pc j) ≢ some a)
    → IsSafe m' (update pc i p)
IsSafe-update {m} {m'} {pc} i p safe sound fine others unused = record {
  sound = sound;
  fine = λ j. elim (ℕ_discrete i j) as (λ d. IsFine m' (ite d p (pc j))) [
    | yes e ↦ fine
    | no ne ↦ others j ne
  ];
  apart = λ j k a. apart_at j k a (ℕ_discrete i j) (ℕ_discrete i k);
}
  where
    apart_at :
        (j k a : ℕ) (d : Dec (i ≡ j)) (e : Dec (i ≡ k))
        → j ≢ k
        → taken (ite d p (pc j)) ≡ some a
        → taken (ite e p (pc k)) ≢ some a
    apart_at j k a (yes d) (yes e) ne = absurd (ne (sym d ∙ e))
    apart_at j k a (yes d) (no e) ne = unused k a e
    apart_at j k a (no d) (yes e) ne = λ u v. unused j a d v u
    apart_at j k a (no d) (no e) ne = safe.apart j k a ne

-- A move that takes no id and leaves the table.
pub IsSafe-same :
    {m : HandleManager} {pc : ℕ → Pc} (i : ℕ) (p : Pc)
    → IsSafe m pc
    → IsFine m p
    → taken p ≡ none
    → IsSafe m (update pc i p)
IsSafe-same i p safe fine free =
    IsSafe-update i p safe safe.sound fine (λ j ne. safe.fine j) (λ j a ne u. absurd (cc))

pub init-IsSafe : IsSafe init.table init.pc
unfolding new find_handle lookup_path get
init-IsSafe = record {
  sound = record { issued = λ h p e. absurd (cc); back = λ p h e. absurd (cc) };
  fine = λ i. tt;
  apart = λ i j a ne e. absurd (cc);
}
