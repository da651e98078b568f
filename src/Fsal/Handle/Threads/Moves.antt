-- ===== src/Fsal/Handle/Threads/Moves.antt =====
-- What the moves of the tasks keep, and so every state that they reach (src/fsal/handle.rs).
use arcticwolf.Base.{ℕ, ◌+◌, ◌^◌, ◌≤◌, ◌<◌, ◌≡◌, refl, subst, some, arith}
use arcticwolf.Fsal.FilePath.{FilePath, path_key}
use arcticwolf.Fsal.Handle.{
  FileHandle, handle_key, HandleManager, new, take_id, store_mappings, lookup_path,
}
use arcticwolf.Fsal.Handle.Threads.{
  Pc, Move, call, found, absent, number, store, leave, update, System, pick, Reach, start, later,
}
use arcticwolf.Fsal.Handle.Threads.Invariant.{IsFine, IsSafe, IsSafe-same, init-IsSafe}
use arcticwolf.Fsal.Handle.Threads.Steps.{IsSafe-number, IsSafe-store, lasts}

-- Every move keeps the invariant, where the counter has not come to its end.
Move-IsSafe :
    {path_hash : FilePath → ℕ} {m m' : HandleManager} {pc : ℕ → Pc} {q p : Pc} (i : ℕ)
    → m.next_id + 1 < 2 ^ 64
    → Move path_hash m q m' p
    → pc i ≡ q
    → IsSafe m pc
    → IsSafe m' (update pc i p)
Move-IsSafe i room (call path) e safe = IsSafe-same i _ safe tt refl
Move-IsSafe i room (found at) e safe = IsSafe-same i _ safe (safe.sound.back _ _ at) refl
Move-IsSafe i room (absent at) e safe = IsSafe-same i _ safe tt refl
Move-IsSafe {m} i room (number {path}) e safe = IsSafe-number m room i path safe
Move-IsSafe {path_hash} {m} i room (store {path} {id}) e safe =
    let f = subst (λ p. IsFine m p) e (safe.fine i) in
    IsSafe-store path_hash path id m (omega (arith, f.0)) i e safe
Move-IsSafe i room leave e safe = IsSafe-same i _ safe tt refl

-- No move changes the path that a handle reads as.
pub Move-lasts :
    {path_hash : FilePath → ℕ} {m m' : HandleManager} {q p : Pc} (h : FileHandle) (r : FilePath)
    → m.next_id + 1 < 2 ^ 64
    → Move path_hash m q m' p
    → IsFine m q
    → lookup_path h m ≡ some r
    → lookup_path h m' ≡ some r
unfolding take_id lookup_path
Move-lasts h r room (call path) f e = e
Move-lasts h r room (found at) f e = e
Move-lasts h r room (absent at) f e = e
Move-lasts h r room number f e = e
Move-lasts {path_hash} {m} h r room (store {path} {id}) f e =
    lasts path_hash path id m (omega (arith, f.0)) h r f e
Move-lasts h r room leave f e = e

next_id-Move :
    {path_hash : FilePath → ℕ} {m m' : HandleManager} {q p : Pc}
    → m.next_id + 1 < 2 ^ 64
    → Move path_hash m q m' p
    → m'.next_id ≤ m.next_id + 1
unfolding take_id store_mappings
next_id-Move room (call path) = omega arith
next_id-Move room (found at) = omega arith
next_id-Move room (absent at) = omega arith
next_id-Move room number = omega arith
next_id-Move room store = omega arith
next_id-Move room leave = omega arith

-- In fewer than 2 ^ 64 - 1 steps the counter does not come to its end.
pub next_id-Reach :
    {path_hash : FilePath → ℕ} {n : ℕ} {s : System}
    → Reach path_hash n s
    → n + 1 < 2 ^ 64
    → s.table.next_id ≤ n + 1
unfolding new
next_id-Reach start room = omega arith
next_id-Reach (later r (pick i mv)) room =
    let before = next_id-Reach r (omega arith) in omega (arith, next_id-Move (omega arith) mv)

pub Reach-IsSafe :
    {path_hash : FilePath → ℕ} {n : ℕ} {s : System}
    → Reach path_hash n s
    → n + 1 < 2 ^ 64
    → IsSafe s.table s.pc
Reach-IsSafe start room = init-IsSafe
Reach-IsSafe (later r (pick i mv)) room =
    let before = next_id-Reach r (omega arith) in
    Move-IsSafe i (omega arith) mv refl (Reach-IsSafe r (omega arith))
