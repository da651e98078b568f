-- ===== src/Fsal/Handle/Threads/Steps.antt =====
-- The two moves that change the handle table (src/fsal/handle.rs), `take_id` and `store_mappings`,
-- against the invariant of the table and the tasks.
use arcticwolf.Base.{
  ℕ, ◌+◌, ◌^◌, ◌<◌, ◌≡◌, ◌≢◌, refl, subst, some, inl, inr, arith, if◌then◌else◌, Bool-cases,
}
use arcticwolf.Base.Text.{bytes_eq, bytes_eq_refl, bytes_eq→eq}
use arcticwolf.Base.HashMap.{get-insert}
use arcticwolf.Fsal.FilePath.{FilePath, path_key, path_eq, path_eq_refl}
use arcticwolf.Fsal.Handle.{
  FileHandle, handle_key, HandleManager, new_handle, find_handle, take_id, store_mappings,
  lookup_path,
}
use arcticwolf.Fsal.Handle.Ids.{id_of-new_handle}
use arcticwolf.Fsal.Handle.Threads.{Pc, idle, asked, missing, numbered, returned, update}
use arcticwolf.Fsal.Handle.Threads.Invariant.{IsSound, IsFine, taken, IsSafe, IsSafe-update}

module _ (m : HandleManager) (room : m.next_id + 1 < 2 ^ 64) where
  IsSound-number : IsSound m → IsSound (take_id m).0
  unfolding take_id lookup_path find_handle
  IsSound-number s = record { issued = λ h p e. omega (arith, s.issued h p e); back = s.back }

  IsFine-number : (p : Pc) → IsFine m p → IsFine (take_id m).0 p
  unfolding take_id lookup_path
  IsFine-number idle f = tt
  IsFine-number (asked path) f = tt
  IsFine-number (missing path) f = tt
  IsFine-number (numbered path id) f = (omega (arith, f.0), f.1)
  IsFine-number (returned path h) f = f

  taken_lt : (p : Pc) (a : ℕ) → IsFine m p → taken p ≡ some a → a < m.next_id
  taken_lt idle a f e = absurd (cc)
  taken_lt (asked path) a f e = absurd (cc)
  taken_lt (missing path) a f e = absurd (cc)
  taken_lt (numbered path id) a f e = ground (arith, f.0)
  taken_lt (returned path h) a f e = absurd (cc)

  pub IsSafe-number :
      {pc : ℕ → Pc} (i : ℕ) (path : FilePath)
      → IsSafe m pc
      → IsSafe (take_id m).0 (update pc i (numbered path (take_id m).1))
  unfolding take_id lookup_path
  IsSafe-number {pc} i path safe =
      IsSafe-update i _ safe (IsSound-number safe.sound)
        (omega arith, λ h q e u. omega (arith, safe.sound.issued h q e))
        (λ j ne. IsFine-number _ (safe.fine j))
        (λ j a ne e u. ground (arith, taken_lt (pc j) a (safe.fine j) u))

module _ (path_hash : FilePath → ℕ) (path : FilePath) (id : ℕ) (m : HandleManager)
    (small : id < 2 ^ 64) where
  abbrev pub fresh : FileHandle
  fresh = new_handle id (path_hash path)

  abbrev pub stored : HandleManager
  stored = store_mappings fresh path m

  pub lookup_path-stored :
      (h : FileHandle)
      → lookup_path h stored ≡ (if bytes_eq fresh h then some path else lookup_path h m)
  unfolding lookup_path store_mappings
  lookup_path-stored h = get-insert m.handle_to_path fresh h path

  pub find_handle-stored :
      (p : FilePath)
      → find_handle p stored ≡ (if path_eq path p then some fresh else find_handle p m)
  unfolding find_handle store_mappings
  find_handle-stored p = get-insert m.path_to_handle path p fresh

  -- A handle of the table before is not the one that is stored, whose id it does not have.
  pub lasts :
      (h : FileHandle) (q : FilePath)
      → IsFine m (numbered path id)
      → lookup_path h m ≡ some q
      → lookup_path h stored ≡ some q
  lasts h q f e =
      let other = f.1 h q e in
      ground (
        arith,
        lookup_path-stored h,
        bytes_eq→eq fresh h,
        id_of-new_handle id (path_hash path) small,
      )

  pub lookup_path-fresh : lookup_path fresh stored ≡ some path
  lookup_path-fresh = ground (arith, lookup_path-stored fresh, bytes_eq_refl fresh)

  IsSound-store : IsFine m (numbered path id) → IsSound m → IsSound stored
  unfolding store_mappings
  IsSound-store f s = record {
    issued = λ h p e. ground (
      arith,
      lookup_path-stored h,
      bytes_eq→eq fresh h,
      id_of-new_handle id (path_hash path) small,
      s.issued h p,
      f.0,
    );
    back = λ p h e. elim (Bool-cases (path_eq path p)) [
      | inl same ↦ (path, ground (arith, find_handle-stored p, lookup_path-fresh), same)
      | inr differs ↦
          let (q, at, eq) = s.back p h (ground (arith, find_handle-stored p)) in
          (q, lasts h q f at, eq)
    ];
  }

  IsFine-store :
      (p : Pc) → IsFine m (numbered path id) → taken p ≢ some id → IsFine m p → IsFine stored p
  unfolding store_mappings
  IsFine-store idle f ne g = tt
  IsFine-store (asked q) f ne g = tt
  IsFine-store (missing q) f ne g = tt
  IsFine-store (numbered q a) f ne g = (
    g.0,
    λ h r e u. ne (
        ground (
          arith,
          lookup_path-stored h,
          bytes_eq→eq fresh h,
          id_of-new_handle id (path_hash path) small,
          g.1 h r,
        )),
  )
  IsFine-store (returned q h) f ne g = let (r, at, same) = g in (r, lasts h r f at, same)

  pub IsSafe-store :
      {pc : ℕ → Pc} (i : ℕ)
      → pc i ≡ numbered path id
      → IsSafe m pc
      → IsSafe stored (update pc i (returned path fresh))
  IsSafe-store {pc} i e safe =
      let f = subst (λ p. IsFine m p) e (safe.fine i) in
      IsSafe-update i _ safe (IsSound-store f safe.sound)
        (path, lookup_path-fresh, path_eq_refl path)
        (λ j ne. IsFine-store (pc j) f (safe.apart i j id ne (rw e refl)) (safe.fine j))
        (λ j a ne u. absurd (cc))
