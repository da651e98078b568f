-- ===== src/Fsal/Handle/Threads/Race.antt =====
-- Two calls of `create_handle` for one path, interleaved at the locks of src/fsal/handle.rs.
use arcticwolf.Base.{
  ℕ, ◌+◌, ◌^◌, ◌<◌, ◌≡◌, ◌≢◌, refl, sym, ◌∙◌, true, none, some, Option, inl, inr, ◌⊎◌, arith, ap,
}
use arcticwolf.Base.Text.{bytes_eq→eq}
use arcticwolf.Base.HashMap.{get_cong, beq_sym}
use arcticwolf.Fsal.FilePath.{FilePath, path_key, path_eq, path_eq_refl}
use arcticwolf.Fsal.Handle.{
  FileHandle, HandleManager, new_handle, find_handle, take_id, store_mappings, lookup_path,
}
use arcticwolf.Fsal.Handle.Ids.{id_of, id_of-new_handle}
use arcticwolf.Fsal.Handle.Invariant.{IsValid}
use arcticwolf.Fsal.Handle.Threads.{
  Pc, idle, asked, missing, numbered, returned, Move, call, found, absent, number, store, leave,
}
use arcticwolf.Fsal.Handle.Threads.Steps.{lookup_path-stored, lookup_path-fresh, find_handle-stored}

-- Two tasks that take turns in any order at the locks, neither of which leaves its call: the table
-- and where they stand, from one state to another.
pub data Race (path_hash : FilePath → ℕ) (m : HandleManager) (p q : Pc)
    : HandleManager → Pc → Pc → Type 0 where
  ready : Race path_hash m p q m p q
  first :
      {m' m'' : HandleManager} {p' q' p'' : Pc}
      → Race path_hash m p q m' p' q'
      → Move path_hash m' p' m'' p''
      → p'' ≢ idle
      → Race path_hash m p q m'' p'' q'
  second :
      {m' m'' : HandleManager} {p' q' q'' : Pc}
      → Race path_hash m p q m' p' q'
      → Move path_hash m' q' m'' q''
      → q'' ≢ idle
      → Race path_hash m p q m'' p' q''

-- A task that has not found its path, at any point after that.
abbrev Place : FilePath → HandleManager → Pc → Type 0
Place path m (missing r) = r ≡ path
Place path m (numbered r id) = (r ≡ path) × (id < m.next_id)
Place path m (returned r h) = (r ≡ path) × (lookup_path h m ≡ some path) × (id_of h < m.next_id)
Place path m _ = ⊥

-- The id that a task has taken, the handle that it was given, and the ids that it will still take.
abbrev id_at : Pc → Option ℕ
id_at (numbered r id) = some id
id_at (returned r h) = some (id_of h)
id_at _ = none

abbrev given : Pc → Option FileHandle
given (returned r h) = some h
given _ = none

abbrev ahead : Pc → ℕ
ahead (missing r) = 1
ahead _ = 0

record IsRace (path path' : FilePath) (m : HandleManager) (p q : Pc) : Type 0 where
  same : path_eq path path' ≡ true
  left : Place path m p
  right : Place path' m q
  apart : (id : ℕ) → id_at p ≡ some id → id_at q ≢ some id
  leads :
      ((given p ≡ none) × (given q ≡ none))
      ⊎ (find_handle path m ≡ given p)
      ⊎ (find_handle path m ≡ given q)
  room : m.next_id + ahead p + ahead q < 2 ^ 64

IsRace-swap :
    {path path' : FilePath} {m : HandleManager} {p q : Pc}
    → IsRace path path' m p q
    → IsRace path' path m q p
unfolding find_handle
IsRace-swap {path} {path'} {m} r =
    let there = get_cong m.path_to_handle path path' r.same in
    record {
      same = beq_sym path path' r.same;
      left = r.right;
      right = r.left;
      apart = λ id e e'. r.apart id e' e;
      leads = elim r.leads [
        | inl (e, e') ↦ inl (e', e)
        | inr (inl e) ↦ inr (inr (sym there ∙ e))
        | inr (inr e) ↦ inr (inl (sym there ∙ e))
      ];
      room = omega (arith, r.room);
    }

id_lt :
    (path : FilePath) (m : HandleManager) (q : Pc) (id : ℕ)
    → Place path m q
    → id_at q ≡ some id
    → id < m.next_id
id_lt path m idle id at e = absurd at
id_lt path m (asked r) id at e = absurd at
id_lt path m (missing r) id at e = absurd (cc)
id_lt path m (numbered r a) id at e = ground (arith, at.1, e)
id_lt path m (returned r h) id at e = ground (arith, at.2, e)

Place-number :
    (path : FilePath) (m : HandleManager) (q : Pc)
    → m.next_id + 1 < 2 ^ 64
    → Place path m q
    → Place path (take_id m).0 q
unfolding take_id lookup_path
Place-number path m idle room at = at
Place-number path m (asked r) room at = at
Place-number path m (missing r) room at = at
Place-number path m (numbered r a) room at = (at.0, omega (arith, at.1))
Place-number path m (returned r h) room at = (at.0, at.1, omega (arith, at.2))

module _ (path_hash : FilePath → ℕ) (path : FilePath) (id : ℕ) (m : HandleManager)
    (small : id < 2 ^ 64) where
  Place-store :
      (other : FilePath) (q : Pc)
      → id_at q ≢ some id
      → Place other m q
      → Place other (store_mappings (new_handle id (path_hash path)) path m) q
  unfolding store_mappings
  Place-store other idle ne at = at
  Place-store other (asked r) ne at = at
  Place-store other (missing r) ne at = at
  Place-store other (numbered r a) ne at = at
  Place-store other (returned r h) ne at = (
    at.0,
    ground (
      arith,
      at.1,
      ne,
      lookup_path-stored path_hash path id m small h,
      bytes_eq→eq (new_handle id (path_hash path)) h,
      id_of-new_handle id (path_hash path) small,
    ),
    at.2,
  )

-- A move of the first task.
IsRace-Move :
    {path_hash : FilePath → ℕ} {path path' : FilePath} {m m' : HandleManager} {p p' q : Pc}
    → IsRace path path' m p q
    → Move path_hash m p m' p'
    → p' ≢ idle
    → IsRace path path' m' p' q
unfolding take_id store_mappings find_handle
IsRace-Move r (call at) stay = absurd r.left
IsRace-Move r (found at) stay = absurd r.left
IsRace-Move r (absent at) stay = absurd r.left
IsRace-Move {path' = path'} {m} {q} r number stay = record {
  same = r.same;
  left = (r.left, omega (arith, r.room));
  right = Place-number path' m q (omega (arith, r.room)) r.right;
  apart = λ id e e'. ground (arith, id_lt path' m q id r.right e', e);
  leads = r.leads;
  room = omega (arith, r.room);
}
IsRace-Move {path_hash} {path} {path'} {m} {q} r (store {path = s} {id}) stay =
    let small : id < 2 ^ 64 = omega (arith, r.left.1, r.room) in
    let named = id_of-new_handle id (path_hash s) small in
    record {
      same = r.same;
      left = (
        r.left.0,
        lookup_path-fresh path_hash s id m small ∙ ap some r.left.0,
        omega (arith, r.left.1, named),
      );
      right = Place-store path_hash s id m small path' q (r.apart id refl) r.right;
      apart = λ a e e'. r.apart a (ap some (sym named) ∙ e) e';
      leads = inr (
          inl (
            find_handle-stored path_hash s id m small path
            ∙ rw r.left.0 (rw (path_eq_refl path) refl)));
      room = omega (arith, r.room);
    }
IsRace-Move r leave stay = absurd (stay refl)

race-IsRace :
    {path_hash : FilePath → ℕ} {path path' : FilePath} {m : HandleManager} {p q : Pc}
    {m' : HandleManager} {p' q' : Pc}
    → Race path_hash m p q m' p' q'
    → IsRace path path' m p q
    → IsRace path path' m' p' q'
race-IsRace ready r = r
race-IsRace (first w mv stay) r = IsRace-Move (race-IsRace w r) mv stay
race-IsRace (second w mv stay) r = IsRace-swap (IsRace-Move (IsRace-swap (race-IsRace w r)) mv stay)

-- Two calls of `create_handle` for equal paths that have both looked for the path in vain, and
-- then take their turns at the locks in any order with no other call between, return two
-- different handles: each reads as the path of its call, the path leads to one of the two, and
-- the table is not valid. The counter has room for two.
pub raced_apart :
    {path_hash : FilePath → ℕ} (path path' : FilePath) (m m' : HandleManager) (h h' : FileHandle)
    → path_eq path path' ≡ true
    → m.next_id + 2 < 2 ^ 64
    → Race path_hash m (missing path) (missing path') m' (returned path h) (returned path' h')
    → (h ≢ h')
      × (lookup_path h m' ≡ some path)
      × (lookup_path h' m' ≡ some path')
      × ((find_handle path m' ≡ some h) ⊎ (find_handle path m' ≡ some h'))
      × (¬ IsValid m')
unfolding find_handle lookup_path
raced_apart path path' m m' h h' same room race =
    let r = race-IsRace {path = path} {path' = path'} race (record {
      same = same;
      left = refl;
      right = refl;
      apart = λ id e. absurd (cc);
      leads = inl (refl, refl);
      room = omega (arith, room);
    }) in
    let ne : h ≢ h' = λ e. r.apart (id_of h) refl (ap (λ j. some (id_of j)) (sym e)) in
    (
      ne,
      r.left.1,
      r.right.1,
      elim r.leads [ inl (e, e') ↦ absurd (cc) | inr e ↦ e ],
      λ v. absurd (
          ground (
            arith,
            ne,
            v.forth h path r.left.1,
            v.forth h' path' r.right.1,
            get_cong m'.path_to_handle path path' same,
          )),
    )
