-- ===== src/Fsal/Local/Contents.antt =====
-- READ after WRITE in src/fsal/local/mod.rs, on a disk that keeps the contents of its files.
use arcticwolf.Base.{
  ◌⊎◌, inl, inr, [], ◌∷◌, ℕ, ◌+◌, ◌-◌, ◌^◌, ◌≤◌, ◌<◌, ◌≡◌, refl, sym, ◌∙◌, ap, false, Option, some,
  ◌++◌, then_on-ok, context-ok, length, length-take, length-append, length-replicate, drop_append,
  take-append, take-take, length-drop, subst, take, drop, replicate, ok, arith,
}
use arcticwolf.Base.Text.{Bytes}
use arcticwolf.Fsal.FilePath.{FilePath}
use arcticwolf.Fsal.Os.{Os, OpenOptions}
use arcticwolf.Fsal.Handle.{FileHandle}
use arcticwolf.Fsal.Local.{Local, resolve_handle}
use arcticwolf.Fsal.Local.Operations.{read, write}

-- What a file holds after bytes are written at an offset: a gap is filled with zeros, and no bytes
-- leave it as it is.
abbrev pub overwrite : Bytes → ℕ → Bytes → Bytes
overwrite c k [] = c
overwrite c k (n ∷ b) =
    take k (c ++ replicate (k - length c) 0) ++ ((n ∷ b) ++ drop (k + length (n ∷ b)) c)

-- What a read of so many bytes at the position may give of the contents: what is there, all of it
-- or a part, but some of it unless none is asked for or none is there.
pub record IsRead (c : Bytes) (k n : ℕ) (b : Bytes) : Type 0 where
  pub few : length b ≤ n
  pub part : b ≡ take (length b) (drop k c)
  pub some_of : (n ≡ 0) ⊎ (length c ≤ k) ⊎ (0 < length b)

-- POSIX: an open file has a position in its file. Opening without truncation, seeking and syncing
-- leave the contents of regular files; a read gives a part of what is there from the position on;
-- a write puts as many bytes as it says at the position.
pub record IsDisk (O : Os) : Type 0 where
  pub contents : O.State → FilePath → Option Bytes
  pub position : O.State → O.File → Option (FilePath × ℕ)
  pub open_lem :
      (o : OpenOptions) (p : FilePath) (s : O.State) (f : O.File) (c : Bytes)
      → o.truncate ≡ false
      → contents s p ≡ some c
      → (O.open_file o p s).1 ≡ ok f
      → let s' = (O.open_file o p s).0 in (contents s' p ≡ some c) × (position s' f ≡ some (p, 0))
  pub seek_lem :
      (f : O.File) (k : ℕ) (s : O.State) (p : FilePath) (j : ℕ) (c : Bytes)
      → position s f ≡ some (p, j)
      → contents s p ≡ some c
      → (O.seek f k s).1 ≡ ok tt
      → let s' = (O.seek f k s).0 in (contents s' p ≡ some c) × (position s' f ≡ some (p, k))
  pub read_lem :
      (f : O.File) (n : ℕ) (s : O.State) (p : FilePath) (k : ℕ) (c b : Bytes)
      → position s f ≡ some (p, k)
      → contents s p ≡ some c
      → (O.read f n s).1 ≡ ok b
      → IsRead c k n b
  pub write_lem :
      (f : O.File) (b : Bytes) (s : O.State) (p : FilePath) (k : ℕ) (c : Bytes) (n : ℕ)
      → position s f ≡ some (p, k)
      → contents s p ≡ some c
      → (O.write f b s).1 ≡ ok n
      → (n ≤ length b) × (contents (O.write f b s).0 p ≡ some (overwrite c k (take n b)))
  pub sync_lem :
      (f : O.File) (s : O.State) (p : FilePath) (c : Bytes)
      → contents s p ≡ some c
      → (O.sync_all f s).1 ≡ ok tt
      → contents (O.sync_all f s).0 p ≡ some c

-- Bytes that are written are what the file holds at the offset.
drop-overwrite :
    (c : Bytes) (k : ℕ) (b : Bytes)
    → 0 < length b
    → drop k (overwrite c k b) ≡ b ++ drop (k + length b) c
drop-overwrite c k [] h = absurd (omega (arith, h))
drop-overwrite c k (n ∷ b) h =
    let front : length (take k (c ++ replicate (k - length c) 0)) ≡ k =
      length-take k (c ++ replicate (k - length c) 0)
      ∙ omega (
        arith,
        length-append c (replicate (k - length c) 0),
        length-replicate {A = ℕ} (k - length c) 0,
      ) in
    ap (λ j. drop j (overwrite c k (n ∷ b))) (sym front)
    ∙ drop_append (take k (c ++ replicate (k - length c) 0)) _

-- A read of what was written gives the beginning of it.
IsRead-overwrite :
    (c : Bytes) (k : ℕ) (b found : Bytes)
    → IsRead (overwrite c k b) k (length b) found
    → IsRead b 0 (length b) found
IsRead-overwrite c k [] found r = record {
  few = r.few;
  part = let none_of : length found ≡ 0 = omega (arith, r.few) in r.part ∙ rw none_of refl;
  some_of = inl refl;
}
IsRead-overwrite c k (n ∷ b) found r =
    let there = drop-overwrite c k (n ∷ b) (omega arith) in
    record {
      few = r.few;
      part =
          r.part
          ∙ ap (take (length found)) there
          ∙ take-append (length found) (n ∷ b) (drop (k + length (n ∷ b)) c) r.few;
      some_of = inr (
          inr (
            omega (
              arith,
              r.some_of,
              length-drop k (overwrite c k (n ∷ b)),
              ap length there,
              length-append (n ∷ b) (drop (k + length (n ∷ b)) c),
            )));
    }

at_equals :
    (held : FilePath → Option Bytes) (k : ℕ) (c b : Bytes) {q p : FilePath} {m n : ℕ}
    → q ≡ p
    → m ≡ n
    → held q ≡ some (overwrite c k (take m b))
    → held p ≡ some (overwrite c k (take n b))
at_equals held k c b same whole e = rw (sym same, sym whole) e

module _ (O : Os) (disk : IsDisk O) where
  -- What a READ that succeeds returns.
  pub read_gives :
      (h : FileHandle) (offset count : ℕ) (l : Local O) (p : FilePath) (c b : Bytes)
      → resolve_handle O h l ≡ ok p
      → disk.contents l.disk p ≡ some c
      → (read O h offset count l).1 ≡ ok b
      → IsRead c offset count b
  unfolding read
  read_gives h offset count l p c b at has e =
      let (q, found, _, e1) = then_on-ok l (resolve_handle O h l) _ b e in
      let has' : disk.contents l.disk q ≡ some c = ground (arith, has, found, at) in
      let (f, opened, _, e2) = then_on-ok _ _ _ b e1 in
      let (c1, p1) = disk.open_lem _ q l.disk f c refl has' (context-ok _ _ f opened) in
      let (u, sought, _, e3) = then_on-ok _ _ _ b e2 in
      let (c2, p2) = disk.seek_lem f offset _ q 0 c p1 c1 (context-ok _ _ tt sought) in
      disk.read_lem f count _ q offset c b p2 c2 (context-ok _ _ b e3)

  -- What a WRITE that succeeds leaves in the file, and that it leaves the handles alone.
  write_leaves :
      (h : FileHandle) (offset : ℕ) (b : Bytes) (l : Local O) (p : FilePath) (c : Bytes) (n : ℕ)
      → length b < 2 ^ 32
      → resolve_handle O h l ≡ ok p
      → disk.contents l.disk p ≡ some c
      → (write O h offset b l).1 ≡ ok n
      → let l' = (write O h offset b l).0 in
        (n ≤ length b)
        × (l'.handle_manager ≡ l.handle_manager)
        × (disk.contents l'.disk p ≡ some (overwrite c offset (take n b)))
  unfolding write
  write_leaves h offset b l p c n small at has e =
      let (q, found, s0, e1) = then_on-ok l (resolve_handle O h l) _ n e in
      let same : q ≡ p = ground (arith, found, at) in
      let has' : disk.contents l.disk q ≡ some c = rw same has in
      let (f, opened, s1, e2) = then_on-ok _ _ _ n e1 in
      let (c1, p1) = disk.open_lem _ q l.disk f c refl has' (context-ok _ _ f opened) in
      let (u, sought, s2, e3) = then_on-ok _ _ _ n e2 in
      let (c2, p2) = disk.seek_lem f offset _ q 0 c p1 c1 (context-ok _ _ tt sought) in
      let (m, wrote, s3, e4) = then_on-ok _ _ _ n e3 in
      let (few, c3) = disk.write_lem f b _ q offset c m p2 c2 (context-ok _ _ m wrote) in
      let (v, synced, s4, e5) = then_on-ok _ _ _ n e4 in
      let c4 = disk.sync_lem f _ q _ c3 (context-ok _ _ tt synced) in
      let all = s0 ∙ s1 ∙ s2 ∙ s3 ∙ s4 in
      let whole : m ≡ n = ground (arith, e5, few) in
      (
        omega (arith, few, whole),
        ap (λ t. t.0.handle_manager) all,
        ap (λ t. disk.contents t.0.disk p) all
            ∙ at_equals (disk.contents _) offset c b same whole c4,
      )

  pub read-write :
      (h : FileHandle) (offset : ℕ) (b : Bytes) (l : Local O) (p : FilePath) (c : Bytes) (n : ℕ)
      → (found : Bytes) → length b < 2 ^ 32
      → resolve_handle O h l ≡ ok p
      → disk.contents l.disk p ≡ some c
      → (write O h offset b l).1 ≡ ok n
      → (read O h offset n (write O h offset b l).0).1 ≡ ok found
      → (n ≤ length b)
        × (length found ≤ n)
        × (found ≡ take (length found) b)
        × ((n ≡ 0) ⊎ (0 < length found))
  unfolding resolve_handle
  read-write h offset b l p c n found small at has wrote e =
      let (few, same, holds) = write_leaves h offset b l p c n small at has wrote in
      let at' : resolve_handle O h (write O h offset b l).0 ≡ ok p = rw (same, resolve_handle) at in
      let size : length (take n b) ≡ n = length-take n b ∙ omega (arith, few) in
      let r = IsRead-overwrite c offset (take n b) found (
        subst (λ j. IsRead (overwrite c offset (take n b)) offset j found) (sym size)
          (read_gives h offset n _ p _ found at' holds e)) in
      (
        few,
        omega (arith, r.few, size),
        r.part ∙ take-take (length found) n b (omega (arith, r.few, size)),
        omega (arith, r.some_of, size),
      )
