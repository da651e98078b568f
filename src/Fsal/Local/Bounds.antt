-- ===== src/Fsal/Local/Bounds.antt =====
-- The sizes of what src/fsal/local/mod.rs hands out: handles have 32 bytes, a READ gives no more
-- than it was asked for.
use arcticwolf.Base.{
  ℕ, ◌^◌, ◌≤◌, ◌<◌, ◌≡◌, refl, some, length, Option-cases, Bool-cases, subst, ok, inl, inr, context,
  context-ok, ◌-◌, arith,
}
use arcticwolf.Base.HashMap.{HashMap, get, insert, get-insert}
use arcticwolf.Base.Returns.{Returns, Returns-then, Returns-ok}
use arcticwolf.Base.Text.{Text, Bytes}
use arcticwolf.Base.Words.{be64}
use arcticwolf.Fsal.FilePath.{FilePath, join, path_eq, path_key}
use arcticwolf.Fsal.Types.{FileType}
use arcticwolf.Fsal.Os.{Os}
use arcticwolf.Fsal.Handle.{FileHandle, HandleManager, create_handle, new_handle}
use arcticwolf.Fsal.Local.{Local, resolve_handle}
use arcticwolf.Fsal.Local.Operations
use arcticwolf.Fsal.Local.Backend.{BackendConfig, create_filesystem, local_filesystem}
use arcticwolf.Fsal.Local.Start.{configured_root, new_started}
use arcticwolf.Fsal.Handle
use arcticwolf.Fsal.Local.Kept.{local-Kept, make_node-Kept}
use arcticwolf.Nfs.Kept.{IsKept}
use arcticwolf.Nfs.Layout.Answer.{IsBounded}

-- POSIX: a read gives no more than it was asked for, and the target of a link is a path.
pub record IsFrugal (O : Os) : Type 0 where
  pub read_size :
      (f : O.File) (n : ℕ) (s : O.State) (b : Bytes) → (O.read f n s).1 ≡ ok b → length b ≤ n
  pub link_size :
      (s : O.State) (p : FilePath) (t : Text) → O.read_link s p ≡ ok t → length t < 2 ^ 32

pub record IsHandle (h : FileHandle) : Type 0 where
  pub size : length h ≡ 32

pub record AtMost (n : ℕ) (b : Bytes) : Type 0 where
  pub at_most : length b ≤ n

-- Every handle in the table has 32 bytes.
pub record HasHandles (m : HandleManager) : Type 0 where
  pub sized : (p : FilePath) (h : FileHandle) → get m.path_to_handle p ≡ some h → IsHandle h

new_handle-IsHandle : (id path_hash : ℕ) → IsHandle (new_handle id path_hash)
unfolding new_handle be64
new_handle-IsHandle id path_hash = record { size = refl }

create_handle-IsHandle :
    (path_hash : FilePath → ℕ) (p : FilePath) (m : HandleManager)
    → HasHandles m
    → IsHandle (create_handle path_hash p m).1
unfolding create_handle
create_handle-IsHandle path_hash p m has = elim (Option-cases (get m.path_to_handle p)) [
  | inl gone ↦ rw (gone, create_handle) (new_handle-IsHandle m.next_id (path_hash p))
  | inr (h, found) ↦ rw (found, create_handle) (has.sized p h found)
]

new-HasHandles : HasHandles Handle.new
unfolding Handle.new get
new-HasHandles = record { sized = λ p h found. absurd (cc) }

insert-HasHandles :
    (table : HashMap FilePath FileHandle) (fresh : FileHandle) (p q : FilePath) (h : FileHandle)
    → IsHandle fresh
    → ((q : FilePath) (h : FileHandle) → get table q ≡ some h → IsHandle h)
    → get (insert table p fresh) q ≡ some h
    → IsHandle h
insert-HasHandles table fresh p q h new others found = elim (Bool-cases (path_eq p q)) [
  | inl same ↦ subst IsHandle (ground (arith, found, same, get-insert table p q fresh)) new
  | inr other ↦ others q h (ground (arith, found, other, get-insert table p q fresh))
]

create_handle-HasHandles :
    (path_hash : FilePath → ℕ) (p : FilePath) (m : HandleManager)
    → HasHandles m
    → HasHandles (create_handle path_hash p m).0
unfolding create_handle
create_handle-HasHandles path_hash p m has = elim (Option-cases (get m.path_to_handle p)) [
  | inl gone ↦
      let handle = new_handle m.next_id (path_hash p) in
      rw (gone, create_handle)
        (record {
          sized = λ q h found.
              insert-HasHandles m.path_to_handle handle p q h
                (new_handle-IsHandle m.next_id (path_hash p)) has.sized found;
        })
  | inr (h, found) ↦ rw (found, create_handle) has
]

module _ (O : Os) where
  -- The handles of a state of the local filesystem.
  pub record KeepsHandles (l : Local O) : Type 0 where
    pub table : HasHandles l.handle_manager

  keeps_issued :
      (path : FilePath) (l : Local O)
      → KeepsHandles l
      → KeepsHandles
          (record l { handle_manager = (create_handle O.path_hash path l.handle_manager).0 })
  keeps_issued path l p = record {
    table = create_handle-HasHandles O.path_hash path l.handle_manager p.table;
  }

  pub KeepsHandles-Kept : IsKept (local_filesystem O) KeepsHandles
  KeepsHandles-Kept = local-Kept O (λ d l p. record { table = p.table }) keeps_issued

  -- A server that has just started.
  pub create_filesystem-KeepsHandles :
      (config : BackendConfig) (disk : O.State) (l : Local O)
      → create_filesystem O config disk ≡ ok l
      → KeepsHandles l
  create_filesystem-KeepsHandles config disk l e =
      let (root, made) = configured_root O config.backend_type config.local_root disk l e in
      let (path, same) = new_started O root disk l made in
      subst KeepsHandles same
        (record { table = create_handle-HasHandles O.path_hash path Handle.new new-HasHandles })

  issued-IsHandle :
      (path root_path : FilePath) (m : HandleManager) (root : FileHandle) (d : O.State)
      → HasHandles m
      → Returns {S = Local O} IsHandle (
        record {
          root_path = root_path;
          handle_manager = (create_handle O.path_hash path m).0;
          root_handle = root;
          disk = d;
        },
        ok (create_handle O.path_hash path m).1,
      )
  issued-IsHandle path root_path m root d has =
      Returns-ok (create_handle-IsHandle O.path_hash path m has)

  module _ (h : FileHandle) (n : Text) (l : Local O) (has : HasHandles l.handle_manager) where
    create-IsHandle : (mode : ℕ) → Returns IsHandle (Operations.create O h n mode l)
    unfolding Operations.create
    create-IsHandle mode = search (Returns-then, issued-IsHandle)

    mkdir-IsHandle : (mode : ℕ) → Returns IsHandle (Operations.mkdir O h n mode l)
    unfolding Operations.mkdir
    mkdir-IsHandle mode = search (Returns-then, issued-IsHandle)

    symlink-IsHandle : (target : Text) → Returns IsHandle (Operations.symlink O h n target l)
    unfolding Operations.symlink
    symlink-IsHandle target = search (Returns-then, issued-IsHandle)

    mknod-IsHandle :
        (t : FileType) (mode : ℕ) (d : ℕ × ℕ) → Returns IsHandle (Operations.mknod O h n t mode d l)
    unfolding Operations.mknod
    mknod-IsHandle t mode d = Returns-then l (resolve_handle O h l) _ λ dir.
        let q =
          (make_node-Kept O {P = KeepsHandles} (λ d l p. record { table = p.table }) t (join dir n)
            mode d l (record { table = has })).state in
        Returns-then _ (Operations.make_node O t (join dir n) mode d l).1 _
          λ u. Returns-ok (create_handle-IsHandle O.path_hash (join dir n) _ q.table)

  module _ (frugal : IsFrugal O) where
    read_end :
        (s : Local O) (what : Text) (f : O.File) (n : ℕ) (d : O.State)
        → Returns (AtMost n) (s, context what (O.read f n d).1)
    read_end s what f n d = record {
      result_of = λ b e. record {
        at_most = frugal.read_size f n d b (context-ok what (O.read f n d).1 b e);
      };
    }

    read-AtMost :
        (h : FileHandle) (o c : ℕ) (l : Local O) → Returns (AtMost c) (Operations.read O h o c l)
    unfolding Operations.read
    read-AtMost h o c l = search (Returns-then, read_end)

    link_end :
        (s : Local O) (what : Text) (p : FilePath) (d : O.State)
        → Returns (AtMost (2 ^ 32 - 1)) (s, context what (O.read_link d p))
    link_end s what p d = record {
      result_of = λ t e. record {
        at_most = omega (arith, frugal.link_size d p t (context-ok what (O.read_link d p) t e));
      };
    }

    readlink-AtMost :
        (h : FileHandle) (l : Local O) → Returns (AtMost (2 ^ 32 - 1)) (Operations.readlink O h l)
    unfolding Operations.readlink
    readlink-AtMost h l = search (Returns-then, link_end)

    shorter : {b : Bytes} → IsHandle b → length b < 2 ^ 32
    shorter h = omega (arith, h.size)

    -- The local filesystem hands out nothing that is too long to be packed.
    pub local-IsBounded : IsBounded (local_filesystem O) KeepsHandles
    local-IsBounded = record {
      read = λ h o c l b word p e. omega (arith, ((read-AtMost h o c l).result_of b e).at_most);
      readlink = λ h l t p e. omega (arith, ((readlink-AtMost h l).result_of t e).at_most);
      create = λ h n m l b p e. shorter ((create-IsHandle h n l p.table m).result_of b e);
      mkdir = λ h n m l b p e. shorter ((mkdir-IsHandle h n l p.table m).result_of b e);
      symlink = λ h n t l b p e. shorter ((symlink-IsHandle h n l p.table t).result_of b e);
      mknod = λ h n t m d l b p e. shorter ((mknod-IsHandle h n l p.table t m d).result_of b e);
    }
