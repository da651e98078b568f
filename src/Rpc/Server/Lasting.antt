-- ===== src/Rpc/Server/Lasting.antt =====
-- The file handles that clients hold, over the life of the server (src/rpc/server.rs on top of
-- src/fsal): a connection and the local filesystem behind it.
use arcticwolf.Base.{◌+◌, ◌^◌, ◌<◌, ◌≡◌, refl, ◌⊎◌, inl, inr, some, ok, arith, Result-cases}
use arcticwolf.Base.Text.{Bytes}
use arcticwolf.Fsal.FilePath.{FilePath}
use arcticwolf.Fsal.Os.{Os}
use arcticwolf.Fsal.Handle.{FileHandle, HandleManager, lookup_path, count}
use arcticwolf.Fsal.Handle.Invariant.{IsValid}
use arcticwolf.Fsal.Handle.Growth.{HasGrown, IsUsedUp, HasGrown-refl, create_handle-HasGrown}
use arcticwolf.Fsal.Local.{Local}
use arcticwolf.Fsal.Local.Backend.{local_config, create_filesystem, local_filesystem}
use arcticwolf.Fsal.Local.Kept.{local-Kept}
use arcticwolf.Fsal.Local.Start.{create_filesystem-IsFresh}
use arcticwolf.Mount.{mnt_handle, deserialize_dirpath, create_mount_ok, serialize_mountres3}
use arcticwolf.Rpc.Message.{create_null_reply, serialize_reply}
use arcticwolf.Fsal.Filesystem.{Filesystem}
use arcticwolf.Protocol.Rpc.{RpcCallMsg}
use arcticwolf.Nfs.Kept.{IsKept}
use arcticwolf.Protocol.Xdr.{Xdr}
use arcticwolf.Rpc.Server.Accept.{RpcServer, Running, Run, listening, run-Kept}
use arcticwolf.Main.{export_path, main_server}

-- The result of MNT depends on the state by the root's handle alone.
mnt_same :
    (x : Xdr) (F : Filesystem) (call : RpcCallMsg) (args : Bytes) (s t : F.State)
    → F.root_handle s ≡ F.root_handle t
    → (mnt_handle x F call args s).1 ≡ (mnt_handle x F call args t).1
unfolding mnt_handle
mnt_same x F call args s t e = elim (Result-cases (deserialize_dirpath x args)) [
  | inr (f, h) ↦ rw (h, mnt_handle) refl
  | inl (dir, h) ↦ elim (Result-cases (serialize_reply x (create_null_reply call.xid))) [
    | inr (f, h') ↦ rw (h, mnt_handle) (rw (h', mnt_handle) refl)
    | inl (header, h') ↦
        elim (Result-cases (serialize_mountres3 x (create_mount_ok (F.root_handle t)))) [
          | inr (f, h'') ↦ rw (h, mnt_handle) (rw (h', mnt_handle) (rw (e, h'', mnt_handle) refl))
          | inl (body, h'') ↦
              rw (h, mnt_handle) (rw (h', mnt_handle) (rw (e, h'', mnt_handle) refl))
        ]
  ]
]

module _ (O : Os) (x : Xdr) where
  abbrev pub State : Type 0
  State = Running x (local_filesystem O)

  abbrev pub files : State → Local O
  files s = s.server.shared.files

  abbrev pub manager : State → HandleManager
  manager s = (files s).handle_manager

  -- Since the table was `m` and the export had this root and root handle.
  pub record IsLater (m : HandleManager) (root : FilePath) (h : FileHandle) (l : Local O)
      : Type 0 where
    pub table : HasGrown m l.handle_manager ⊎ IsUsedUp m l.handle_manager
    pub same_root : l.root_path ≡ root
    pub same_handle : l.root_handle ≡ h

  IsLater-Kept :
      (m : HandleManager) (root : FilePath) (h : FileHandle)
      → IsKept (local_filesystem O) (IsLater m root h)
  IsLater-Kept m root h =
      local-Kept O
        (λ d l p. record { table = p.table; same_root = p.same_root; same_handle = p.same_handle })
        (λ path l p. record {
          table = create_handle-HasGrown O.path_hash path m l.handle_manager p.table;
          same_root = p.same_root;
          same_handle = p.same_handle;
        })

  -- Whatever bytes arrive on whatever connections, which take turns message by message, a valid
  -- handle table stays valid, a handle that read as a path still reads as that path, and the
  -- export root and its handle stay the same: as long as the table has not gained so many handles
  -- that the 64-bit counter of their ids runs out.
  pub handles_last :
      (s t : State) (h : FileHandle) (p : FilePath)
      → Run x (local_filesystem O) s t
      → IsValid (manager s)
      → lookup_path h (manager s) ≡ some p
      → count (manager t) + (manager s).next_id + 1 < 2 ^ 64 + count (manager s)
      → IsValid (manager t)
        × (lookup_path h (manager t) ≡ some p)
        × ((files t).root_path ≡ (files s).root_path)
        × ((files t).root_handle ≡ (files s).root_handle)
  handles_last s t h p run v e room =
      let later =
        run-Kept x (local_filesystem O)
          (IsLater-Kept (manager s) (files s).root_path (files s).root_handle) run
          (record {
            table = inl (HasGrown-refl (manager s) v);
            same_root = refl;
            same_handle = refl;
          }) in
      elim later.table [
        | inl g ↦ (g.valid, g.lasts h p e, later.same_root, later.same_handle)
        | inr full ↦ absurd (omega arith)
      ]

  pub main_started :
      (disk : O.State) (server : RpcServer x (local_filesystem O))
      → main_server O x disk ≡ ok server
      → create_filesystem O (local_config export_path) disk ≡ ok server.shared.files
  unfolding main_server
  main_started disk server e =
      elim (Result-cases (create_filesystem O (local_config export_path) disk)) [
        | inl (l, h) ↦ ground (arith, e, h)
        | inr (f, h) ↦ absurd (ground (arith, e, h))
      ]

  -- From the start of `main` on, and whatever bytes arrive on whatever connections, which take
  -- turns message by message, the handle of the root reads as the export root, and the answer of
  -- MNT to a call is what it would have been at the start: as long as the table holds fewer than
  -- 2 ^ 64 - 2 handles.
  pub root_lasts :
      (disk : O.State) (server : RpcServer x (local_filesystem O)) (t : State)
      → (call : RpcCallMsg) (args : Bytes) → main_server O x disk ≡ ok server
      → Run x (local_filesystem O) (listening x (local_filesystem O) server) t
      → count (manager t) + 2 < 2 ^ 64
      → let l = server.shared.files in
        (lookup_path l.root_handle (manager t) ≡ some l.root_path)
        × ((mnt_handle x (local_filesystem O) call args (files t)).1
            ≡ (mnt_handle x (local_filesystem O) call args l).1)
  root_lasts disk server t call args started run room =
      let l = server.shared.files in
      let fresh =
        create_filesystem-IsFresh O (local_config export_path) disk l
          (main_started disk server started) in
      let (valid, resolves, root, handle) =
        handles_last (listening x (local_filesystem O) server) t l.root_handle l.root_path run
          fresh.valid fresh.root_resolves (omega (arith, fresh.one_handle, fresh.next)) in
      (resolves, mnt_same x (local_filesystem O) call args (files t) l handle)
