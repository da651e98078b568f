-- ===== src/Rpc/Server/Reuse.antt =====
-- The handle that a client gets for a name, and the handle of that name later on in the life of the
-- server (src/rpc/server.rs on top of src/fsal).
use arcticwolf.Base.{ℕ, ◌+◌, ◌^◌, ◌<◌, ◌≡◌, sym, ◌∙◌, ap, some, ok, subst, true, arith}
use arcticwolf.Base.Text.{Text}
use arcticwolf.Fsal.FilePath.{FilePath, join, path_eq, path_key}
use arcticwolf.Fsal.Os.{Os}
use arcticwolf.Fsal.Handle.{
  FileHandle, HandleManager, create_handle, find_handle, lookup_path, count,
}
use arcticwolf.Fsal.Handle.Invariant.{HasRoom, IsValid, create_handle-IsValid}
use arcticwolf.Fsal.Handle.Laws.{
  create_handle_found, create_handle_resolves, lookup_path-create_handle,
}
use arcticwolf.Base.HashMap.{get_cong}
use arcticwolf.Fsal.Local.{Local}
use arcticwolf.Fsal.Local.Backend.{local_filesystem}
use arcticwolf.Fsal.Local.Naming.{Naming, name_it, name_it-Names, resolved_path}
use arcticwolf.Protocol.Xdr.{Xdr}
use arcticwolf.Rpc.Server.Accept.{Run}
use arcticwolf.Rpc.Server.Lasting.{State, files, manager, handles_last}

-- A table that reads the handle as a path gives an equal path that handle.
create_handle_known :
    (path_hash : FilePath → ℕ) (h : FileHandle) (p path : FilePath) (m : HandleManager)
    → IsValid m
    → lookup_path h m ≡ some p
    → path_eq p path ≡ true
    → (create_handle path_hash path m).1 ≡ h
unfolding lookup_path find_handle
create_handle_known path_hash h p path m v known same =
    ap (λ t. t.1)
      (create_handle_found path_hash path m h
        (sym (get_cong m.path_to_handle p path same) ∙ v.forth h p known))

module _ (O : Os) (dir : FileHandle) (name : Text) where
  -- What a table knows once the name has been given the handle.
  record Knows (h : FileHandle) (m : HandleManager) : Type 0 where
    dir_path : FilePath
    dir_known : lookup_path dir m ≡ some dir_path
    path : FilePath
    known : lookup_path h m ≡ some path
    same : path_eq path (join dir_path name) ≡ true
    valid : IsValid m

  name_it-Knows :
      (op : Naming) (l : Local O) (h : FileHandle)
      → IsValid l.handle_manager
      → HasRoom l.handle_manager
      → (name_it O op dir name l).1 ≡ ok h
      → Knows h (name_it O op dir name l).0.handle_manager
  unfolding lookup_path
  name_it-Knows op l h v room e =
      let (d, found, table, handle) = (name_it-Names O dir name l op).named h e in
      let at = resolved_path O dir l d found in
      let path = join d name in
      let (q, resolves, eq) = create_handle_resolves O.path_hash path l.handle_manager v in
      subst (Knows h) (sym table) (record {
        dir_path = d;
        dir_known =
            lookup_path-create_handle O.path_hash path l.handle_manager v dir room
              (v.issued dir d at).1
            ∙ at;
        path = q;
        known =
            ap (λ j. lookup_path j (create_handle O.path_hash path l.handle_manager).0) handle
            ∙ resolves;
        same = eq;
        valid = create_handle-IsValid O.path_hash path l.handle_manager v room;
      })

  given_again :
      (op : Naming) (l : Local O) (h h' : FileHandle)
      → Knows h l.handle_manager
      → (name_it O op dir name l).1 ≡ ok h'
      → h' ≡ h
  given_again op l h h' k e =
      let (d, found, table, handle) = (name_it-Names O dir name l op).named h' e in
      let at = resolved_path O dir l d found in
      let same : d ≡ k.dir_path = ground (arith, at, k.dir_known) in
      handle
      ∙ create_handle_known O.path_hash h k.path (join d name) l.handle_manager k.valid k.known
          (subst (λ q. path_eq k.path (join q name) ≡ true) (sym same) k.same)

  module _ (x : Xdr) where
    run-Knows :
        (s t : State O x) (h : FileHandle)
        → Run x (local_filesystem O) s t
        → Knows h (manager O x s)
        → count (manager O x t) + (manager O x s).next_id + 1 < 2 ^ 64 + count (manager O x s)
        → Knows h (manager O x t)
    run-Knows s t h run k room =
        let (valid, dir_known, _, _) =
          handles_last O x s t dir k.dir_path run k.valid k.dir_known room in
        let (_, known, _, _) = handles_last O x s t h k.path run k.valid k.known room in
        record {
          dir_path = k.dir_path;
          dir_known = dir_known;
          path = k.path;
          known = known;
          same = k.same;
          valid = valid;
        }

    -- A name that LOOKUP, CREATE, MKDIR, SYMLINK or MKNOD has given a handle for is given the
    -- same handle by each of them that succeeds on it later, whatever bytes arrive in between on
    -- whatever connections, which take turns message by message: also where the file has been
    -- removed in between and another is created in its place. The handle table is valid and its
    -- counter has room at first, and it does not gain so many handles that the counter runs out.
    pub name_it_again :
        (op op' : Naming) (l : Local O) (s t : State O x) (h h' : FileHandle)
        → IsValid l.handle_manager
        → HasRoom l.handle_manager
        → (name_it O op dir name l).1 ≡ ok h
        → files O x s ≡ (name_it O op dir name l).0
        → Run x (local_filesystem O) s t
        → count (manager O x t) + (manager O x s).next_id + 1 < 2 ^ 64 + count (manager O x s)
        → (name_it O op' dir name (files O x t)).1 ≡ ok h'
        → h' ≡ h
    name_it_again op op' l s t h h' v room given here run few again =
        let k =
          subst (λ l. Knows h l.handle_manager) (sym here) (name_it-Knows op l h v room given) in
        given_again op' (files O x t) h h' (run-Knows s t h run k few) again
