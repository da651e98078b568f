-- ===== src/Fsal/Local/Kept.antt =====
-- What the operations of src/fsal/local/mod.rs leave as it is: they change the disk, and they issue
-- handles, and do nothing else.
use arcticwolf.Base.{ℕ, Option}
use arcticwolf.Base.Kept.{Kept, kept, Kept-then}
use arcticwolf.Base.Text.{Text, Bytes}
use arcticwolf.Fsal.FilePath.{FilePath, join}
use arcticwolf.Fsal.Os.{Os}
use arcticwolf.Fsal.Types.{
  FileType, regular_file, directory, block_device, char_device, symbolic_link, socket, named_pipe,
}
use arcticwolf.Fsal.Handle.{FileHandle, HandleManager, create_handle}
use arcticwolf.Fsal.Local.{Local, resolve_handle}
use arcticwolf.Fsal.Local.Operations
use arcticwolf.Fsal.Local.Backend.{local_filesystem}
use arcticwolf.Nfs.Kept.{IsKept}

module _ (O : Os) {P : Local O → Type 0}
    (on_disk : (d : O.State) (l : Local O) → P l → P (record l { disk = d })) where
  pub make_node-Kept :
      (t : FileType) (path : FilePath) (m : ℕ) (d : ℕ × ℕ) (l : Local O)
      → P l
      → Kept P (Operations.make_node O t path m d l)
  unfolding Operations.make_node
  make_node-Kept regular_file path m d l p = kept p
  make_node-Kept directory path m d l p = kept p
  make_node-Kept block_device path m d l p = search (Kept-then, kept, on_disk)
  make_node-Kept char_device path m d l p = search (Kept-then, kept, on_disk)
  make_node-Kept symbolic_link path m d l p = kept p
  make_node-Kept socket path m d l p = kept p
  make_node-Kept named_pipe path m d l p = search (Kept-then, kept, on_disk)

module _ (O : Os) {P : Local O → Type 0}
    (on_disk : (d : O.State) (l : Local O) → P l → P (record l { disk = d }))
    (on_issue : (path : FilePath) (l : Local O)
      → P l
      → P (record l { handle_manager = (create_handle O.path_hash path l.handle_manager).0 })) where
  -- The same, of the fields, as a rule that finds the state before.
  on_issue_of :
      (path root_path : FilePath) (m : HandleManager) (h : FileHandle) (d : O.State)
      → P (record { root_path = root_path; handle_manager = m; root_handle = h; disk = d })
      → P (record {
        root_path = root_path;
        handle_manager = (create_handle O.path_hash path m).0;
        root_handle = h;
        disk = d;
      })
  on_issue_of path root_path m h d p = on_issue path _ p

  lookup-Kept : (h : FileHandle) (n : Text) (l : Local O) → P l → Kept P (Operations.lookup O h n l)
  unfolding Operations.lookup
  lookup-Kept h n l p = search (Kept-then, kept, on_issue)

  getattr-Kept : (h : FileHandle) (l : Local O) → P l → Kept P (Operations.getattr O h l)
  unfolding Operations.getattr
  getattr-Kept h l p = search (Kept-then, kept)

  read-Kept : (h : FileHandle) (o c : ℕ) (l : Local O) → P l → Kept P (Operations.read O h o c l)
  unfolding Operations.read
  read-Kept h o c l p = search (Kept-then, kept, on_disk)

  readdir-Kept :
      (h : FileHandle) (o c : ℕ) (l : Local O) → P l → Kept P (Operations.readdir O h o c l)
  unfolding Operations.readdir
  readdir-Kept h o c l p = search (Kept-then, kept)

  write-Kept :
      (h : FileHandle) (o : ℕ) (b : Bytes) (l : Local O) → P l → Kept P (Operations.write O h o b l)
  unfolding Operations.write
  write-Kept h o b l p = search (Kept-then, kept, on_disk) depth 12

  setattr_size-Kept :
      (h : FileHandle) (n : ℕ) (l : Local O) → P l → Kept P (Operations.setattr_size O h n l)
  unfolding Operations.setattr_size
  setattr_size-Kept h n l p = search (Kept-then, kept, on_disk)

  setattr_mode-Kept :
      (h : FileHandle) (n : ℕ) (l : Local O) → P l → Kept P (Operations.setattr_mode O h n l)
  unfolding Operations.setattr_mode
  setattr_mode-Kept h n l p = search (Kept-then, kept, on_disk)

  setattr_owner-Kept :
      (h : FileHandle) (u g : Option ℕ) (l : Local O)
      → P l
      → Kept P (Operations.setattr_owner O h u g l)
  unfolding Operations.setattr_owner
  setattr_owner-Kept h u g l p = search (Kept-then, kept)

  create-Kept :
      (h : FileHandle) (n : Text) (m : ℕ) (l : Local O) → P l → Kept P (Operations.create O h n m l)
  unfolding Operations.create
  create-Kept h n m l p = search (Kept-then, kept, on_disk, on_issue_of) depth 12

  remove-Kept : (h : FileHandle) (n : Text) (l : Local O) → P l → Kept P (Operations.remove O h n l)
  unfolding Operations.remove
  remove-Kept h n l p = search (Kept-then, kept, on_disk)

  mkdir-Kept :
      (h : FileHandle) (n : Text) (m : ℕ) (l : Local O) → P l → Kept P (Operations.mkdir O h n m l)
  unfolding Operations.mkdir
  mkdir-Kept h n m l p = search (Kept-then, kept, on_disk, on_issue_of) depth 12

  rmdir-Kept : (h : FileHandle) (n : Text) (l : Local O) → P l → Kept P (Operations.rmdir O h n l)
  unfolding Operations.rmdir
  rmdir-Kept h n l p = search (Kept-then, kept, on_disk)

  rename-Kept :
      (h : FileHandle) (n : Text) (h' : FileHandle) (n' : Text) (l : Local O)
      → P l
      → Kept P (Operations.rename O h n h' n' l)
  unfolding Operations.rename
  rename-Kept h n h' n' l p = search (Kept-then, kept, on_disk) depth 12

  symlink-Kept :
      (h : FileHandle) (n t : Text) (l : Local O) → P l → Kept P (Operations.symlink O h n t l)
  unfolding Operations.symlink
  symlink-Kept h n t l p = search (Kept-then, kept, on_disk, on_issue_of) depth 12

  readlink-Kept : (h : FileHandle) (l : Local O) → P l → Kept P (Operations.readlink O h l)
  unfolding Operations.readlink
  readlink-Kept h l p = search (Kept-then, kept)

  link-Kept : (h d : FileHandle) (n : Text) (l : Local O) → P l → Kept P (Operations.link O h d n l)
  unfolding Operations.link
  link-Kept h d n l p = search (Kept-then, kept, on_disk) depth 12

  commit-Kept :
      (h : FileHandle) (o c : ℕ) (l : Local O) → P l → Kept P (Operations.commit O h o c l)
  unfolding Operations.commit
  commit-Kept h o c l p = search (Kept-then, kept, on_disk)

  mknod-Kept :
      (h : FileHandle) (n : Text) (t : FileType) (m : ℕ) (d : ℕ × ℕ) (l : Local O)
      → P l
      → Kept P (Operations.mknod O h n t m d l)
  unfolding Operations.mknod
  mknod-Kept h n t m d l p = Kept-then (resolve_handle O h l) _ p λ dir.
      let q = (make_node-Kept O on_disk t (join dir n) m d l p).state in
      Kept-then (Operations.make_node O t (join dir n) m d l).1 _ q
        λ _. kept (on_issue (join dir n) _ q)

  -- What a change of the disk and the issue of a handle keep, the local filesystem keeps.
  pub local-Kept : IsKept (local_filesystem O) P
  local-Kept = record {
    lookup = λ h n l p. (lookup-Kept h n l p).state;
    getattr = λ h l p. (getattr-Kept h l p).state;
    read = λ h o c l p. (read-Kept h o c l p).state;
    readdir = λ h o c l p. (readdir-Kept h o c l p).state;
    write = λ h o b l p. (write-Kept h o b l p).state;
    setattr_size = λ h n l p. (setattr_size-Kept h n l p).state;
    setattr_mode = λ h n l p. (setattr_mode-Kept h n l p).state;
    setattr_owner = λ h u g l p. (setattr_owner-Kept h u g l p).state;
    create = λ h n m l p. (create-Kept h n m l p).state;
    remove = λ h n l p. (remove-Kept h n l p).state;
    mkdir = λ h n m l p. (mkdir-Kept h n m l p).state;
    rmdir = λ h n l p. (rmdir-Kept h n l p).state;
    rename = λ h n h' n' l p. (rename-Kept h n h' n' l p).state;
    symlink = λ h n t l p. (symlink-Kept h n t l p).state;
    readlink = λ h l p. (readlink-Kept h l p).state;
    link = λ h d n l p. (link-Kept h d n l p).state;
    commit = λ h o c l p. (commit-Kept h o c l p).state;
    mknod = λ h n t m d l p. (mknod-Kept h n t m d l p).state;
  }
