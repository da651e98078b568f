-- ===== src/Fsal/Local/Operations.antt =====
-- The operations of `impl Filesystem for LocalFilesystem`.
use Prim.Native.Nat.{bit_or}
use Prim.Native.String.{String}
use arcticwolf.Base.{
  ℕ, suc, ◌%◌, ◌^◌, Bool, true, false, not, ◌&&◌, Option, List, [], ◌∷◌, ◌++◌, length, Result, ok,
  err, bind, M, pure, fail, ◌>>=◌, ◌>>◌, anyhow, context, ltb, leb, if◌then◌else◌,
}
use arcticwolf.Base.Text.{Text, Bytes, codes, contains}
use arcticwolf.Fsal.FilePath.{FilePath, join}
use arcticwolf.Fsal.Os.{Os, OpenOptions, OsDirEntry, Metadata}
use arcticwolf.Fsal.Types.{
  FileType, FileAttributes, DirEntry, regular_file, directory, block_device, char_device,
  symbolic_link, socket, named_pipe,
}
use arcticwolf.Fsal.Handle.{FileHandle}
use arcticwolf.Fsal.Local.{
  Local, on_disk, query, with_context, about, issue_handle, resolve_handle, is_unsafe_name,
  validate_path, checked_path,
}
use arcticwolf.Fsal.Local.Attributes.{file_type_of, metadata_to_attr}

abbrev reading : OpenOptions
reading = record { read = true; write = false; create = false; truncate = false }

abbrev writing : OpenOptions
writing = record { read = false; write = true; create = false; truncate = false }

abbrev writing_or_creating : OpenOptions
writing_or_creating = record { read = false; write = true; create = true; truncate = false }

-- `File::create`
abbrev creating : OpenOptions
creating = record { read = false; write = true; create = true; truncate = true }

module _ (O : Os) where
  abbrev failed : {A : Type 0} → String → FilePath → M O.State A → M (Local O) A
  failed what path m = on_disk O (with_context O (about O what path) m)

  abbrev failed_to : {A : Type 0} → String → M O.State A → M (Local O) A
  failed_to what m = on_disk O (with_context O (codes what) m)

  abbrev stat : String → FilePath → M (Local O) Metadata
  stat what path = query O (λ l. context (about O what path) (O.metadata l.disk path))

  unfoldable pub lookup : FileHandle → Text → M (Local O) FileHandle
  lookup dir_handle name = do
    dir_path ← query O (resolve_handle O dir_handle)
    full_path ← query O (checked_path O "Invalid filename" dir_path name)
    query O (λ l.
        if not (O.exists l.disk full_path)
        then err (anyhow (codes "File not found: " ++ name))
        else ok tt)
    issue_handle O full_path

  unfoldable pub getattr : FileHandle → M (Local O) FileAttributes
  getattr handle = do
    path ← query O (resolve_handle O handle)
    metadata ← stat "Failed to stat" path
    pure (metadata_to_attr metadata)

  -- `read` into a buffer of `count` bytes, cut to what was read.
  unfoldable pub read : FileHandle → ℕ → ℕ → M (Local O) Bytes
  read handle offset count = do
    path ← query O (resolve_handle O handle)
    file ← failed "Failed to open file" path (O.open_file reading path)
    failed_to "Failed to seek" (O.seek file offset)
    failed_to "Failed to read file" (O.read file count)

  -- The loop over `read_dir`, with the index of the next entry and the entries collected so far.
  unfoldable pub readdir_loop :
      FilePath
      → ℕ
      → ℕ
      → ℕ
      → List DirEntry
      → List (Result OsDirEntry)
      → Result (List DirEntry × Bool)
  readdir_loop dir_path cookie count index entries [] = ok (entries, true)
  readdir_loop dir_path cookie count index entries (entry_result ∷ rest) =
      bind (context (codes "Failed to read directory entry") entry_result) λ entry.
        bind
          (context (about O "Failed to get metadata for" (join dir_path entry.file_name))
            entry.metadata)
          λ metadata. elim (ltb 0 cookie && ltb index cookie) [
            | true ↦ readdir_loop dir_path cookie count (suc index) entries rest
            | false ↦
                let entries' =
                  entries
                  ++ (record {
                    fileid = metadata.ino;
                    name = entry.file_name;
                    file_type = file_type_of metadata.file_type;
                  }
                      ∷ []) in
                elim (leb count (length entries')) [
                  | true ↦ ok (entries', false)
                  | false ↦ readdir_loop dir_path cookie count (suc index) entries' rest
                ]
          ]

  unfoldable pub readdir : FileHandle → ℕ → ℕ → M (Local O) (List DirEntry × Bool)
  unfolding readdir_loop
  readdir dir_handle cookie count = do
    dir_path ← query O (resolve_handle O dir_handle)
    metadata ← stat "Failed to stat directory" dir_path
    query O (λ l.
        if not metadata.file_type.is_dir
        then err (anyhow (about O "Not a directory" dir_path))
        else ok tt)
    read_dir ←
        query O
          (λ l. context (about O "Failed to read directory" dir_path) (O.read_dir l.disk dir_path))
    query O (λ l. readdir_loop dir_path cookie count 0 [] read_dir)

  unfoldable pub write : FileHandle → ℕ → Bytes → M (Local O) ℕ
  write handle offset contents = do
    path ← query O (resolve_handle O handle)
    file ← failed "Failed to open file for writing" path (O.open_file writing_or_creating path)
    failed_to "Failed to seek" (O.seek file offset)
    bytes_written ← failed_to "Failed to write file" (O.write file contents)
    failed_to "Failed to sync file" (O.sync_all file)
    pure (bytes_written % 2 ^ 32)

  unfoldable pub setattr_size : FileHandle → ℕ → M (Local O) (Unit {0})
  setattr_size handle size = do
    path ← query O (resolve_handle O handle)
    file ← failed "Failed to open file for setattr" path (O.open_file writing path)
    failed_to "Failed to set file size" (O.set_len file size)

  unfoldable pub setattr_mode : FileHandle → ℕ → M (Local O) (Unit {0})
  setattr_mode handle mode = do
    path ← query O (resolve_handle O handle)
    failed "Failed to set permissions" path (O.set_permissions path mode)

  -- Not implemented: it only checks the handle.
  unfoldable pub setattr_owner : FileHandle → Option ℕ → Option ℕ → M (Local O) (Unit {0})
  setattr_owner handle uid gid = do path ← query O (resolve_handle O handle); pure tt

  unfoldable pub create : FileHandle → Text → ℕ → M (Local O) FileHandle
  create dir_handle name mode = do
    dir_path ← query O (resolve_handle O dir_handle)
    full_path ← query O (checked_path O "Invalid filename" dir_path name)
    file ← failed "Failed to create file" full_path (O.open_file creating full_path)
    failed_to "Failed to set permissions" (O.file_set_permissions file mode)
    issue_handle O full_path

  unfoldable pub remove : FileHandle → Text → M (Local O) (Unit {0})
  remove dir_handle name = do
    dir_path ← query O (resolve_handle O dir_handle)
    full_path ← query O (checked_path O "Invalid filename" dir_path name)
    failed "Failed to remove file" full_path (O.remove_file full_path)

  unfoldable pub mkdir : FileHandle → Text → ℕ → M (Local O) FileHandle
  mkdir dir_handle name mode = do
    dir_path ← query O (resolve_handle O dir_handle)
    full_path ← query O (checked_path O "Invalid directory name" dir_path name)
    failed "Failed to create directory" full_path (O.create_dir full_path)
    failed_to "Failed to set permissions" (O.set_permissions full_path mode)
    issue_handle O full_path

  unfoldable pub rmdir : FileHandle → Text → M (Local O) (Unit {0})
  rmdir dir_handle name = do
    dir_path ← query O (resolve_handle O dir_handle)
    full_path ← query O (checked_path O "Invalid directory name" dir_path name)
    failed "Failed to remove directory" full_path (O.remove_dir full_path)

  abbrev reject_unsafe : String → Text → M (Local O) (Unit {0})
  reject_unsafe invalid name = query O (λ l.
      if is_unsafe_name name then err (anyhow (codes invalid ++ (codes ": " ++ name))) else ok tt)

  unfoldable pub rename : FileHandle → Text → FileHandle → Text → M (Local O) (Unit {0})
  rename from_dir_handle from_name to_dir_handle to_name = do
    from_dir_path ← query O (resolve_handle O from_dir_handle)
    to_dir_path ← query O (resolve_handle O to_dir_handle)
    reject_unsafe "Invalid source name" from_name
    reject_unsafe "Invalid target name" to_name
    query O (validate_path O (join from_dir_path from_name))
    query O (validate_path O (join to_dir_path to_name))
    on_disk O (
        with_context O
          (codes "Failed to rename "
            ++ (O.debug_path (join from_dir_path from_name)
                ++ (codes " to " ++ O.debug_path (join to_dir_path to_name))))
          (O.rename (join from_dir_path from_name) (join to_dir_path to_name)))

  abbrev reject_existing : String → FilePath → M (Local O) (Unit {0})
  reject_existing what path =
      query O (λ l. if O.exists l.disk path then err (anyhow (about O what path)) else ok tt)

  unfoldable pub symlink : FileHandle → Text → Text → M (Local O) FileHandle
  symlink dir_handle name target = do
    dir_path ← query O (resolve_handle O dir_handle)
    symlink_path ← query O (checked_path O "Invalid symlink name" dir_path name)
    reject_existing "File or symlink already exists" symlink_path
    on_disk O (
        with_context O
          (codes "Failed to create symlink "
            ++ (O.debug_path symlink_path ++ (codes " -> " ++ target)))
          (O.symlink target symlink_path))
    issue_handle O symlink_path

  unfoldable pub readlink : FileHandle → M (Local O) Text
  readlink handle = do
    path ← query O (resolve_handle O handle)
    metadata ← query O (λ l.
        context (codes "Failed to get metadata for " ++ O.debug_path path)
          (O.symlink_metadata l.disk path))
    query O (λ l.
        if not metadata.file_type.is_symlink
        then err (anyhow (about O "Not a symbolic link" path))
        else ok tt)
    query O (λ l.
        context (codes "Failed to read symlink " ++ O.debug_path path) (O.read_link l.disk path))

  -- Returns the handle of the source file.
  unfoldable pub link : FileHandle → FileHandle → Text → M (Local O) FileHandle
  link file_handle dir_handle name = do
    file_path ← query O (resolve_handle O file_handle)
    dir_path ← query O (resolve_handle O dir_handle)
    link_path ← query O (checked_path O "Invalid link name" dir_path name)
    reject_existing "File already exists" link_path
    metadata ← query O (λ l.
        context (codes "Failed to get metadata for " ++ O.debug_path file_path)
          (O.metadata l.disk file_path))
    query O (λ l.
        if metadata.file_type.is_dir
        then err (anyhow (about O "Cannot create hard link to directory" file_path))
        else ok tt)
    on_disk O (
        with_context O
          (codes "Failed to create hard link "
            ++ (O.debug_path link_path ++ (codes " -> " ++ O.debug_path file_path)))
          (O.hard_link file_path link_path))
    pure file_handle

  -- The whole file, whatever the range.
  unfoldable pub commit : FileHandle → ℕ → ℕ → M (Local O) (Unit {0})
  commit handle offset count = do
    path ← query O (resolve_handle O handle)
    file ← failed "Failed to open file for commit" path (O.open_file writing path)
    failed "Failed to sync file" path (O.sync_all file)

  -- `CString::new`
  abbrev c_string : FilePath → M (Local O) FilePath
  c_string path = query O (λ l.
      if contains path.os_str (0 ∷ [])
      then err (anyhow (codes "nul byte found in provided data"))
      else ok path)

  -- A failing libc call: the message of the last OS error is part of the text.
  abbrev libc_call : String → M O.State (Unit {0}) → M (Local O) (Unit {0})
  libc_call what m = on_disk O (λ s.
      let (s', r) = m s in
      (
        s',
        elim r [ ok _ ↦ ok tt | err e ↦ err (anyhow (codes what ++ (codes ": " ++ e.message))) ],
      ))

  -- The `match` on the type: `S_IFCHR` is 0o020000 and `S_IFBLK` 0o060000.
  unfoldable pub make_node : FileType → FilePath → ℕ → ℕ × ℕ → M (Local O) (Unit {0})
  make_node named_pipe path mode rdev = do
    c_path ← c_string path
    libc_call "Failed to create FIFO" (O.mkfifo c_path mode)
  make_node socket path mode rdev =
      fail (anyhow (codes "Socket creation via MKNOD not fully supported"))
  make_node char_device path mode rdev = do
    c_path ← c_string path
    libc_call "Failed to create device"
        (O.mknod c_path (bit_or mode 0o020000) (O.makedev rdev.0 rdev.1))
  make_node block_device path mode rdev = do
    c_path ← c_string path
    libc_call "Failed to create device"
        (O.mknod c_path (bit_or mode 0o060000) (O.makedev rdev.0 rdev.1))
  make_node regular_file path mode rdev =
      fail (anyhow (codes "Invalid file type for MKNOD: RegularFile"))
  make_node directory path mode rdev =
      fail (anyhow (codes "Invalid file type for MKNOD: Directory"))
  make_node symbolic_link path mode rdev =
      fail (anyhow (codes "Invalid file type for MKNOD: SymbolicLink"))

  -- Neither the name nor the path is checked.
  unfoldable pub mknod : FileHandle → Text → FileType → ℕ → ℕ × ℕ → M (Local O) FileHandle
  unfolding make_node
  mknod dir_handle name file_type mode rdev = do
    dir_path ← query O (resolve_handle O dir_handle)
    make_node file_type (join dir_path name) mode rdev
    issue_handle O (join dir_path name)
