-- ===== src/Fsal/Local.antt =====
-- `LocalFilesystem` of src/fsal/local/mod.rs: its state and the checks that its operations share.
pub mod Attributes
pub mod Operations
pub mod Backend
pub mod Containment
pub mod Paging
pub mod Unchecked
pub mod Escape
pub mod Start
pub mod Contents
pub mod Bounds
pub mod Naming
pub mod Kept
use arcticwolf.Base.{
  ℕ, Bool, true, false, not, ◌||◌, Option, none, some, List, [], ◌∷◌, ◌++◌, Result, ok, err, bind,
  M, pure, fail, lift, total, ◌>>=◌, ◌>>◌, anyhow, context, if◌then◌else◌,
}
use Prim.Native.String.{String}
use arcticwolf.Base.Text.{Text, codes, contains}
use arcticwolf.Fsal.FilePath.{FilePath, join, starts_with, parent, file_name, is_absolute}
use arcticwolf.Fsal.Os.{Os}
use arcticwolf.Fsal.Handle.{HandleManager, FileHandle, create_handle, lookup_path}

pub record Local (O : Os) : Type 0 where
  pub root_path : FilePath
  pub handle_manager : HandleManager
  pub root_handle : FileHandle
  pub disk : O.State

-- `name.contains('/') || name.contains("..")`
unfoldable pub is_unsafe_name : Text → Bool
unfolding contains
is_unsafe_name name = contains name (codes "/") || contains name (codes "..")

module _ (O : Os) where
  -- A call on the disk.
  abbrev pub on_disk : {A : Type 0} → M O.State A → M (Local O) A
  on_disk m l = let (s, a) = m l.disk in (record l { disk = s }, a)

  -- A question that changes nothing.
  abbrev pub query : {A : Type 0} → (Local O → Result A) → M (Local O) A
  query f l = (l, f l)

  -- `.context(message)` on a call of the disk.
  abbrev pub with_context : {A : Type 0} → Text → M O.State A → M O.State A
  with_context message m s = let (s', r) = m s in (s', context message r)

  -- `self.handle_manager.create_handle(path)`
  abbrev pub issue_handle : FilePath → M (Local O) FileHandle
  issue_handle path l =
      let (m, h) = create_handle O.path_hash path l.handle_manager in
      (record l { handle_manager = m }, ok h)

  -- `format!("{}: {:?}", what, path)`
  abbrev pub about : String → FilePath → Text
  about what path = codes what ++ (codes ": " ++ O.debug_path path)

  unfoldable pub resolve_handle : FileHandle → Local O → Result FilePath
  resolve_handle handle l = elim (lookup_path handle l.handle_manager) [
    | none ↦ err (anyhow (codes "Invalid file handle"))
    | some path ↦ ok path
  ]

  -- `validate_path` on an absolute path: the canonical form of a path that exists.
  -- The message shows the path as it was given.
  abbrev existing_path : FilePath → FilePath → Local O → Result FilePath
  existing_path given path l =
      context (about "Failed to canonicalize existing path" given) (O.canonicalize l.disk path)

  -- The would-be canonical form of a path that does not exist, whose parent does.
  abbrev new_path : FilePath → Local O → Result FilePath
  new_path path l = elim (parent path) [
    | none ↦ err (anyhow (about "Path has no parent" path))
    | some dir ↦
        bind (context (about "Failed to canonicalize parent path" dir) (O.canonicalize l.disk dir))
          λ canonical_parent.
            if not (starts_with canonical_parent l.root_path)
            then err (anyhow (codes "Path is outside export root"))
            else elim (file_name path) [
              | none ↦ err (anyhow (codes "Path has no filename component"))
              | some name ↦
                  if contains name (codes "..") || contains name (codes "/")
                  then err (anyhow (codes "Invalid filename: " ++ name))
                  else ok (join canonical_parent name)
            ]
  ]

  unfoldable pub canonical_form : FilePath → FilePath → Local O → Result FilePath
  canonical_form given path l =
      if O.exists l.disk path then existing_path given path l else new_path path l

  -- A name that is not UTF-8 cannot come from a `str`, so `to_str` does not fail here.
  unfoldable pub validate_path : FilePath → Local O → Result (Unit {0})
  unfolding canonical_form
  validate_path path l =
      let absolute_path = if is_absolute path.os_str then path else join l.root_path path.os_str in
      bind (canonical_form path absolute_path l) λ canonical.
        if starts_with canonical l.root_path
        then ok tt
        else err (anyhow (codes "Path is outside export root"))

  -- What every operation on a name begins with: the directory, the test of the name, the full path
  -- and its validation.
  unfoldable pub checked_path : String → FilePath → Text → Local O → Result FilePath
  unfolding is_unsafe_name validate_path
  checked_path invalid dir_path name l =
      if is_unsafe_name name
      then err (anyhow (codes invalid ++ (codes ": " ++ name)))
      else bind (validate_path (join dir_path name) l) (λ _. ok (join dir_path name))
