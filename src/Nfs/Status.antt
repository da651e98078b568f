-- ===== src/Nfs/Status.antt =====
-- How the handlers of src/nfs choose an `nfsstat3` for an error: by words in its message, and then
-- by the kind of the `io::Error` below it.
use arcticwolf.Base.{
  Bool, true, false, ◌||◌, ◌++◌, Option, none, some, List, [], ◌∷◌, if◌then◌else◌, Error, ErrorKind,
  already_exists, not_found, permission_denied, invalid_input,
}
use arcticwolf.Base.Text.{Text, codes, contains, to_lowercase}
use arcticwolf.Protocol.Nfs.{
  Nfsstat3, nfs3err_noent, nfs3err_io, nfs3err_acces, nfs3err_exist, nfs3err_xdev, nfs3err_notdir,
  nfs3err_isdir, nfs3err_inval, nfs3err_nospc, nfs3err_rofs, nfs3err_nametoolong, nfs3err_notempty,
  nfs3err_stale, nfs3err_notsupp,
}
use Prim.Native.String.{String}

-- One `else if` of a ladder: any of these words gives this status.
pub data Rule : Type 0 where
  on : List String → Nfsstat3 → Rule

unfoldable pub mentions : List String → Text → Bool
unfolding contains
mentions [] t = false
mentions (w ∷ ws) t = contains t (codes w) || mentions ws t

-- The first rule that applies, or the last `else`.
unfoldable pub pick : Text → List Rule → Nfsstat3 → Nfsstat3
unfolding mentions
pick t [] default = default
pick t (on words status ∷ rules) default = if mentions words t then status else pick t rules default

unfoldable pub lookup_status : Error → Nfsstat3
unfolding pick
lookup_status e =
    pick e.message
      (on ("not found" ∷ []) nfs3err_noent
        ∷ on ("Invalid filename" ∷ []) nfs3err_inval
        ∷ on ("Not a directory" ∷ []) nfs3err_notdir
        ∷ [])
      nfs3err_io

-- ACCESS, FSSTAT and FSINFO
unfoldable pub handle_status : Error → Nfsstat3
unfolding pick
handle_status e =
    pick e.message (on ("not found" ∷ "Invalid handle" ∷ []) nfs3err_stale ∷ []) nfs3err_io

unfoldable pub read_status : Error → Nfsstat3
unfolding pick
read_status e =
    pick e.message
      (on ("not found" ∷ "Invalid handle" ∷ []) nfs3err_stale
        ∷ on ("Not a file" ∷ []) nfs3err_isdir
        ∷ on ("Permission denied" ∷ []) nfs3err_acces
        ∷ [])
      nfs3err_io

unfoldable pub write_status : Error → Nfsstat3
unfolding pick
write_status e =
    pick e.message
      (on ("not found" ∷ "Invalid handle" ∷ []) nfs3err_stale
        ∷ on ("Not a file" ∷ []) nfs3err_isdir
        ∷ on ("Permission denied" ∷ []) nfs3err_acces
        ∷ on ("No space" ∷ []) nfs3err_nospc
        ∷ on ("Read-only" ∷ []) nfs3err_rofs
        ∷ [])
      nfs3err_io

unfoldable pub setattr_size_status : Error → Nfsstat3
unfolding pick
setattr_size_status e =
    pick e.message
      (on ("not found" ∷ []) nfs3err_stale
        ∷ on ("Permission denied" ∷ []) nfs3err_acces
        ∷ on ("Read-only" ∷ []) nfs3err_rofs
        ∷ [])
      nfs3err_io

-- For the mode and for the owner.
unfoldable pub setattr_status : Error → Nfsstat3
unfolding pick
setattr_status e =
    pick e.message
      (on ("not found" ∷ []) nfs3err_stale ∷ on ("Permission denied" ∷ []) nfs3err_acces ∷ [])
      nfs3err_io

unfoldable pub create_status : Error → Nfsstat3
unfolding pick
create_status e =
    pick e.message
      (on ("exists" ∷ []) nfs3err_exist
        ∷ on ("not found" ∷ []) nfs3err_noent
        ∷ on ("Not a directory" ∷ []) nfs3err_notdir
        ∷ on ("Permission denied" ∷ []) nfs3err_acces
        ∷ on ("No space" ∷ []) nfs3err_nospc
        ∷ on ("Read-only" ∷ []) nfs3err_rofs
        ∷ [])
      nfs3err_io

unfoldable pub create_exclusive_status : Error → Nfsstat3
unfolding pick
create_exclusive_status e = pick e.message (on ("exists" ∷ []) nfs3err_exist ∷ []) nfs3err_io

unfoldable pub same_kind : ErrorKind → ErrorKind → Bool
same_kind already_exists already_exists = true
same_kind not_found not_found = true
same_kind permission_denied permission_denied = true
same_kind invalid_input invalid_input = true
same_kind _ _ = false

-- The `downcast_ref` and the `match` on the kind at the end of a ladder.
unfoldable pub by_kind : List (ErrorKind × Nfsstat3) → Option ErrorKind → Nfsstat3
unfolding same_kind
by_kind table none = nfs3err_io
by_kind [] (some k) = nfs3err_io
by_kind ((j, status) ∷ rest) (some k) = if same_kind j k then status else by_kind rest (some k)

abbrev two_kinds : List (ErrorKind × Nfsstat3)
two_kinds = (not_found, nfs3err_noent) ∷ (permission_denied, nfs3err_acces) ∷ []

abbrev three_kinds : List (ErrorKind × Nfsstat3)
three_kinds = (already_exists, nfs3err_exist) ∷ two_kinds

abbrev permission_words : List String
permission_words = "permission" ∷ "Permission" ∷ []

unfoldable pub mkdir_status : Error → Nfsstat3
unfolding pick by_kind
mkdir_status e =
    pick e.message
      (on ("already exists" ∷ "File exists" ∷ []) nfs3err_exist
        ∷ on ("not found" ∷ "No such" ∷ []) nfs3err_noent
        ∷ on permission_words nfs3err_acces
        ∷ [])
      (by_kind three_kinds e.io_kind)

unfoldable pub rmdir_status : Error → Nfsstat3
unfolding pick by_kind
rmdir_status e =
    pick e.message
      (on ("not found" ∷ "No such" ∷ []) nfs3err_noent
        ∷ on permission_words nfs3err_acces
        ∷ on ("not empty" ∷ "Directory not empty" ∷ []) nfs3err_notempty
        ∷ on ("not a directory" ∷ "Not a directory" ∷ []) nfs3err_notdir
        ∷ [])
      (by_kind two_kinds e.io_kind)

unfoldable pub remove_status : Error → Nfsstat3
unfolding pick by_kind
remove_status e =
    pick e.message
      (on ("not found" ∷ "No such" ∷ []) nfs3err_noent
        ∷ on permission_words nfs3err_acces
        ∷ on ("directory" ∷ "Is a directory" ∷ []) nfs3err_isdir
        ∷ [])
      (by_kind two_kinds e.io_kind)

unfoldable pub rename_status : Error → Nfsstat3
unfolding pick by_kind
rename_status e =
    pick e.message
      (on ("not found" ∷ "No such" ∷ []) nfs3err_noent
        ∷ on ("already exists" ∷ "File exists" ∷ []) nfs3err_exist
        ∷ on permission_words nfs3err_acces
        ∷ on ("not a directory" ∷ "Not a directory" ∷ []) nfs3err_notdir
        ∷ on ("is a directory" ∷ "Is a directory" ∷ []) nfs3err_isdir
        ∷ on ("not empty" ∷ "Directory not empty" ∷ []) nfs3err_notempty
        ∷ on ("cross-device" ∷ "Invalid cross-device" ∷ []) nfs3err_xdev
        ∷ [])
      (by_kind three_kinds e.io_kind)

-- SYMLINK and READLINK read the whole chain of the error.
unfoldable pub symlink_status : Error → Nfsstat3
unfolding pick by_kind
symlink_status e =
    pick e.debug
      (on ("No such file" ∷ "not found" ∷ []) nfs3err_noent
        ∷ on ("already exists" ∷ []) nfs3err_exist
        ∷ on ("Permission denied" ∷ "Access denied" ∷ []) nfs3err_acces
        ∷ on ("Not a directory" ∷ []) nfs3err_notdir
        ∷ on ("Name too long" ∷ []) nfs3err_nametoolong
        ∷ on ("Read-only" ∷ []) nfs3err_rofs
        ∷ on ("No space" ∷ []) nfs3err_nospc
        ∷ [])
      (by_kind three_kinds e.io_kind)

unfoldable pub readlink_status : Error → Nfsstat3
unfolding pick by_kind
readlink_status e =
    pick e.debug
      (on ("No such file" ∷ "not found" ∷ []) nfs3err_noent
        ∷ on ("Permission denied" ∷ "Access denied" ∷ []) nfs3err_acces
        ∷ on ("Not a symbolic link" ∷ []) nfs3err_inval
        ∷ on ("Invalid argument" ∷ []) nfs3err_inval
        ∷ [])
      (by_kind (two_kinds ++ ((invalid_input, nfs3err_inval) ∷ [])) e.io_kind)

-- LINK, COMMIT and MKNOD read the message in lower case.
unfoldable pub link_status : Error → Nfsstat3
unfolding pick to_lowercase
link_status e =
    pick (to_lowercase e.message)
      (on ("not found" ∷ "no such file" ∷ []) nfs3err_noent
        ∷ on ("already exists" ∷ "file exists" ∷ []) nfs3err_exist
        ∷ on ("permission denied" ∷ "access denied" ∷ []) nfs3err_acces
        ∷ on ("not a directory" ∷ []) nfs3err_notdir
        ∷ on ("is a directory" ∷ "cannot create hard link to directory" ∷ []) nfs3err_isdir
        ∷ on ("cross-device" ∷ "different filesystem" ∷ []) nfs3err_xdev
        ∷ on ("invalid" ∷ []) nfs3err_inval
        ∷ [])
      nfs3err_io

unfoldable pub commit_status : Error → Nfsstat3
unfolding pick to_lowercase
commit_status e =
    pick (to_lowercase e.message)
      (on ("not found" ∷ "no such file" ∷ []) nfs3err_noent
        ∷ on ("permission denied" ∷ "access denied" ∷ []) nfs3err_acces
        ∷ on ("is a directory" ∷ []) nfs3err_isdir
        ∷ on ("read-only" ∷ []) nfs3err_rofs
        ∷ [])
      nfs3err_io

unfoldable pub mknod_status : Error → Nfsstat3
unfolding pick to_lowercase
mknod_status e =
    pick (to_lowercase e.message)
      (on ("not found" ∷ "no such file" ∷ []) nfs3err_noent
        ∷ on ("permission denied" ∷ "access denied" ∷ "operation not permitted" ∷ []) nfs3err_acces
        ∷ on ("exists" ∷ "already" ∷ []) nfs3err_exist
        ∷ on ("not a directory" ∷ []) nfs3err_notdir
        ∷ on ("read-only" ∷ []) nfs3err_rofs
        ∷ on ("not supported" ∷ "not fully supported" ∷ []) nfs3err_notsupp
        ∷ [])
      nfs3err_io
