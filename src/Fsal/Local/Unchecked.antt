-- ===== src/Fsal/Local/Unchecked.antt =====
-- `mknod` of src/fsal/local/mod.rs and the checks of the other operations on names.
use arcticwolf.Base.{ℕ, ◌≡◌, refl, inl, inr, false, [], ◌∷◌, ok, Result-cases}
use arcticwolf.Base.Text.{Text, contains}
use arcticwolf.Fsal.FilePath.{FilePath, join}
use arcticwolf.Fsal.Os.{Os}
use arcticwolf.Fsal.Types.{named_pipe}
use arcticwolf.Fsal.Handle.{FileHandle}
use arcticwolf.Fsal.Local.{Local, resolve_handle}
use arcticwolf.Fsal.Local.Operations.{make_node, mknod}

-- MKNOD of a named pipe under a known directory's handle has the pipe made at the directory's
-- path joined to the name, whatever the name is but for a NUL byte: no other check is made.
pub mknod_unchecked :
    (O : Os) (dir : FileHandle) (dir_path : FilePath) (name : Text) (mode : ℕ) (rdev : ℕ × ℕ)
    → (l : Local O) → resolve_handle O dir l ≡ ok dir_path
    → contains (join dir_path name).os_str (0 ∷ []) ≡ false
    → (mknod O dir name named_pipe mode rdev l).0.disk
      ≡ (O.mkfifo (join dir_path name) mode l.disk).0
unfolding mknod make_node
mknod_unchecked O dir dir_path name mode rdev l known plain =
    elim (Result-cases (O.mkfifo (join dir_path name) mode l.disk).1) [
      | inl (u, h) ↦ rw known (rw plain (rw h refl))
      | inr (e, h) ↦ rw known (rw plain (rw h refl))
    ]
