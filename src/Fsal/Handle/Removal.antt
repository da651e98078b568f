-- ===== src/Fsal/Handle/Removal.antt =====
-- What `remove_handle` of src/fsal/handle.rs takes out of the two maps of a valid table.
use arcticwolf.Fsal.FilePath.{FilePath, path_key}
use arcticwolf.Fsal.Handle.{FileHandle, handle_key, HandleManager, remove_handle}
use arcticwolf.Fsal.Handle.Invariant.{IsValid}

module _ (h : FileHandle) (m : HandleManager) (v : IsValid m) where
  abbrev rest : HandleManager
  rest = (remove_handle h m).0
