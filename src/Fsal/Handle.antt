-- ===== src/Fsal/Handle.antt =====
-- src/fsal/handle.rs: the table between file handles and paths. `RwLock` and `Arc` leave no trace
-- here: each critical section is a function of the table.
pub mod Ids
pub mod Invariant
pub mod Laws
pub mod Removal
pub mod History
pub mod Growth
pub mod Threads
use arcticwolf.Base.{
  ℕ, ◌+◌, ◌%◌, ◌^◌, ◌≡◌, refl, Bool, true, false, Option, none, some, List, [], ◌∷◌, ◌++◌, length,
  take, drop, replicate, if◌then◌else◌, ap,
}
use arcticwolf.Base.Text.{Bytes, bytes_eq, bytes_eq_refl, bytes_eq→eq}
use arcticwolf.Base.Words.{be64}
use arcticwolf.Base.HashMap.{Eq, HashMap, get, insert, remove}
use arcticwolf.Fsal.FilePath.{FilePath, path_key}

abbrev pub FileHandle : Type 0
FileHandle = Bytes

pub bytes_eq_cong : (a b c : Bytes) → bytes_eq a b ≡ true → bytes_eq a c ≡ bytes_eq b c
bytes_eq_cong a b c h = ap (λ t. bytes_eq t c) (bytes_eq→eq a b h)

instance abbrev pub handle_key : Eq FileHandle
handle_key = record { beq = bytes_eq; beq_refl = bytes_eq_refl; beq_cong = bytes_eq_cong }

pub record HandleManager : Type 0 where
  pub handle_to_path : HashMap FileHandle FilePath
  pub path_to_handle : HashMap FilePath FileHandle
  pub next_id : ℕ

unfoldable pub new : HandleManager
new = record { handle_to_path = []; path_to_handle = []; next_id = 1 }

-- `handle[start..][..bytes.len()].copy_from_slice(bytes)`
abbrev copy_at : Bytes → ℕ → Bytes → Bytes
copy_at handle start bytes = take start handle ++ (bytes ++ drop (start + length bytes) handle)

-- 32 bytes: the id, the hash of the path, and zeros.
unfoldable pub new_handle : ℕ → ℕ → FileHandle
unfolding be64
new_handle id path_hash = copy_at (copy_at (replicate 32 0) 0 (be64 id)) 8 (be64 path_hash)

-- The three critical sections of `create_handle`. A `u64` counter wraps around.
unfoldable pub find_handle : FilePath → HandleManager → Option FileHandle
find_handle path m = get m.path_to_handle path

unfoldable pub take_id : HandleManager → HandleManager × ℕ
take_id m = (record m { next_id = (m.next_id + 1) % 2 ^ 64 }, m.next_id)

unfoldable pub store_mappings : FileHandle → FilePath → HandleManager → HandleManager
store_mappings handle path m = record m {
  handle_to_path = insert m.handle_to_path handle path;
  path_to_handle = insert m.path_to_handle path handle;
}

-- `path_hash` is the value of `DefaultHasher`, whose algorithm is not specified.
unfoldable pub create_handle :
    (FilePath → ℕ) → FilePath → HandleManager → HandleManager × FileHandle
unfolding find_handle take_id store_mappings new_handle
create_handle path_hash path m = elim (find_handle path m) [
  | some handle ↦ (m, handle)
  | none ↦
      let (m', id) = take_id m in
      let handle = new_handle id (path_hash path) in (store_mappings handle path m', handle)
]

unfoldable pub lookup_path : FileHandle → HandleManager → Option FilePath
lookup_path handle m = get m.handle_to_path handle

unfoldable pub is_valid : FileHandle → HandleManager → Bool
is_valid handle m = elim (get m.handle_to_path handle) [ none ↦ false | some _ ↦ true ]

unfoldable pub remove_handle : FileHandle → HandleManager → HandleManager × Option FilePath
remove_handle handle m = elim (get m.handle_to_path handle) [
  | some path ↦ (
    record m {
      handle_to_path = remove m.handle_to_path handle;
      path_to_handle = remove m.path_to_handle path;
    },
    some path,
  )
  | none ↦ (m, none)
]

unfoldable pub count : HandleManager → ℕ
count m = length m.handle_to_path
