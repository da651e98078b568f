-- ===== src/Nfs/Access.antt =====
-- The permissions that ACCESS grants (src/nfs/access.rs).
use Prim.Native.Nat.{bit_and}
use arcticwolf.Base.{ℕ, ◌%◌, ◌≡◌, refl, sym, ◌∙◌, true, ◌==◌, if◌then◌else◌, arith}
use arcticwolf.Base.Bits.{bit_and-mod_64, every_below, every_below_lem}
use arcticwolf.Fsal.Types.{
  FileType, regular_file, directory, block_device, char_device, symbolic_link, socket, named_pipe,
}
use arcticwolf.Nfs.Query.{grant, granted_access, is_directory}

-- Every request below 64, by evaluation.
directory_table : every_below 64 (λ a. granted_access a directory == bit_and a 0x3f) ≡ true
unfolding every_below granted_access grant
directory_table = refl

file_table : every_below 64 (λ a. granted_access a regular_file == bit_and a 0x3d) ≡ true
unfolding every_below granted_access grant
file_table = refl

-- Only the lowest six digits of the request are read.
granted_access-mod_64 :
    (access : ℕ) (ftype : FileType)
    → granted_access access ftype ≡ granted_access (access % 64) ftype
unfolding granted_access grant
granted_access-mod_64 access ftype =
    rw
      (
        bit_and-mod_64 access 1 (omega arith),
        bit_and-mod_64 access 2 (omega arith),
        bit_and-mod_64 access 4 (omega arith),
        bit_and-mod_64 access 8 (omega arith),
        bit_and-mod_64 access 16 (omega arith),
        bit_and-mod_64 access 32 (omega arith),
      )
      refl

directory_grants : (access : ℕ) → granted_access access directory ≡ bit_and access 0x3f
directory_grants access =
    let small = every_below_lem 64 _ (access % 64) directory_table (omega arith) in
    granted_access-mod_64 access directory
    ∙ ground (arith, small)
    ∙ sym (bit_and-mod_64 access 0x3f (omega arith))

file_grants : (access : ℕ) → granted_access access regular_file ≡ bit_and access 0x3d
file_grants access =
    let small = every_below_lem 64 _ (access % 64) file_table (omega arith) in
    granted_access-mod_64 access regular_file
    ∙ ground (arith, small)
    ∙ sym (bit_and-mod_64 access 0x3d (omega arith))

-- For any request and any type of file, ACCESS grants the bits that are asked for among READ,
-- MODIFY, EXTEND, DELETE and EXECUTE, and LOOKUP for a directory alone: no other bit of the
-- request is granted, and none that was not asked for.
pub granted_access-eq_mask :
    (access : ℕ) (ftype : FileType)
    → granted_access access ftype ≡ bit_and access (if is_directory ftype then 0x3f else 0x3d)
unfolding granted_access
granted_access-eq_mask access directory = directory_grants access
granted_access-eq_mask access regular_file = file_grants access
granted_access-eq_mask access block_device = file_grants access
granted_access-eq_mask access char_device = file_grants access
granted_access-eq_mask access symbolic_link = file_grants access
granted_access-eq_mask access socket = file_grants access
granted_access-eq_mask access named_pipe = file_grants access
