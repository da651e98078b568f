-- ===== src/Tests/Files.antt =====
-- The local filesystem and the NFS procedures at small data.
use Prim.Native.Nat.{bit_and}
use arcticwolf.Nfs.Access.{granted_access-eq_mask}
use arcticwolf.Base.{
  inl, ℕ, ◌/◌, ◌%◌, ◌^◌, ◌≡◌, refl, ◌⊎◌, [], ◌∷◌, map, ok, bind, arith, none, false,
}
use arcticwolf.Base.Text.{Bytes, codes, contains, is_prefix, texts_eq, bytes_eq}
use arcticwolf.Fsal.FilePath.{FilePath, join, path_eq, components, parent, starts_with, file_name}
use arcticwolf.Fsal.Handle.{FileHandle, HandleManager, new, create_handle, lookup_path}
use arcticwolf.Fsal.Local.{Local, resolve_handle, checked_path}
use arcticwolf.Fsal.Local.Operations.{
  lookup, create, remove, mkdir, rmdir, symlink, link, rename, mknod, getattr,
}
use arcticwolf.Fsal.Handle.Invariant.{IsValid, new-IsValid, create_handle-IsValid}
use arcticwolf.Fsal.Local.Naming.{by_create, lookup-name_it}
use arcticwolf.Fsal.Local.Containment.{
  IsRefused, IsInside, IsGuarded, names_contained, link_contained, rename_contained,
}
use arcticwolf.Fsal.Local.Paging.{Listing, entry_of, walk, walk_complete}
use arcticwolf.Protocol.Nfs.{nfs3err_not_sync, nfs3err_io, Createhow3}
use arcticwolf.Rpc.Message.{create_success_reply_with_data}
use arcticwolf.Nfs.Wire.{fsal_to_fattr3, create_wcc_error_response, create_attr_error_response}
use arcticwolf.Nfs.Change.{handle_setattr, handle_create, create_mode}
use arcticwolf.Nfs.Rules.{fsal_to_fattr3_lem, handle_setattr-guarded}
use arcticwolf.Base.HashMap.{get, insert}
use arcticwolf.Fsal.Types.{named_pipe, regular_file}
use arcticwolf.Fsal.Local.Backend.{local_filesystem}
use arcticwolf.Fsal.Local.Unchecked.{mknod_unchecked}
use arcticwolf.Nfs.Query.{granted_access, handle_read}
use arcticwolf.Nfs.Modes.{handle_create-how}
use arcticwolf.Protocol.Xdr.{Xdr}
use arcticwolf.Nfs.Stale.{handle_read_stale}
use arcticwolf.Tests.Samples.{
  read_of, sample_os, export, sample_xdr, one_file, some_attributes, guarded_truncation,
  metadata_of,
}

abbrev file_a : FilePath
file_a = record { os_str = codes "/export/a" }

abbrev hash : FilePath → ℕ
hash = sample_os.path_hash

abbrev with_root : HandleManager × FileHandle
with_root = create_handle hash export new

abbrev with_file : HandleManager × FileHandle
with_file = create_handle hash file_a with_root.0

-- An export with one file, both with handles.
abbrev exported : Local sample_os
exported = record {
  root_path = export;
  handle_manager = with_file.0;
  root_handle = with_root.1;
  disk = export ∷ file_a ∷ [];
}

abbrev root : FileHandle
root = with_root.1

names_contained_example :
    IsGuarded sample_os (lookup sample_os root (codes "../etc")) root (codes "../etc") exported
    × IsGuarded sample_os
        (create sample_os root (codes "../etc") 420)
        root
        (codes "../etc")
        exported
    × IsGuarded sample_os (remove sample_os root (codes "../etc")) root (codes "../etc") exported
    × IsGuarded sample_os (mkdir sample_os root (codes "../etc") 420) root (codes "../etc") exported
    × IsGuarded sample_os (rmdir sample_os root (codes "../etc")) root (codes "../etc") exported
    × IsGuarded sample_os
        (symlink sample_os root (codes "../etc") (codes "t"))
        root
        (codes "../etc")
        exported
names_contained_example = names_contained sample_os root (codes "../etc") (codes "t") 420 exported

link_contained_example :
    IsGuarded sample_os (link sample_os with_file.1 root (codes "b")) root (codes "b") exported
link_contained_example = link_contained sample_os with_file.1 root (codes "b") exported

rename_contained_example :
    IsRefused sample_os (rename sample_os root (codes "a") root (codes "b")) exported
    ⊎ (IsInside sample_os root (codes "a") exported × IsInside sample_os root (codes "b") exported)
rename_contained_example = rename_contained sample_os root (codes "a") root (codes "b") exported

abbrev listing : Listing
listing = (codes "a", metadata_of 1) ∷ (codes "b", metadata_of 2) ∷ (codes "c", metadata_of 3) ∷ []

walk_complete_example : walk sample_os export 4 0 2 listing ≡ ok (map entry_of listing)
walk_complete_example = walk_complete sample_os export 2 listing (omega arith)

fsal_to_fattr3_lem_example :
    ((fsal_to_fattr3 some_attributes).rdev / 2 ^ 32 ≡ 8)
    × ((fsal_to_fattr3 some_attributes).rdev % 2 ^ 32 ≡ 3)
    × ((fsal_to_fattr3 some_attributes).mtime.seconds ≡ 9)
fsal_to_fattr3_lem_example = fsal_to_fattr3_lem some_attributes (omega arith) (omega arith)

-- The file's time is not the time of the guard.
handle_setattr-guarded_example : handle_setattr sample_xdr one_file 7 [] 0 ≡ (
  1,
  bind
      (create_wcc_error_response sample_xdr nfs3err_not_sync)
      (create_success_reply_with_data sample_xdr 7),
)
handle_setattr-guarded_example =
    handle_setattr-guarded sample_xdr one_file 7 [] guarded_truncation
      (record { seconds = 5; nseconds = 0 }) some_attributes 0 refl refl refl (inl (omega arith))

abbrev stale : Bytes
stale = 9 ∷ []

stale_unknown : lookup_path stale exported.handle_manager ≡ none
unfolding lookup_path create_handle get new insert path_eq texts_eq components bytes_eq
stale_unknown = refl

handle_read_stale_example : handle_read sample_xdr (local_filesystem sample_os) 7 stale exported ≡ (
  exported,
  bind
      (create_attr_error_response sample_xdr nfs3err_io)
      (create_success_reply_with_data sample_xdr 7),
)
handle_read_stale_example =
    handle_read_stale sample_xdr sample_os 7 stale (read_of stale) exported refl stale_unknown

root_known : resolve_handle sample_os root exported ≡ ok export
unfolding resolve_handle lookup_path create_handle get new insert path_eq texts_eq components
    bytes_eq
root_known = refl

outside_plain : contains (join export (codes "../etc/x")).os_str (0 ∷ []) ≡ false
unfolding contains join bytes_eq is_prefix
outside_plain = refl

mknod_unchecked_example :
    (mknod sample_os root (codes "../etc/x") named_pipe 420 (0, 0) exported).0.disk
    ≡ (sample_os.mkfifo (join export (codes "../etc/x")) 420 exported.disk).0
mknod_unchecked_example =
    mknod_unchecked sample_os root export (codes "../etc/x") 420 (0, 0) exported root_known
      outside_plain

-- READ, LOOKUP and a bit that means nothing are asked for of a plain file.
granted_access-eq_mask_example : granted_access 0x43 regular_file ≡ bit_and 0x43 0x3d
granted_access-eq_mask_example = granted_access-eq_mask 0x43 regular_file

exported-IsValid : IsValid exported.handle_manager
unfolding create_handle new get
exported-IsValid =
    create_handle-IsValid hash file_a with_root.0
      (create_handle-IsValid hash export new new-IsValid (omega arith)) (omega arith)

abbrev file_b : FileHandle
file_b = (create_handle hash (join export (codes "b")) with_file.0).1

-- A new file is looked up.
lookup-name_it_example : file_b ≡ file_b
unfolding create lookup resolve_handle lookup_path create_handle new get insert path_eq texts_eq
    components join bytes_eq checked_path is_prefix parent starts_with file_name
lookup-name_it_example =
    lookup-name_it sample_os (by_create 420) root (codes "b") exported file_b file_b
      exported-IsValid (omega arith) refl refl

-- CREATE of "b" in the root: an UNCHECKED one, and from longer arguments a GUARDED one.
abbrev modes_xdr : Xdr
modes_xdr = record sample_xdr {
  unpack_create3args = λ b. ok (record {
    where_dir = root;
    name = codes "b";
    how = elim b [
      | [] ↦ Createhow3.unchecked guarded_truncation.new_attributes
      | _ ∷ _ ↦ Createhow3.guarded guarded_truncation.new_attributes
    ];
  });
}

handle_create-how_example :
    handle_create modes_xdr (local_filesystem sample_os) 7 (0 ∷ []) exported
    ≡ handle_create modes_xdr (local_filesystem sample_os) 7 [] exported
unfolding create lookup resolve_handle lookup_path create_handle new get insert path_eq texts_eq
    components join bytes_eq checked_path is_prefix parent starts_with file_name getattr create_mode
handle_create-how_example =
    handle_create-how modes_xdr (local_filesystem sample_os) 7 (0 ∷ []) [] root (codes "b")
      (Createhow3.guarded guarded_truncation.new_attributes)
      (Createhow3.unchecked guarded_truncation.new_attributes) file_b exported refl refl refl refl
