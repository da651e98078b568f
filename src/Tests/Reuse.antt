-- ===== src/Tests/Reuse.antt =====
-- A file that a client removes, and another that is created in its place.
use arcticwolf.Base.{◌≡◌, refl, [], ◌∷◌, ◌++◌, ok, List, false, arith, if◌then◌else◌, true}
use native.Mathlib.Decide.{ℕ_discrete}
use arcticwolf.Base.Text.{Bytes, codes, bytes_eq, is_prefix, texts_eq, contains}
use arcticwolf.Base.Words.{be32, be64, of_be32}
use arcticwolf.Fsal.Os.{Os}
use arcticwolf.Fsal.Local.Backend.{local_filesystem}
use arcticwolf.Fsal.Handle
use arcticwolf.Fsal.Handle.{FileHandle, lookup_path, count, new_handle}
use arcticwolf.Fsal.Handle.Invariant.{IsValid, new-IsValid, create_handle-IsValid}
use arcticwolf.Fsal.Local.{
  Local, resolve_handle, checked_path, is_unsafe_name, validate_path, canonical_form,
}
use arcticwolf.Fsal.Local.Naming.{by_create}
use arcticwolf.Fsal.Local.Operations
use arcticwolf.Fsal.FilePath.{
  FilePath, path_eq, components, join, parent, starts_with, file_name, is_absolute,
}
use arcticwolf.Portmap.Registry
use arcticwolf.Portmap.Registry.{register_services}
use arcticwolf.Main.{export_path}
use arcticwolf.Protocol.Xdr.{Xdr}
use arcticwolf.Rpc.Server.{
  word_of, respond, handle_rpc_message, args_of, skip_auth, with_record_mark, round_up, route,
}
use arcticwolf.Rpc.Server.Accept.{Run, accept, answer, here, later, listening}
use arcticwolf.Rpc.Server.Header.{auth_bytes}
use arcticwolf.Rpc.Server.Record.{fragment, read_fragment-fragment}
use arcticwolf.Rpc.Server.Lasting.{State, files, manager}
use arcticwolf.Rpc.Server.Reuse.{name_it_again}
use arcticwolf.Base.HashMap.{get, insert}
use arcticwolf.Rpc.Message.{
  deserialize_call, create_success_reply_with_data, create_null_reply, serialize_reply,
  accepted_reply,
}
use arcticwolf.Nfs.Dispatch.{dispatch, procedure}
use arcticwolf.Nfs.Names.{handle_remove, create_remove_response}
use arcticwolf.Nfs.Wire.{
  pack_post_op_attr, reply_with, pack_status, pack_opaque, padding, fsal_to_fattr3,
}
use arcticwolf.Tests.Samples.{sample_os, sample_xdr, holds}

unfoldable without : List FilePath → FilePath → List FilePath
without [] p = []
without (q ∷ qs) p = let rest = without qs p in if path_eq q p then rest else q ∷ rest

-- The sample disk, from which files can be removed.
abbrev os : Os
os = record sample_os { remove_file = λ p s. (without s p, ok tt) }

-- A REMOVE of "b" in the directory whose handle the bytes are.
abbrev xdr : Xdr
xdr = record sample_xdr { unpack_remove3args = λ b. ok (record { dir = b; name = codes "b" }) }

abbrev made : Handle.HandleManager × FileHandle
made = Handle.create_handle os.path_hash export_path Handle.new

abbrev root : FileHandle
root = made.1

abbrev fresh : Local os
fresh = record {
  root_path = export_path;
  handle_manager = made.0;
  root_handle = root;
  disk = export_path ∷ [];
}

abbrev file_b : FileHandle
file_b = (Handle.create_handle os.path_hash (join export_path (codes "b")) made.0).1

abbrev after_create : Local os
after_create = (Operations.create os root (codes "b") 420 fresh).0

abbrev first : State os xdr
first = listening xdr (local_filesystem os) (record {
  addr = codes "0.0.0.0:4000";
  shared = record { registry = register_services 4000 Registry.new; files = after_create };
})

abbrev message : Bytes
message =
    be32 7
    ++ (be32 0 ++ (be32 2 ++ (be32 100003 ++ (be32 3 ++ be32 12))))
    ++ (auth_bytes 0 [] ++ (auth_bytes 0 [] ++ root))

-- A client connects and sends the call.
removed : (t : State os xdr) × Run xdr (local_filesystem os) first t
unfolding ℕ_discrete be32 auth_bytes Handle.create_handle get Handle.new fragment
removed = (
  _,
  later (later here (accept 0 (fragment 1 message) refl)) (
      answer 0 {fragment = message} {rest = []} refl
        (read_fragment-fragment true message [] (omega arith))),
)

after_removal :
    (count (manager os xdr removed.0) ≡ 2)
    × (holds (files os xdr removed.0).disk (join export_path (codes "b")) ≡ false)
    × ((Operations.create os root (codes "b") 438 (files os xdr removed.0)).1 ≡ ok file_b)
unfolding removed count word_of respond handle_rpc_message deserialize_call args_of skip_auth
    dispatch handle_remove Operations.create Operations.remove resolve_handle lookup_path bytes_eq
    checked_path is_prefix path_eq texts_eq components join parent starts_with file_name reply_with
    pack_status pack_opaque create_success_reply_with_data is_unsafe_name validate_path
    canonical_form contains is_absolute padding create_null_reply serialize_reply accepted_reply
    be32 be64 new_handle Handle.find_handle Handle.take_id Handle.store_mappings with_record_mark
    round_up of_be32 route procedure Operations.getattr fsal_to_fattr3 insert without
    create_remove_response pack_post_op_attr
after_removal = (refl, refl, refl)

after_creation :
    ((Operations.create os root (codes "b") 420 fresh).1 ≡ ok file_b)
    × (after_create.handle_manager.next_id ≡ 3)
    × (count after_create.handle_manager ≡ 2)
unfolding Operations.create resolve_handle lookup_path bytes_eq checked_path is_prefix path_eq
    texts_eq components join parent starts_with file_name is_unsafe_name validate_path
    canonical_form contains is_absolute Handle.create_handle get Handle.new insert count
    Handle.take_id Handle.store_mappings Handle.find_handle be64 new_handle
after_creation = (refl, refl, refl)

fresh-IsValid : IsValid fresh.handle_manager
unfolding Handle.new
fresh-IsValid = create_handle-IsValid os.path_hash export_path Handle.new new-IsValid (omega arith)

name_it_again_example : file_b ≡ file_b
unfolding Handle.create_handle get Handle.new
name_it_again_example =
    name_it_again os root (codes "b") xdr (by_create 420) (by_create 438) fresh first removed.0
      file_b file_b fresh-IsValid (omega arith) after_creation.0 refl removed.1
      (omega (arith, after_removal.0, after_creation.1, after_creation.2)) after_removal.2
