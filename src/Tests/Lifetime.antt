-- ===== src/Tests/Lifetime.antt =====
-- A server over the local filesystem that creates a file for a client.
use arcticwolf.Base.{◌≡◌, refl, some, [], ◌∷◌, ◌++◌, ok, arith, true}
use native.Mathlib.Decide.{ℕ_discrete}
use arcticwolf.Base.Text.{Bytes, codes, bytes_eq, is_prefix, texts_eq, contains}
use arcticwolf.Base.Words.{be32, be64, of_be32}
use arcticwolf.Fsal.Local.Backend.{create_filesystem, local_config, local_filesystem}
use arcticwolf.Fsal.Handle
use arcticwolf.Fsal.Handle.{FileHandle, lookup_path, count, new_handle}
use arcticwolf.Fsal.Local.{
  Local, resolve_handle, checked_path, is_unsafe_name, validate_path, canonical_form,
}
use arcticwolf.Portmap.Registry
use arcticwolf.Portmap.Registry.{register_services}
use arcticwolf.Main.{export_path, main_server}
use arcticwolf.Rpc.Server.{
  word_of, respond, handle_rpc_message, args_of, skip_auth, with_record_mark, round_up, route,
}
use arcticwolf.Rpc.Server.Accept.{RpcServer, Run, accept, answer, here, later, listening}
use arcticwolf.Rpc.Server.Header.{auth_bytes}
use arcticwolf.Rpc.Server.Record.{fragment, read_fragment-fragment}
use arcticwolf.Rpc.Server.Lasting.{State, files, manager, handles_last, root_lasts}
use arcticwolf.Base.HashMap.{get, insert}
use arcticwolf.Rpc.Message.{
  deserialize_call, create_success_reply_with_data, create_null_reply, serialize_reply,
  accepted_reply,
}
use arcticwolf.Nfs.Dispatch.{dispatch, procedure}
use arcticwolf.Nfs.Change.{handle_create, create_mode}
use arcticwolf.Fsal.Local.Operations
use arcticwolf.Fsal.FilePath.{
  path_eq, components, join, parent, starts_with, file_name, is_absolute,
}
use arcticwolf.Nfs.Wire.{reply_with, pack_status, pack_opaque, padding, fsal_to_fattr3}
use arcticwolf.Fsal.Local.Start.{create_filesystem-IsFresh}
use arcticwolf.Fsal.Handle.Invariant.{IsValid}
use arcticwolf.Mount.{mnt_handle}
use arcticwolf.Protocol.Rpc.{RpcCallMsg, call, auth_none}
use arcticwolf.Tests.Samples.{sample_os, sample_xdr}

abbrev made : Handle.HandleManager × FileHandle
made = Handle.create_handle sample_os.path_hash export_path Handle.new

abbrev root : FileHandle
root = made.1

abbrev fresh : Local sample_os
fresh = record {
  root_path = export_path;
  handle_manager = made.0;
  root_handle = root;
  disk = export_path ∷ [];
}

abbrev server : RpcServer sample_xdr (local_filesystem sample_os)
server = record {
  addr = codes "0.0.0.0:4000";
  shared = record { registry = register_services 4000 Registry.new; files = fresh };
}

server_started : main_server sample_os sample_xdr (export_path ∷ []) ≡ ok server
unfolding main_server create_filesystem local_config path_eq components texts_eq bytes_eq
server_started = refl

fresh_started : create_filesystem sample_os (local_config export_path) (export_path ∷ []) ≡ ok fresh
unfolding create_filesystem local_config path_eq components texts_eq bytes_eq
fresh_started = refl

-- CREATE in the root.
abbrev message : Bytes
message =
    be32 7
    ++ (be32 0 ++ (be32 2 ++ (be32 100003 ++ (be32 3 ++ be32 8))))
    ++ (auth_bytes 0 [] ++ (auth_bytes 0 [] ++ root))

abbrev first : State sample_os sample_xdr
first = listening sample_xdr (local_filesystem sample_os) server

-- A client connects and sends the call.
created : (t : State sample_os sample_xdr) × Run sample_xdr (local_filesystem sample_os) first t
unfolding ℕ_discrete be32 auth_bytes Handle.create_handle get Handle.new fragment
created = (
  _,
  later (later here (accept 0 (fragment 1 message) refl)) (
      answer 0 {fragment = message} {rest = []} refl
        (read_fragment-fragment true message [] (omega arith))),
)

after_creation : count (manager sample_os sample_xdr created.0) ≡ 2
unfolding created count word_of respond handle_rpc_message deserialize_call args_of skip_auth
    dispatch handle_create Operations.create resolve_handle lookup_path bytes_eq checked_path
    is_prefix path_eq texts_eq components join parent starts_with file_name reply_with pack_status
    pack_opaque create_success_reply_with_data is_unsafe_name validate_path canonical_form contains
    is_absolute create_mode padding create_null_reply serialize_reply accepted_reply be32 be64
    new_handle Handle.find_handle Handle.take_id Handle.store_mappings with_record_mark round_up
    of_be32 route procedure Operations.getattr fsal_to_fattr3 insert
after_creation = refl

abbrev mounting : RpcCallMsg
mounting = record {
  xid = 9;
  mtype = call;
  rpcvers = 2;
  prog = 100005;
  vers = 3;
  proc = 1;
  cred = record { flavor = auth_none; body = [] };
  verf = record { flavor = auth_none; body = [] };
}

root_lasts_example :
    (lookup_path root (manager sample_os sample_xdr created.0) ≡ some export_path)
    × ((mnt_handle sample_xdr
          (local_filesystem sample_os)
          mounting
          (codes "/export")
          (files sample_os sample_xdr created.0)).1
        ≡ (mnt_handle sample_xdr (local_filesystem sample_os) mounting (codes "/export") fresh).1)
root_lasts_example =
    root_lasts sample_os sample_xdr (export_path ∷ []) server created.0 mounting (codes "/export")
      server_started created.1 (omega (arith, after_creation))

handles_last_example :
    IsValid (manager sample_os sample_xdr created.0)
    × (lookup_path root (manager sample_os sample_xdr created.0) ≡ some export_path)
    × ((files sample_os sample_xdr created.0).root_path ≡ export_path)
    × ((files sample_os sample_xdr created.0).root_handle ≡ root)
handles_last_example =
    let start =
      create_filesystem-IsFresh sample_os (local_config export_path) (export_path ∷ []) fresh
        fresh_started in
    handles_last sample_os sample_xdr first created.0 root export_path created.1 start.valid
      start.root_resolves (omega (arith, after_creation, start.next, start.one_handle))
