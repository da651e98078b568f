-- ===== src/Tests/Layout.antt =====
-- The layout of results at concrete data: a server that has just started, asked for the file
-- system's numbers, and a listing that fails.
use arcticwolf.Base.{
  ltb, if◌then◌else◌, ◌*◌, ◌≡◌, refl, none, [], ◌∷◌, ◌++◌, length, replicate, Result, ok, err,
  anyhow, arith,
}
use arcticwolf.Base.Text.{Bytes, codes, bytes_eq, texts_eq}
use arcticwolf.Base.Words.{be32, be64}
use arcticwolf.Fsal.Local.Backend.{create_filesystem, local_filesystem, local_config}
use arcticwolf.Fsal.Local.Bounds.{IsFrugal}
use arcticwolf.Fsal.Handle
use arcticwolf.Main.{main_server, export_path}
use arcticwolf.Nfs.Dispatch.{dispatch, procedure}
use arcticwolf.Nfs.Layout.Dispatch.{FollowsRfc}
use arcticwolf.Nfs.Layout.Parts.{IsSized}
use arcticwolf.Nfs.Wire.{padding, reply_with, pack_status, fsal_to_fattr3}
use arcticwolf.Portmap.Registry
use arcticwolf.Portmap.Registry.{register_services}
use arcticwolf.Protocol.Rpc.{RpcCallMsg, call, auth_none, success}
use arcticwolf.Protocol.Xdr.{Xdr, IsXdr, reply_header}
use arcticwolf.Rpc.Message.{
  accepted_reply, create_success_reply_with_data, create_null_reply, serialize_reply,
}
use arcticwolf.Nfs.Query.{handle_fsstat}
use arcticwolf.Nfs.Listing.{handle_readdir}
use arcticwolf.Nfs.Layout.{listing, entry3, skip}
use arcticwolf.Nfs.Layout.Bare.{handle_readdir-bare}
use arcticwolf.Protocol.Nfs.{Readdir3args}
use arcticwolf.Fsal.Local.Operations
use arcticwolf.Fsal.Local.{resolve_handle}
use arcticwolf.Fsal.Handle.{lookup_path}
use arcticwolf.Base.HashMap.{get, insert}
use arcticwolf.Fsal.FilePath.{path_eq, components}
use arcticwolf.Rpc.Server.Accept.{RpcServer, here, listening}
use arcticwolf.Rpc.Server.Results.{results_follow_rfc}
use arcticwolf.Tests.Samples.{sample_os, sample_xdr}

-- The codec of the samples, with everything in its size.
abbrev packed_opaque : Bytes → Result Bytes
packed_opaque h =
    if ltb (length h) 65
    then ok (be32 (length h) ++ (h ++ padding (length h)))
    else err (anyhow (codes "too long"))

abbrev readdir_of : Bytes → Readdir3args
readdir_of b = record { dir = b; cookie = 0; cookieverf = replicate 8 0; count = 4 }

abbrev sized_xdr : Xdr
sized_xdr = record sample_xdr {
  pack_fattr3 = λ a. ok (replicate 84 0);
  pack_getattr3res = λ a. ok (be32 0 ++ replicate 84 0);
  pack_nfstime3 = λ t. ok (replicate 8 0);
  pack_fhandle3 = packed_opaque;
  pack_filename3 = packed_opaque;
  unpack_readdir3args = λ b. ok (readdir_of b);
  unpack_fhandle3 = λ b. ok b;
}

sized_xdr-IsXdr : IsXdr sized_xdr
sized_xdr-IsXdr = record {
  pack_u32_lem = λ n h. refl;
  pack_i32_lem = λ n h. refl;
  pack_bool_lem = λ b. refl;
  pack_rpc_reply_msg_lem = λ r h e. refl;
}

sized_xdr-IsSized : IsSized sized_xdr
unfolding be32 be64
sized_xdr-IsSized = record {
  read_count = λ b a e. ground (arith, e);
  pack_u32_size = λ n b e. ground (arith, e);
  pack_u64_size = λ n b e. ground (arith, e);
  pack_i32_size = λ n b e. ground (arith, e);
  pack_fattr3_size = λ a b e. ground (arith, e);
  pack_nfstime3_size = λ a b e. ground (arith, e);
  pack_cookieverf3_size = λ v b e. ground (arith, e);
  pack_getattr3res_size = λ a b e. (replicate 84 0, ground (arith, e), refl);
  pack_fhandle3_size = λ h b e. (ground (arith, e), ground (arith, e));
  pack_filename3_size = λ t b e. (t, ground (arith, e), ground (arith, e));
}

sample_os-IsFrugal : IsFrugal sample_os
sample_os-IsFrugal = record {
  read_size = λ f n s b e. ground (arith, e);
  link_size = λ s p t e. absurd (cc);
}

abbrev made : Handle.HandleManager × Bytes
made = Handle.create_handle sample_os.path_hash export_path Handle.new

abbrev server : RpcServer sized_xdr (local_filesystem sample_os)
server = record {
  addr = codes "0.0.0.0:4000";
  shared = record {
    registry = register_services 4000 Registry.new;
    files = record {
      root_path = export_path;
      handle_manager = made.0;
      root_handle = made.1;
      disk = export_path ∷ [];
    };
  };
}

server_started : main_server sample_os sized_xdr (export_path ∷ []) ≡ ok server
unfolding main_server create_filesystem local_config path_eq components texts_eq bytes_eq
server_started = refl

abbrev numbers_call : RpcCallMsg
numbers_call = record {
  xid = 9;
  mtype = call;
  rpcvers = 2;
  prog = 100003;
  vers = 3;
  proc = 18;
  cred = record { flavor = auth_none; body = [] };
  verf = record { flavor = auth_none; body = [] };
}

-- FSSTAT of the root.
abbrev numbers : Bytes
numbers =
    reply_header (accepted_reply 9 success)
    ++ (be32 0
        ++ (be32 1
            ++ (replicate 84 0
                ++ (be64 (1024 * 1024 * 1024 * 100)
                    ++ (be64 (1024 * 1024 * 1024 * 50)
                        ++ (be64 (1024 * 1024 * 1024 * 50)
                            ++ (be64 1000000 ++ (be64 500000 ++ (be64 500000 ++ be32 0)))))))))

numbers_answered :
    (dispatch sized_xdr (local_filesystem sample_os) numbers_call made.1 server.shared.files).1
    ≡ ok numbers
unfolding dispatch procedure handle_fsstat reply_with pack_status create_success_reply_with_data
    create_null_reply serialize_reply accepted_reply be32 be64 Operations.getattr resolve_handle
    lookup_path Handle.create_handle Handle.new get insert Handle.find_handle Handle.take_id
    Handle.store_mappings bytes_eq Handle.new_handle fsal_to_fattr3
numbers_answered = refl

results_follow_rfc_example : FollowsRfc 18 9 numbers
results_follow_rfc_example =
    results_follow_rfc sample_os sized_xdr sized_xdr-IsXdr sized_xdr-IsSized sample_os-IsFrugal
      (export_path ∷ []) server (listening sized_xdr (local_filesystem sample_os) server)
      numbers_call made.1 numbers server_started here (omega arith) numbers_answered

abbrev unknown_handle : Bytes
unknown_handle = replicate 32 7

unknown_directory :
    (Operations.getattr sample_os unknown_handle server.shared.files).1
    ≡ err (anyhow (codes "Invalid file handle"))
unfolding Operations.getattr resolve_handle lookup_path Handle.create_handle Handle.new get insert
    Handle.find_handle Handle.take_id Handle.store_mappings bytes_eq Handle.new_handle
unknown_directory = refl

handle_readdir-bare_example :
    ((handle_readdir sized_xdr (local_filesystem sample_os) 9 unknown_handle server.shared.files).1
      ≡ ok (reply_header (accepted_reply 9 success) ++ be32 5))
    × (skip (listing entry3) (be32 5) ≡ none)
handle_readdir-bare_example =
    handle_readdir-bare sized_xdr sized_xdr-IsXdr (local_filesystem sample_os) 9 (omega arith)
      unknown_handle (readdir_of unknown_handle) server.shared.files
      (anyhow (codes "Invalid file handle")) refl unknown_directory
