-- ===== src/Tests/Services.antt =====
-- The portmapper at one service.
use arcticwolf.Base.{
  ℕ, ◌^◌, ◌<◌, ◌≡◌, refl, ◌||◌, Bool, true, false, Option, none, some, List, [], ◌∷◌, ◌++◌, Result,
  ok, if◌then◌else◌, arith,
}
use arcticwolf.Base.Text.{Bytes}
use arcticwolf.Base.Words.{be32}
use arcticwolf.Protocol.Rpc.{RpcCallMsg, call, auth_none, success}
use arcticwolf.Protocol.Services.{Mapping}
use arcticwolf.Protocol.Xdr.{reply_header}
use arcticwolf.Rpc.Message.{accepted_reply}
use arcticwolf.Portmap.Registry.{
  new, key_of, key_eq, set, unset, getport, register_services, unwrap_or,
}
use arcticwolf.Portmap.Registry.Laws.{
  Op, set_op, unset_op, run, replay, getport-run, unset_lem, getport-register_services, portmap_key,
  mount_key, nfs_key,
}
use arcticwolf.Portmap.Handlers.{handle_portmap_call}
use arcticwolf.Portmap.Handlers.Replies.{IsPortmapCall, handle_portmap_call-getport}
use arcticwolf.Tests.Samples.{sample_xdr, sample_xdr-IsXdr}

abbrev nfs : Mapping
nfs = record { prog = 100003; vers = 3; prot = 6; port = 2049 }

abbrev mount : Mapping
mount = record { prog = 100005; vers = 3; prot = 6; port = 635 }

abbrev history : List Op
history = set_op nfs ∷ set_op mount ∷ unset_op mount ∷ []

getport-run_example : getport nfs (run history new) ≡ unwrap_or (replay history (key_of nfs) none) 0
getport-run_example = getport-run history nfs

unset_lem_example :
    ((unset nfs (set nfs new).0).1 ≡ true)
    × ((unset nfs (unset nfs new).0).1 ≡ false)
    × (getport mount (unset nfs new).0
        ≡ (if key_eq (key_of nfs) (key_of mount) then 0 else getport mount new))
unset_lem_example = unset_lem nfs mount new

getport-register_services_example : getport mount (register_services 4000 new) ≡ (
    if key_eq portmap_key (key_of mount)
      || (key_eq mount_key (key_of mount) || key_eq nfs_key (key_of mount))
    then 4000
    else getport mount new)
getport-register_services_example = getport-register_services 4000 mount new

abbrev portmap_call : ℕ → RpcCallMsg
portmap_call n = record {
  xid = 7;
  mtype = call;
  rpcvers = 2;
  prog = 100000;
  vers = 2;
  proc = n;
  cred = record { flavor = auth_none; body = [] };
  verf = record { flavor = auth_none; body = [] };
}

portmap_call-IsPortmapCall : (n : ℕ) → IsPortmapCall n (portmap_call n)
portmap_call-IsPortmapCall n = record {
  prog_is = refl;
  vers_is = refl;
  proc_is = refl;
  xid_small = omega arith;
}

abbrev nfs_args : Bytes
nfs_args = be32 100003 ++ (be32 3 ++ (be32 6 ++ be32 2049))

unpack-nfs_args : sample_xdr.unpack_mapping nfs_args ≡ ok nfs
unfolding be32 arcticwolf.Rpc.Server.word_of arcticwolf.Base.Words.of_be32
unpack-nfs_args = refl

handle_portmap_call-getport_example :
    let header = reply_header (accepted_reply 7 success) in
    let after_set = (handle_portmap_call sample_xdr (portmap_call 1) nfs_args new).0 in
    let after_unset = (handle_portmap_call sample_xdr (portmap_call 2) nfs_args new).0 in
    ((handle_portmap_call sample_xdr (portmap_call 3) nfs_args after_set).1
      ≡ ok (header ++ be32 2049))
    × ((handle_portmap_call sample_xdr (portmap_call 3) nfs_args after_unset).1
        ≡ ok (header ++ be32 0))
handle_portmap_call-getport_example =
    handle_portmap_call-getport sample_xdr sample_xdr-IsXdr (portmap_call 1) (portmap_call 2)
      (portmap_call 3) nfs_args nfs_args nfs nfs new (portmap_call-IsPortmapCall 1)
      (portmap_call-IsPortmapCall 2) (portmap_call-IsPortmapCall 3) unpack-nfs_args unpack-nfs_args
      refl (omega arith)
