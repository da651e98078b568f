-- ===== src/Portmap/Handlers/Replies.antt =====
-- What a client of the portmapper sees on the wire.
use arcticwolf.Base.{
  ℕ, ◌^◌, ◌<◌, ◌≡◌, refl, true, ◌++◌, ok, if◌then◌else◌, arith, inl, inr, Bool-cases,
}
use arcticwolf.Base.Text.{Bytes}
use arcticwolf.Base.Words.{be32}
use arcticwolf.Base.HashMap.{get-insert, get-remove}
use arcticwolf.Protocol.Rpc.{RpcCallMsg, success}
use arcticwolf.Protocol.Services.{Mapping}
use arcticwolf.Protocol.Xdr.{Xdr, IsXdr, reply_header}
use arcticwolf.Rpc.Message.{accepted_reply, create_null_reply, serialize_reply}
use arcticwolf.Portmap.Registry.{service_key, Registry, set, unset, getport, key_of, key_eq}
use arcticwolf.Portmap.Handlers.{
  deserialize_mapping, serialize_bool, serialize_port, set_handle, unset_handle, getport_handle,
  handle_portmap_call,
}

-- A call of a procedure of the portmapper, version 2.
pub record IsPortmapCall (proc : ℕ) (call : RpcCallMsg) : Type 0 where
  pub prog_is : call.prog ≡ 100000
  pub vers_is : call.vers ≡ 2
  pub proc_is : call.proc ≡ proc
  pub xid_small : call.xid < 2 ^ 32

module _ (x : Xdr) (lawful : IsXdr x) where
  header_lem :
      (xid : ℕ)
      → xid < 2 ^ 32
      → serialize_reply x (create_null_reply xid) ≡ ok (reply_header (accepted_reply xid success))
  unfolding create_null_reply serialize_reply accepted_reply
  header_lem xid h = lawful.pack_rpc_reply_msg_lem (accepted_reply xid success) h refl

  set_lem :
      (call : RpcCallMsg) (args : Bytes) (m : Mapping) (r : Registry)
      → IsPortmapCall 1 call
      → x.unpack_mapping args ≡ ok m
      → handle_portmap_call x call args r
        ≡ ((set m r).0, ok (reply_header (accepted_reply call.xid success) ++ be32 1))
  unfolding handle_portmap_call set_handle deserialize_mapping serialize_bool set
  set_lem call args m r is parsed =
      rw (is.prog_is, is.vers_is, is.proc_is)
        (rw parsed
          (rw (header_lem call.xid is.xid_small) (rw (lawful.pack_u32_lem 1 (omega arith)) refl)))

  getport_lem :
      (call : RpcCallMsg) (args : Bytes) (m : Mapping) (r : Registry)
      → IsPortmapCall 3 call
      → x.unpack_mapping args ≡ ok m
      → getport m r < 2 ^ 32
      → handle_portmap_call x call args r
        ≡ (r, ok (reply_header (accepted_reply call.xid success) ++ be32 (getport m r)))
  unfolding handle_portmap_call getport_handle deserialize_mapping serialize_port
  getport_lem call args m r is parsed small =
      rw (is.prog_is, is.vers_is, is.proc_is)
        (rw parsed (
          rw (header_lem call.xid is.xid_small)
            (rw (lawful.pack_u32_lem (getport m r) small) refl)))

  unset_reply_lem :
      (call : RpcCallMsg) (args : Bytes) (m : Mapping) (r : Registry)
      → IsPortmapCall 2 call
      → x.unpack_mapping args ≡ ok m
      → handle_portmap_call x call args r ≡ (
        (unset m r).0,
        ok (
            reply_header (accepted_reply call.xid success)
            ++ be32 (if (unset m r).1 then 1 else 0)),
      )
  unfolding handle_portmap_call unset_handle deserialize_mapping serialize_bool
  unset_reply_lem call args m r is parsed = elim (Bool-cases (unset m r).1) [
    | inl yes_ ↦
        rw (is.prog_is, is.vers_is, is.proc_is)
          (rw parsed (
            rw (header_lem call.xid is.xid_small)
              (rw yes_ (rw (lawful.pack_u32_lem 1 (omega arith)) refl))))
    | inr no_ ↦
        rw (is.prog_is, is.vers_is, is.proc_is)
          (rw parsed (
            rw (header_lem call.xid is.xid_small)
              (rw no_ (rw (lawful.pack_u32_lem 0 (omega arith)) refl))))
  ]

  getport-set :
      (m other : Mapping) (r : Registry)
      → key_eq (key_of m) (key_of other) ≡ true
      → getport other (set m r).0 ≡ m.port
  unfolding getport set
  getport-set m other r same =
      ground (arith, get-insert r.mappings (key_of m) (key_of other) m.port)

  getport-unset :
      (m other : Mapping) (r : Registry)
      → key_eq (key_of m) (key_of other) ≡ true
      → getport other (unset m r).0 ≡ 0
  unfolding getport unset
  getport-unset m other r same = ground (arith, get-remove r.mappings (key_of m) (key_of other))

  -- A GETPORT call that comes after a SET call of the same service is answered with the port that
  -- was set, and after an UNSET call with 0, each under its own transaction id. The codec follows
  -- its laws, the calls are of version 2 and their arguments parse, and the port fits a word.
  pub handle_portmap_call-getport :
      (set_call unset_call getport_call : RpcCallMsg) (set_args getport_args : Bytes)
      → (m other : Mapping) (r : Registry) → IsPortmapCall 1 set_call
      → IsPortmapCall 2 unset_call
      → IsPortmapCall 3 getport_call
      → x.unpack_mapping set_args ≡ ok m
      → x.unpack_mapping getport_args ≡ ok other
      → key_eq (key_of m) (key_of other) ≡ true
      → m.port < 2 ^ 32
      → let header = reply_header (accepted_reply getport_call.xid success) in
        let after_set = (handle_portmap_call x set_call set_args r).0 in
        let after_unset = (handle_portmap_call x unset_call set_args r).0 in
        ((handle_portmap_call x getport_call getport_args after_set).1 ≡ ok (header ++ be32 m.port))
        × ((handle_portmap_call x getport_call getport_args after_unset).1 ≡ ok (header ++ be32 0))
  handle_portmap_call-getport set_call unset_call getport_call set_args getport_args m other r
        is_set is_unset is_get parsed parsed' same small =
      let found = getport-set m other r same in
      let gone = getport-unset m other r same in
      let first = set_lem set_call set_args m r is_set parsed in
      let second = unset_reply_lem unset_call set_args m r is_unset parsed in
      (
        rw first (
            rw
              (getport_lem getport_call getport_args other (set m r).0 is_get parsed'
                (omega (arith, found)))
              (rw found refl)),
        rw second (
            rw
              (getport_lem getport_call getport_args other (unset m r).0 is_get parsed'
                (omega (arith, gone)))
              (rw gone refl)),
      )
