-- ===== src/Portmap/Handlers.antt =====
-- The procedures of src/portmap and their dispatch, with the middleware of
-- src/protocol/v3/portmap.rs.
pub mod Replies
use arcticwolf.Base.{
  ℕ, Bool, true, false, ◌++◌, Result, ok, err, bind, M, pure, fail, lift, total, ◌>>=◌, anyhow,
  ◌==◌, not, if◌then◌else◌,
}
use arcticwolf.Base.Text.{Bytes, codes}
use arcticwolf.Protocol.Rpc.{RpcCallMsg}
use arcticwolf.Protocol.Services.{Mapping}
use arcticwolf.Protocol.Xdr.{Xdr}
use arcticwolf.Rpc.Message.{create_null_reply, serialize_reply}
use arcticwolf.Portmap.Registry.{Registry, set, unset, getport}

module _ (x : Xdr) where
  unfoldable pub deserialize_mapping : Bytes → Result Mapping
  deserialize_mapping contents = x.unpack_mapping contents

  unfoldable pub serialize_bool : Bool → Result Bytes
  serialize_bool result = x.pack_u32 (if result then 1 else 0)

  unfoldable pub serialize_port : ℕ → Result Bytes
  serialize_port port = x.pack_u32 port

  unfoldable pub null_handle : RpcCallMsg → M Registry Bytes
  null_handle call = lift (serialize_reply x (create_null_reply call.xid))

  unfoldable pub set_handle : RpcCallMsg → Bytes → M Registry Bytes
  unfolding deserialize_mapping serialize_bool
  set_handle call args = do
    m ← lift (deserialize_mapping args)
    success ← total (set m)
    rpc_header ← lift (serialize_reply x (create_null_reply call.xid))
    result_data ← lift (serialize_bool success)
    pure (rpc_header ++ result_data)

  unfoldable pub unset_handle : RpcCallMsg → Bytes → M Registry Bytes
  unfolding deserialize_mapping serialize_bool
  unset_handle call args = do
    m ← lift (deserialize_mapping args)
    success ← total (unset m)
    rpc_header ← lift (serialize_reply x (create_null_reply call.xid))
    result_data ← lift (serialize_bool success)
    pure (rpc_header ++ result_data)

  unfoldable pub getport_handle : RpcCallMsg → Bytes → M Registry Bytes
  unfolding deserialize_mapping serialize_port
  getport_handle call args = do
    m ← lift (deserialize_mapping args)
    port ← total (λ r. (r, getport m r))
    rpc_header ← lift (serialize_reply x (create_null_reply call.xid))
    result_data ← lift (serialize_port port)
    pure (rpc_header ++ result_data)

  unfoldable pub handle_portmap_call : RpcCallMsg → Bytes → M Registry Bytes
  handle_portmap_call call args =
      if not (call.prog == 100000)
      then fail (anyhow (codes "Wrong program number"))
      else if not (call.vers == 2)
      then fail (anyhow (codes "Unsupported PORTMAP version"))
      else if call.proc == 0
      then null_handle call
      else if call.proc == 1
      then set_handle call args
      else if call.proc == 2
      then unset_handle call args
      else if call.proc == 3
      then getport_handle call args
      else if call.proc == 4
      then fail (anyhow (codes "PORTMAP DUMP procedure not implemented"))
      else if call.proc == 5
      then fail (anyhow (codes "PORTMAP CALLIT procedure not supported"))
      else fail (anyhow (codes "Unknown PORTMAP procedure"))
