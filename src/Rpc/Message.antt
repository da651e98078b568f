-- ===== src/Rpc/Message.antt =====
-- `RpcMessage` of src/protocol/v3/rpc.rs.
use arcticwolf.Base.{ℕ, [], ◌++◌, Result, ok, bind}
use arcticwolf.Base.Text.{Bytes}
use arcticwolf.Protocol.Rpc.{
  RpcCallMsg, RpcReplyMsg, AcceptStat, reply, auth_none, msg_accepted, success, prog_unavail,
}
use arcticwolf.Protocol.Xdr.{Xdr}

unfoldable pub accepted_reply : ℕ → AcceptStat → RpcReplyMsg
accepted_reply xid stat = record {
  xid = xid;
  mtype = reply;
  stat = msg_accepted;
  verf = record { flavor = auth_none; body = [] };
  accept_stat = stat;
}

unfoldable pub create_null_reply : ℕ → RpcReplyMsg
unfolding accepted_reply
create_null_reply xid = accepted_reply xid success

module _ (x : Xdr) where
  unfoldable pub deserialize_call : Bytes → Result RpcCallMsg
  deserialize_call contents = x.unpack_rpc_call_msg contents

  unfoldable pub serialize_reply : RpcReplyMsg → Result Bytes
  serialize_reply r = x.pack_rpc_reply_msg r

  unfoldable pub create_success_reply_with_data : ℕ → Bytes → Result Bytes
  unfolding serialize_reply
  create_success_reply_with_data xid proc_data =
      bind (serialize_reply (create_null_reply xid)) (λ rpc_header. ok (rpc_header ++ proc_data))

  unfoldable pub create_prog_unavail_reply : ℕ → Result Bytes
  unfolding serialize_reply accepted_reply
  create_prog_unavail_reply xid = serialize_reply (accepted_reply xid prog_unavail)
