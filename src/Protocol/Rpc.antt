-- ===== src/Protocol/Rpc.antt =====
-- The RPC message types of xdr/v3/rpc.x.
use arcticwolf.Base.{ℕ}
use arcticwolf.Base.Text.{Bytes}

pub data MsgType : Type 0 where
  call reply : MsgType

pub data AuthFlavor : Type 0 where
  auth_none auth_sys auth_short auth_dh : AuthFlavor

pub data ReplyStat : Type 0 where
  msg_accepted msg_denied : ReplyStat

pub data AcceptStat : Type 0 where
  success prog_unavail prog_mismatch proc_unavail garbage_args system_err : AcceptStat

pub record OpaqueAuth : Type 0 where
  pub flavor : AuthFlavor
  pub body : Bytes

pub record RpcCallMsg : Type 0 where
  pub xid : ℕ
  pub mtype : MsgType
  pub rpcvers : ℕ
  pub prog : ℕ
  pub vers : ℕ
  pub proc : ℕ
  pub cred : OpaqueAuth
  pub verf : OpaqueAuth

pub record RpcReplyMsg : Type 0 where
  pub xid : ℕ
  pub mtype : MsgType
  pub stat : ReplyStat
  pub verf : OpaqueAuth
  pub accept_stat : AcceptStat

abbrev pub mtype_code : MsgType → ℕ
mtype_code call = 0
mtype_code reply = 1

abbrev pub flavor_code : AuthFlavor → ℕ
flavor_code auth_none = 0
flavor_code auth_sys = 1
flavor_code auth_short = 2
flavor_code auth_dh = 3

abbrev pub stat_code : ReplyStat → ℕ
stat_code msg_accepted = 0
stat_code msg_denied = 1

abbrev pub accept_code : AcceptStat → ℕ
accept_code success = 0
accept_code prog_unavail = 1
accept_code prog_mismatch = 2
accept_code proc_unavail = 3
accept_code garbage_args = 4
accept_code system_err = 5
