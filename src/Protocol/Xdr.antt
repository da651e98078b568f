-- ===== src/Protocol/Xdr.antt =====
-- What xdr-codec and the code that xdrgen generates give the server: neither is part of the
-- repository. `pack` appends to a buffer, and is taken as the bytes that it appends.
use arcticwolf.Base.{ℕ, ◌^◌, ◌<◌, ◌≡◌, Bool, List, [], ◌∷◌, ◌++◌, ok, Result, bind, if◌then◌else◌}
use arcticwolf.Base.Text.{Bytes, Text}
use arcticwolf.Base.Words.{be32}
use arcticwolf.Protocol.Rpc.{
  RpcCallMsg, RpcReplyMsg, mtype_code, flavor_code, stat_code, accept_code,
}
use arcticwolf.Protocol.Services.{Mapping, Mountres3}
use arcticwolf.Protocol.Nfs.{
  Fattr3, Nfstime3, Setattr3args, Lookup3args, Access3args, Read3args, Write3args, Create3args,
  Mkdir3args, Symlink3args, Mknod3args, Remove3args, Rmdir3args, Rename3args, Link3args,
  Readdir3args, Readdirplus3args, Commit3args,
}

pub record Xdr : Type 0 where
  -- xdr-codec
  pub pack_u32 : ℕ → Result Bytes
  pub pack_u64 : ℕ → Result Bytes
  pub pack_i32 : ℕ → Result Bytes
  pub pack_bool : Bool → Result Bytes
  -- generated from rpc.x, portmap.x and mount.x
  pub unpack_rpc_call_msg : Bytes → Result RpcCallMsg
  pub pack_rpc_reply_msg : RpcReplyMsg → Result Bytes
  pub unpack_mapping : Bytes → Result Mapping
  pub unpack_dirpath : Bytes → Result Text
  pub pack_mountres3 : Mountres3 → Result Bytes
  -- generated from nfs.x
  pub pack_fattr3 : Fattr3 → Result Bytes
  -- of `GETATTR3res::NFS3_OK`
  pub pack_getattr3res : Fattr3 → Result Bytes
  pub pack_fhandle3 : Bytes → Result Bytes
  pub pack_filename3 : Text → Result Bytes
  pub pack_cookieverf3 : Bytes → Result Bytes
  pub pack_nfstime3 : Nfstime3 → Result Bytes
  -- GETATTR, FSSTAT, FSINFO, PATHCONF and READLINK take a file handle alone.
  pub unpack_fhandle3 : Bytes → Result Bytes
  pub unpack_setattr3args : Bytes → Result Setattr3args
  pub unpack_lookup3args : Bytes → Result Lookup3args
  pub unpack_access3args : Bytes → Result Access3args
  pub unpack_read3args : Bytes → Result Read3args
  pub unpack_write3args : Bytes → Result Write3args
  pub unpack_create3args : Bytes → Result Create3args
  pub unpack_mkdir3args : Bytes → Result Mkdir3args
  pub unpack_symlink3args : Bytes → Result Symlink3args
  pub unpack_mknod3args : Bytes → Result Mknod3args
  pub unpack_remove3args : Bytes → Result Remove3args
  pub unpack_rmdir3args : Bytes → Result Rmdir3args
  pub unpack_rename3args : Bytes → Result Rename3args
  pub unpack_link3args : Bytes → Result Link3args
  pub unpack_readdir3args : Bytes → Result Readdir3args
  pub unpack_readdirplus3args : Bytes → Result Readdirplus3args
  pub unpack_commit3args : Bytes → Result Commit3args

-- Several `pack` calls with `?` into one buffer.
abbrev pub pack_all : List (Result Bytes) → Result Bytes
pack_all [] = ok []
pack_all (r ∷ rs) = bind r (λ bytes. bind (pack_all rs) (λ rest. ok (bytes ++ rest)))

-- RFC 5531: the reply header with an empty verifier.
abbrev pub reply_header : RpcReplyMsg → Bytes
reply_header r =
    be32 r.xid
    ++ (be32 (mtype_code r.mtype)
        ++ (be32 (stat_code r.stat)
            ++ (be32 (flavor_code r.verf.flavor) ++ (be32 0 ++ be32 (accept_code r.accept_stat)))))

-- RFC 4506: a 32-bit quantity is its four bytes, most significant first.
pub record IsXdr (x : Xdr) : Type 0 where
  pub pack_u32_lem : (n : ℕ) → n < 2 ^ 32 → x.pack_u32 n ≡ ok (be32 n)
  pub pack_i32_lem : (n : ℕ) → n < 2 ^ 31 → x.pack_i32 n ≡ ok (be32 n)
  pub pack_bool_lem : (b : Bool) → x.pack_bool b ≡ ok (be32 (if b then 1 else 0))
  pub pack_rpc_reply_msg_lem :
      (r : RpcReplyMsg)
      → r.xid < 2 ^ 32
      → r.verf.body ≡ []
      → x.pack_rpc_reply_msg r ≡ ok (reply_header r)
