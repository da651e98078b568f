-- ===== src/Nfs/Replies.antt =====
-- The header and the transaction id of what the NFS procedures answer: the rules by which the
-- handlers are read, one for each way in which a handler goes on.
pub mod Query
pub mod Change
pub mod Names
pub mod Listing
pub mod Dispatch
use arcticwolf.Base.{
  ℕ, ◌^◌, ◌<◌, ◌≡◌, refl, Bool, true, false, List, [], ◌++◌, append-nil, Result, ok, err, Error,
  bind, then_on, if◌then◌else◌, arith,
}
use arcticwolf.Base.Returns.{Returns}
use arcticwolf.Base.Text.{Bytes}
use arcticwolf.Protocol.Rpc.{success}
use arcticwolf.Protocol.Xdr.{Xdr, IsXdr, reply_header, pack_all}
use arcticwolf.Rpc.Message.{
  accepted_reply, create_success_reply_with_data, create_null_reply, serialize_reply,
}
use arcticwolf.Nfs.Wire.{reply_with}

-- The header of a success reply, and a body behind it.
unfoldable pub IsReply : ℕ → Bytes → Type 0
unfolding accepted_reply
IsReply xid bytes = (body : Bytes) × (bytes ≡ reply_header (accepted_reply xid success) ++ body)

-- What a call comes to: an error, or a success reply.
abbrev pub Replies : {S : Type 0} → ℕ → S × Result Bytes → Type 0
Replies xid t = Returns (IsReply xid) t

module _ (x : Xdr) (lawful : IsXdr x) {xid : ℕ} (small : xid < 2 ^ 32) where
  pub header_lem :
      serialize_reply x (create_null_reply xid) ≡ ok (reply_header (accepted_reply xid success))
  unfolding create_null_reply serialize_reply accepted_reply
  header_lem = lawful.pack_rpc_reply_msg_lem (accepted_reply xid success) small refl

  pub replies_null :
      {S : Type 0} (s : S) → Replies {S = S} xid (s, serialize_reply x (create_null_reply xid))
  unfolding IsReply accepted_reply
  replies_null s = record {
    result_of = λ bytes e.
        ([], ground (arith, e, header_lem, append-nil (reply_header (accepted_reply xid success))));
  }

  pub replies_answer :
      {S : Type 0} (s : S) (r : Result Bytes)
      → Replies {S = S} xid (s, bind r (create_success_reply_with_data x xid))
  unfolding IsReply create_success_reply_with_data accepted_reply
  replies_answer s (ok b) = record { result_of = λ bytes e. (b, ground (arith, e, header_lem)) }
  replies_answer s (err f) = record { result_of = λ b h. absurd (cc) }

  pub replies_reply_with :
      {S : Type 0} (s : S) (parts : List (Result Bytes))
      → Replies {S = S} xid (s, reply_with x xid parts)
  unfolding reply_with
  replies_reply_with s parts = replies_answer s (pack_all parts)

  -- A header with data behind it, as the portmapper and MOUNT put their replies together.
  pub replies_data :
      {S : Type 0} (s : S) (r : Result Bytes)
      → Replies {S = S} xid (
          then_on
            (s, serialize_reply x (create_null_reply xid))
            (λ rpc_header t. then_on (t, r) (λ result_data u. (u, ok (rpc_header ++ result_data)))))
  unfolding IsReply accepted_reply
  replies_data s (ok d) = rw header_lem (record { result_of = λ bytes e. (d, ground (arith, e)) })
  replies_data s (err f) = rw header_lem (record { result_of = λ b h. absurd (cc) })
