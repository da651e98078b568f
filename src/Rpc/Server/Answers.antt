-- ===== src/Rpc/Server/Answers.antt =====
-- The header and the transaction id of responses (`handle_rpc_message` and `handle_connection` of
-- src/rpc/server.rs).
use arcticwolf.Base.{
  ℕ, ◌^◌, ◌<◌, ◌≡◌, refl, subst, ◌⊎◌, inl, inr, not, some, Result, ok, Result-cases, ◌==◌, arith,
}
use arcticwolf.Base.Returns.{Returns, Returns-fail, Returns-if, Returns-then}
use arcticwolf.Base.Text.{Bytes}
use arcticwolf.Fsal.Filesystem.{Filesystem}
use arcticwolf.Protocol.Rpc.{RpcCallMsg, prog_unavail}
use arcticwolf.Protocol.Xdr.{Xdr, IsXdr, reply_header}
use arcticwolf.Rpc.Message.{accepted_reply, deserialize_call, create_prog_unavail_reply}
use arcticwolf.Portmap.Registry.{Registry}
use arcticwolf.Portmap.Handlers.{
  deserialize_mapping, null_handle, set_handle, unset_handle, getport_handle, handle_portmap_call,
}
use arcticwolf.Mount
use arcticwolf.Mount.{
  handle_mount_call, mnt_handle, umnt_handle, deserialize_dirpath, serialize_mountres3,
  create_mount_ok,
}
use arcticwolf.Nfs.Replies.{IsReply, Replies, replies_null, replies_data}
use arcticwolf.Nfs.Replies.Dispatch.{dispatch_replies}
use arcticwolf.Rpc.Server.{word_of, args_of, Shared, route, handle_rpc_message, respond}

module _ (x : Xdr) (lawful : IsXdr x) where
  portmap_replies :
      (call : RpcCallMsg) (args : Bytes) (r : Registry)
      → call.xid < 2 ^ 32
      → Replies call.xid (handle_portmap_call x call args r)
  unfolding handle_portmap_call null_handle set_handle unset_handle getport_handle
  portmap_replies call args r small =
      Returns-if (not (call.prog == 100000)) _ _ r (Returns-fail r _) (
        Returns-if (not (call.vers == 2)) _ _ r (Returns-fail r _) (
          Returns-if (call.proc == 0) _ _ r (replies_null x lawful small r) (
            Returns-if (call.proc == 1) _ _ r
              (Returns-then r (deserialize_mapping x args) _ λ m. replies_data x lawful small _ _)
              (Returns-if (call.proc == 2) _ _ r
                (Returns-then r (deserialize_mapping x args) _ λ m. replies_data x lawful small _ _)
                (Returns-if (call.proc == 3) _ _ r
                  (Returns-then r (deserialize_mapping x args) _
                    λ m. replies_data x lawful small _ _)
                  (Returns-if (call.proc == 4) _ _ r (Returns-fail r _)
                    (Returns-if (call.proc == 5) _ _ r (Returns-fail r _) (Returns-fail r _))))))))

  module _ (F : Filesystem) where
    umnt_replies :
        (call : RpcCallMsg) (args : Bytes) (s : F.State)
        → call.xid < 2 ^ 32
        → Replies call.xid (umnt_handle x F call args s)
    unfolding umnt_handle
    umnt_replies call args s small = elim (Result-cases (deserialize_dirpath x args)) [
      | inl (path, h) ↦ rw (h, umnt_handle) (replies_null x lawful small s)
      | inr (e, h) ↦ rw (h, umnt_handle) (replies_null x lawful small s)
    ]

    mount_replies :
        (call : RpcCallMsg) (args : Bytes) (s : F.State)
        → call.xid < 2 ^ 32
        → Replies call.xid (handle_mount_call x F call args s)
    unfolding handle_mount_call mnt_handle Mount.null_handle
    mount_replies call args s small =
        Returns-if (not (call.prog == 100005)) _ _ s (Returns-fail s _) (
          Returns-if (not (call.vers == 3)) _ _ s (Returns-fail s _) (
            Returns-if (call.proc == 0) _ _ s (replies_null x lawful small s) (
              Returns-if (call.proc == 1) _ _ s
                (Returns-then s (deserialize_dirpath x args) _ λ m. replies_data x lawful small _ _)
                (Returns-if (call.proc == 3) _ _ s (umnt_replies call args s small) (
                  Returns-if (call.proc == 2) _ _ s (Returns-fail s _) (
                    Returns-if (call.proc == 4) _ _ s (Returns-fail s _) (
                      Returns-if (call.proc == 5) _ _ s (Returns-fail s _) (Returns-fail s _))))))))

    -- A result for one of the objects is a result for both.
    widen :
        {S T : Type 0} {P : Bytes → Type 0} {t : S × Result Bytes} (s' : T)
        → Returns P t
        → Returns {S = T} P (s', t.1)
    widen s' h = record { result_of = h.result_of }

    route_replies :
        (call : RpcCallMsg) (args : Bytes) (s : Shared x F)
        → call.xid < 2 ^ 32
        → Replies call.xid (route x F call args s)
    unfolding route
    route_replies call args s small =
        Returns-if (call.prog == 100000) _ _ s
          (widen _ (portmap_replies call args s.registry small))
          (Returns-if (call.prog == 100005) _ _ s (widen _ (mount_replies call args s.files small))
            (Returns-if (call.prog == 100003) _ _ s
              (record {
                result_of = λ bytes e. dispatch_replies x lawful F call args s.files bytes small e;
              })
              (Returns-fail s _)))

    handled_replies :
        (b : Bytes) (s : Shared x F)
        → ((call : RpcCallMsg) → x.unpack_rpc_call_msg b ≡ ok call → call.xid ≡ word_of b)
        → word_of b < 2 ^ 32
        → Replies (word_of b) (handle_rpc_message x F b s)
    unfolding handle_rpc_message deserialize_call
    handled_replies b s xid_first small = elim (Result-cases (x.unpack_rpc_call_msg b)) [
      | inr (e, h) ↦ rw h (Returns-fail s e)
      | inl (call, h) ↦
          let same = xid_first call h in
          rw h (
            Returns-then s (args_of b) _ λ args.
              subst (λ n. Replies n (route x F call args s)) same
                (route_replies call args s (omega (arith, same))))
    ]

    -- A success reply under the transaction id, or the reply that the program is unavailable.
    abbrev pub IsAnswer : ℕ → Bytes → Type 0
    IsAnswer xid r = IsReply xid r ⊎ (r ≡ reply_header (accepted_reply xid prog_unavail))

    -- Every response to a message carries the transaction id of that message: it is a success
    -- reply with a body, from any procedure of the three programs, or the reply that the program
    -- is unavailable. The codec follows its laws and reads the transaction id from the first word
    -- of the message, and that is a word.
    pub respond-IsAnswer :
        (b : Bytes) (s : Shared x F) (r : Bytes)
        → ((call : RpcCallMsg) → x.unpack_rpc_call_msg b ≡ ok call → call.xid ≡ word_of b)
        → word_of b < 2 ^ 32
        → (respond x F b s).1 ≡ some r
        → IsAnswer (word_of b) r
    unfolding respond create_prog_unavail_reply accepted_reply
    respond-IsAnswer b s r xid_first small e = elim (Result-cases (handle_rpc_message x F b s).1) [
      | inl (bytes, h) ↦
          let same : bytes ≡ r = ground (arith, e, h) in
          inl (
            subst (λ t. IsReply (word_of b) t) same
              ((handled_replies b s xid_first small).result_of bytes h))
      | inr (f, h) ↦ inr (
          ground (
            arith,
            e,
            h,
            lawful.pack_rpc_reply_msg_lem (accepted_reply (word_of b) prog_unavail) small refl,
          ))
    ]
