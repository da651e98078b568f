-- ===== src/Rpc/Server/Kept.antt =====
-- What the calls of the backend keep, a connection of src/rpc/server.rs keeps: whatever arrives on
-- it, the files are reached through the backend alone.
use arcticwolf.Base.{
  ℕ, zero, suc, true, false, not, [], ◌++◌, length, ◌==◌, leb, inl, inr, Result-cases, Option-cases,
  Bool-cases,
}
use arcticwolf.Base.Kept.{Kept, kept, Kept-then, Kept-if}
use arcticwolf.Base.Text.{Bytes}
use arcticwolf.Fsal.Filesystem.{Filesystem}
use arcticwolf.Protocol.Rpc.{RpcCallMsg}
use arcticwolf.Protocol.Xdr.{Xdr}
use arcticwolf.Mount.{
  null_handle, mnt_handle, umnt_handle, handle_mount_call, create_mount_ok, deserialize_dirpath,
  serialize_mountres3,
}
use arcticwolf.Nfs.Kept.{IsKept}
use arcticwolf.Nfs.Kept.Dispatch.{dispatch-Kept}
use arcticwolf.Rpc.Message.{
  deserialize_call, create_null_reply, serialize_reply, create_prog_unavail_reply,
}
use arcticwolf.Rpc.Server.{
  word_of, args_of, Shared, route, handle_rpc_message, respond, read_fragment, connection_loop,
  handle_connection,
}
use arcticwolf.Rpc.Server.Termination.{Read-cases}

module _ (x : Xdr) (F : Filesystem) {P : F.State → Type 0} (k : IsKept F P) where
  module _ {s : F.State} (p : P s) (call : RpcCallMsg) (args : Bytes) where
    mnt-Kept : Kept P (mnt_handle x F call args s)
    unfolding mnt_handle
    mnt-Kept = Kept-then (deserialize_dirpath x args) _ p λ path.
        Kept-then (serialize_reply x (create_null_reply call.xid)) _ p λ header.
          Kept-then (serialize_mountres3 x (create_mount_ok (F.root_handle s))) _ p
            λ mount_data. kept p

    umnt-Kept : Kept P (umnt_handle x F call args s)
    unfolding umnt_handle
    umnt-Kept = elim (Result-cases (deserialize_dirpath x args)) [
      | inl (t, h) ↦ rw (h, umnt_handle) (kept p)
      | inr (e, h) ↦ rw (h, umnt_handle) (kept p)
    ]

    mount-Kept : Kept P (handle_mount_call x F call args s)
    unfolding handle_mount_call null_handle
    mount-Kept = Kept-if (not (call.prog == 100005)) _ _ (kept p) (
        Kept-if (not (call.vers == 3)) _ _ (kept p) (
          Kept-if (call.proc == 0) _ _ (kept p) (
            Kept-if (call.proc == 1) _ _ mnt-Kept (
              Kept-if (call.proc == 3) _ _ umnt-Kept (
                Kept-if (call.proc == 2) _ _ (kept p) (
                  Kept-if (call.proc == 4) _ _ (kept p)
                    (Kept-if (call.proc == 5) _ _ (kept p) (kept p))))))))

  -- The property of the files, of the objects that the connections share.
  abbrev pub OfFiles : Shared x F → Type 0
  OfFiles sh = P sh.files

  route-Kept :
      (call : RpcCallMsg) (args : Bytes) (sh : Shared x F)
      → OfFiles sh
      → Kept OfFiles (route x F call args sh)
  unfolding route
  route-Kept call args sh p = Kept-if (call.prog == 100000) _ _ (kept p) (
      Kept-if (call.prog == 100005) _ _ (kept (mount-Kept p call args).state)
        (Kept-if (call.prog == 100003) _ _ (kept (dispatch-Kept x F k p call args).state) (kept p)))

  message-Kept :
      (bytes : Bytes) (sh : Shared x F)
      → OfFiles sh
      → Kept OfFiles (handle_rpc_message x F bytes sh)
  unfolding handle_rpc_message
  message-Kept bytes sh p =
      Kept-then (deserialize_call x bytes) _ p
        λ call. Kept-then (args_of bytes) _ p λ args. route-Kept call args sh p

  pub respond-Kept :
      (bytes : Bytes) (sh : Shared x F) → OfFiles sh → OfFiles (respond x F bytes sh).0
  unfolding respond
  respond-Kept bytes sh p =
      let q = (message-Kept bytes sh p).state in
      elim (Result-cases (handle_rpc_message x F bytes sh).1) [
        | inl (r, h) ↦ rw (h, respond) q
        | inr (e, h) ↦ elim (Bool-cases (leb 4 (length bytes))) [
          | inr short ↦ rw (h, respond) (rw (short, respond) q)
          | inl long ↦ elim (Result-cases (create_prog_unavail_reply x (word_of bytes))) [
            | inl (r, h') ↦ rw (h, respond) (rw (long, respond) (rw (h', respond) q))
            | inr (e', h') ↦ rw (h, respond) (rw (long, respond) (rw (h', respond) q))
          ]
        ]
      ]

  loop-Kept :
      (fuel : ℕ) (input buffer : Bytes) (sh : Shared x F)
      → OfFiles sh
      → OfFiles (connection_loop x F fuel input buffer sh).shared
  unfolding connection_loop
  loop-Kept zero input buffer sh p = p
  loop-Kept (suc fuel) input buffer sh p = elim (Read-cases (read_fragment input)) [
    | inl e ↦ rw (e, connection_loop) p
    | inr (inl e) ↦ rw (e, connection_loop) p
    | inr (inr (false, bytes, rest, e)) ↦
        rw (e, connection_loop) (loop-Kept fuel rest (buffer ++ bytes) sh p)
    | inr (inr (true, bytes, rest, e)) ↦
        let q = respond-Kept (buffer ++ bytes) sh p in
        elim (Option-cases (respond x F (buffer ++ bytes) sh).1) [
          | inl h ↦
              rw (e, connection_loop)
                (rw (h, connection_loop) (loop-Kept fuel rest (buffer ++ bytes) _ q))
          | inr (r, h) ↦
              rw (e, connection_loop) (rw (h, connection_loop) (loop-Kept fuel rest [] _ q))
        ]
  ]

  pub handle_connection-Kept :
      (input : Bytes) (sh : Shared x F)
      → OfFiles sh
      → OfFiles (handle_connection x F input sh).shared
  unfolding handle_connection
  handle_connection-Kept input sh p = loop-Kept (suc (length input)) input [] sh p
