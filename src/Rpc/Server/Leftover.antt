-- ===== src/Rpc/Server/Leftover.antt =====
-- The buffer of `handle_connection` (src/rpc/server.rs) where a message gets no response.
use arcticwolf.Base.{
  ℕ, suc, ◌+◌, ◌^◌, ◌<◌, ◌≡◌, refl, ◌∙◌, ap, [], ◌++◌, length, length-append, none, false, err,
  Error, leb, arith, sym,
}
use arcticwolf.Base.Text.{Bytes}
use arcticwolf.Fsal.Filesystem.{Filesystem}
use arcticwolf.Protocol.Xdr.{Xdr}
use arcticwolf.Rpc.Message.{deserialize_call}
use arcticwolf.Rpc.Server.{Shared, respond, handle_rpc_message, connection_loop}
use arcticwolf.Rpc.Server.Record.{fragment}
use arcticwolf.Rpc.Server.Stream.{loop_final, after_fragment}

module _ (x : Xdr) (F : Filesystem) where
  unparsed :
      (b : Bytes) (s : Shared x F) (e : Error)
      → x.unpack_rpc_call_msg b ≡ err e
      → handle_rpc_message x F b s ≡ (s, err e)
  unfolding handle_rpc_message deserialize_call
  unparsed b s e bad = rw bad refl

  respond_short :
      (short : Bytes) (s : Shared x F) (e : Error)
      → length short < 4
      → x.unpack_rpc_call_msg short ≡ err e
      → respond x F short s ≡ (s, none)
  unfolding respond
  respond_short short s e few bad =
      let small : leb 4 (length short) ≡ false = ground arith in
      rw (unparsed short s e bad, respond)
        (rw (small, respond) (ap (λ t. (t.0, none)) (unparsed short s e bad)))

  -- A message of less than four bytes that does not parse gets no response, and is not dropped
  -- either: the loop then does on the next message what it does on the two put together, where
  -- their length is below 2 ^ 31.
  pub connection_loop_leftover :
      (fuel : ℕ) (short next rest : Bytes) (s : Shared x F) (e : Error)
      → length short < 4
      → length short + length next < 2 ^ 31
      → x.unpack_rpc_call_msg short ≡ err e
      → connection_loop x F (suc (suc fuel)) (fragment 1 short ++ (fragment 1 next ++ rest)) [] s
        ≡ connection_loop x F (suc fuel) (fragment 1 (short ++ next) ++ rest) [] s
  connection_loop_leftover fuel short next rest s e few fits bad =
      let both = length-append short next in
      loop_final x F (suc fuel) short (fragment 1 next ++ rest) [] s (omega arith)
      ∙ ap (after_fragment x F (suc fuel) short (fragment 1 next ++ rest))
          (respond_short short s e few bad)
      ∙ loop_final x F fuel next rest short s (omega arith)
      ∙ sym (loop_final x F fuel (short ++ next) rest [] s (omega arith))
