-- ===== src/Rpc/Server/Termination.antt =====
-- The fuel of the loop of `handle_connection` (src/rpc/server.rs).
use arcticwolf.Base.{
  ℕ, zero, suc, ◌<◌, ◌≡◌, ◌≢◌, refl, ◌⊎◌, inl, inr, Bool, true, false, [], ◌++◌, length,
  length-drop, drop, ◌%◌, ◌^◌, arith, Option-cases,
}
use arcticwolf.Base.Text.{Bytes}
use arcticwolf.Fsal.Filesystem.{Filesystem}
use arcticwolf.Protocol.Xdr.{Xdr}
use arcticwolf.Rpc.Server.{
  word_of, Read, no_header, cut_short, got, read_fragment, Shared, respond, out_of_fuel,
  connection_loop, handle_connection,
}

pub Read-cases :
    (r : Read)
    → (r ≡ no_header)
      ⊎ (r ≡ cut_short)
      ⊎ ((last : Bool) × (bytes : Bytes) × (rest : Bytes) × (r ≡ got last bytes rest))
Read-cases no_header = inl refl
Read-cases cut_short = inr (inl refl)
Read-cases (got last bytes rest) = inr (inr (last, bytes, rest, refl))

shrinks :
    (input : Bytes) (last : Bool) (bytes rest : Bytes)
    → read_fragment input ≡ got last bytes rest
    → length rest < length input
unfolding read_fragment
shrinks input last bytes rest e =
    ground (arith, length-drop 4 input, length-drop (word_of input % 2 ^ 31) (drop 4 input))

module _ (x : Xdr) (F : Filesystem) where
  loop_terminates :
      (fuel : ℕ) (input buffer : Bytes) (s : Shared x F)
      → length input < fuel
      → (connection_loop x F fuel input buffer s).ended ≢ out_of_fuel
  unfolding connection_loop
  loop_terminates zero input buffer s enough = absurd (omega arith)
  loop_terminates (suc fuel) input buffer s enough = elim (Read-cases (read_fragment input)) [
    | inl e ↦ rw (e, connection_loop) (λ h. absurd (cc))
    | inr (inl e) ↦ rw (e, connection_loop) (λ h. absurd (cc))
    | inr (inr (false, bytes, rest, e)) ↦
        let less = shrinks input false bytes rest e in
        rw (e, connection_loop) (loop_terminates fuel rest (buffer ++ bytes) s (omega arith))
    | inr (inr (true, bytes, rest, e)) ↦
        let less = shrinks input true bytes rest e in
        let (s', answered) = respond x F (buffer ++ bytes) s in
        elim (Option-cases (respond x F (buffer ++ bytes) s).1) [
          | inl h ↦
              rw (e, connection_loop)
                (rw (h, connection_loop)
                  (loop_terminates fuel rest (buffer ++ bytes) _ (omega arith)))
          | inr (r, h) ↦
              rw (e, connection_loop)
                (rw (h, connection_loop) (loop_terminates fuel rest [] _ (omega arith)))
        ]
  ]

  -- On every sequence of bytes the loop comes to the end of the connection: the bound on its
  -- rounds, one more than the number of bytes, is never what stops it.
  pub handle_connection_terminates :
      (input : Bytes) (s : Shared x F) → (handle_connection x F input s).ended ≢ out_of_fuel
  unfolding handle_connection
  handle_connection_terminates input s =
      loop_terminates (suc (length input)) input [] s (omega arith)
