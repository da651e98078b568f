-- ===== src/Rpc/Server/Stream.antt =====
-- A connection against the sequence of its messages (`handle_connection` of src/rpc/server.rs).
use arcticwolf.Base.{
  ℕ, zero, suc, ◌+◌, ◌^◌, ◌≤◌, ◌<◌, ◌≡◌, refl, sym, ◌∙◌, ap, true, false, Option, none, some, List,
  [], ◌∷◌, ◌++◌, append_assoc, append-nil, length, length-append, arith, Result-cases, inl, inr,
}
use arcticwolf.Base.Text.{Bytes}
use arcticwolf.Base.Words.{be32}
use arcticwolf.Fsal.Filesystem.{Filesystem}
use arcticwolf.Protocol.Xdr.{Xdr, IsXdr, reply_header}
use arcticwolf.Protocol.Rpc.{prog_unavail}
use arcticwolf.Rpc.Message.{accepted_reply, create_prog_unavail_reply}
use arcticwolf.Rpc.Server.{
  word_of, handle_rpc_message, read_fragment, Shared, respond, with_record_mark, closed, Outcome,
  connection_loop, handle_connection, write_first,
}
use arcticwolf.Rpc.Server.Record.{fragment, read_fragment-fragment}

-- A message as a peer sends it: some fragments, and the last one.
pub record Message : Type 0 where
  pub firsts : List Bytes
  pub final : Bytes

abbrev pub concat : List Bytes → Bytes
concat [] = []
concat (b ∷ bs) = b ++ concat bs

-- What the fragments carry together.
abbrev pub payload : Message → Bytes
payload m = concat m.firsts ++ m.final

abbrev pub fragments : List Bytes → Bytes → Bytes
fragments [] rest = rest
fragments (b ∷ bs) rest = fragment 0 b ++ fragments bs rest

-- The messages on the wire.
abbrev pub stream : List Message → Bytes
stream [] = []
stream (m ∷ ms) = fragments m.firsts (fragment 1 m.final ++ stream ms)

abbrev pub AllShort : List Bytes → Type 0
AllShort [] = Unit
AllShort (b ∷ bs) = (length b < 2 ^ 31) × AllShort bs

-- A fragment's length fits its record mark.
abbrev pub Fit : List Message → Type 0
Fit [] = Unit
Fit (m ∷ ms) = AllShort m.firsts × (length m.final < 2 ^ 31) × Fit ms

length-fragment : (last : ℕ) (b : Bytes) → length (fragment last b) ≡ 4 + length b
unfolding fragment be32
length-fragment last b = omega arith

module _ (x : Xdr) (F : Filesystem) where
  -- What the loop does with a fragment, from what `respond` says of the buffer.
  abbrev pub after_fragment : ℕ → Bytes → Bytes → Shared x F × Option Bytes → Outcome x F
  after_fragment fuel buffer rest (s', none) = connection_loop x F fuel rest buffer s'
  after_fragment fuel buffer rest (s', some response) =
      write_first x F (with_record_mark response) (connection_loop x F fuel rest [] s')

  loop_first :
      (fuel : ℕ) (b rest buffer : Bytes) (s : Shared x F)
      → length b < 2 ^ 31
      → connection_loop x F (suc fuel) (fragment 0 b ++ rest) buffer s
        ≡ connection_loop x F fuel rest (buffer ++ b) s
  unfolding connection_loop
  loop_first fuel b rest buffer s h = rw (read_fragment-fragment false b rest h, connection_loop)

  pub loop_final :
      (fuel : ℕ) (b rest buffer : Bytes) (s : Shared x F)
      → length b < 2 ^ 31
      → connection_loop x F (suc fuel) (fragment 1 b ++ rest) buffer s
        ≡ after_fragment fuel (buffer ++ b) rest (respond x F (buffer ++ b) s)
  unfolding connection_loop
  loop_final fuel b rest buffer s h =
      rw (read_fragment-fragment true b rest h, connection_loop) (ground arith)

  loop_firsts :
      (bs : List Bytes) (fuel : ℕ) (rest buffer : Bytes) (s : Shared x F)
      → AllShort bs
      → length (fragments bs rest) < fuel
      → (fuel' : ℕ) × (length rest < fuel')
        × (connection_loop x F fuel (fragments bs rest) buffer s
            ≡ connection_loop x F fuel' rest (buffer ++ concat bs) s)
  loop_firsts [] fuel rest buffer s short enough =
      (fuel, enough, ap (λ b. connection_loop x F fuel rest b s) (sym (append-nil buffer)))
  loop_firsts (b ∷ bs) zero rest buffer s short enough = absurd (omega arith)
  loop_firsts (b ∷ bs) (suc fuel) rest buffer s (h, short) enough =
      let left : length (fragments bs rest) < fuel =
        omega (arith, length-append (fragment 0 b) (fragments bs rest), length-fragment 0 b) in
      let (fuel', enough', e) = loop_firsts bs fuel rest (buffer ++ b) s short left in
      (
        fuel',
        enough',
        loop_first fuel b (fragments bs rest) buffer s h
            ∙ e
            ∙ ap (λ t. connection_loop x F fuel' rest t s) (append_assoc buffer b (concat bs)),
      )

  -- Each message with the response that `respond` gives to its payload: the specification.
  abbrev pub respond_all : List Message → Shared x F → Shared x F × List Bytes
  respond_all [] s = (s, [])
  respond_all (m ∷ ms) s =
      let (s', answered) = respond x F (payload m) s in
      let (t, writes) = respond_all ms s' in
      elim answered [ none ↦ (t, writes) | some response ↦ (t, with_record_mark response ∷ writes) ]

  -- A message has its transaction id.
  abbrev pub HasXid : List Message → Type 0
  HasXid [] = Unit
  HasXid (m ∷ ms) = (4 ≤ length (payload m)) × (word_of (payload m) < 2 ^ 32) × HasXid ms

  -- A message of at least four bytes, of which the first four make a word, always gets a
  -- response, where the codec follows its laws.
  pub respond-answers :
      IsXdr x
      → (b : Bytes) (s : Shared x F) → 4 ≤ length b
      → word_of b < 2 ^ 32
      → (r : Bytes) × ((respond x F b s).1 ≡ some r)
  unfolding respond create_prog_unavail_reply accepted_reply
  respond-answers lawful b s long small = elim (Result-cases (handle_rpc_message x F b s).1) [
    | inl (r, e) ↦ (r, rw (e, respond) refl)
    | inr (e, failed) ↦
        let reply = accepted_reply (word_of b) prog_unavail in
        (reply_header reply, ground (arith, failed, lawful.pack_rpc_reply_msg_lem reply small refl))
  ]

  loop_end :
      (fuel : ℕ) (s : Shared x F)
      → connection_loop x F (suc fuel) [] [] s ≡ record { shared = s; writes = []; ended = closed }
  unfolding connection_loop read_fragment
  loop_end fuel s = refl

  abbrev served : List Message → Shared x F → Outcome x F
  served ms s = record {
    shared = (respond_all ms s).0;
    writes = (respond_all ms s).1;
    ended = closed;
  }

  -- The last fragment of a message, with the messages after it served by induction.
  loop_message :
      IsXdr x
      → (m : Message) (ms : List Message) (fuel : ℕ) (s : Shared x F) → length m.final < 2 ^ 31
      → 4 ≤ length (payload m)
      → word_of (payload m) < 2 ^ 32
      → ((k : ℕ) (t : Shared x F)
          → length (stream ms) < k
          → connection_loop x F k (stream ms) [] t ≡ served ms t)
      → length (fragment 1 m.final ++ stream ms) < fuel
      → connection_loop x F fuel (fragment 1 m.final ++ stream ms) (concat m.firsts) s
        ≡ served (m ∷ ms) s
  loop_message lawful m ms zero s fits long small later enough = absurd (omega arith)
  loop_message lawful m ms (suc fuel) s fits long small later enough =
      let (r, answered) = respond-answers lawful (payload m) s long small in
      let left : length (stream ms) < fuel =
        omega (arith, length-append (fragment 1 m.final) (stream ms), length-fragment 1 m.final) in
      let s' = (respond x F (payload m) s).0 in
      loop_final fuel m.final (stream ms) (concat m.firsts) s fits
      ∙ ground (arith, answered, later fuel s' left)

  loop_stream :
      IsXdr x
      → (ms : List Message) (fuel : ℕ) (s : Shared x F) → Fit ms
      → HasXid ms
      → length (stream ms) < fuel
      → connection_loop x F fuel (stream ms) [] s ≡ served ms s
  loop_stream lawful [] zero s fit ids enough = absurd (omega arith)
  loop_stream lawful [] (suc fuel) s fit ids enough = loop_end fuel s
  loop_stream lawful (m ∷ ms) fuel s (short, fits, fit) (long, small, ids) enough =
      let rest = fragment 1 m.final ++ stream ms in
      let (fuel', enough', e) = loop_firsts m.firsts fuel rest [] s short enough in
      e
      ∙ loop_message lawful m ms fuel' s fits long small
          (λ k t h. loop_stream lawful ms k t fit ids h) enough'

  -- Whatever fragments the messages come in, a connection that carries them writes the marked
  -- response of each message, in order, with the state passed from one to the next, and ends as
  -- closed. The codec follows its laws, each fragment is below 2 ^ 31 bytes, and each message has
  -- at least four bytes, of which the first four make a word.
  pub handle_connection-stream :
      IsXdr x
      → (ms : List Message) (s : Shared x F) → Fit ms
      → HasXid ms
      → handle_connection x F (stream ms) s
        ≡ record { shared = (respond_all ms s).0; writes = (respond_all ms s).1; ended = closed }
  unfolding handle_connection
  handle_connection-stream lawful ms s fit ids =
      loop_stream lawful ms (suc (length (stream ms))) s fit ids (omega arith)
