-- ===== src/Rpc/Server.antt =====
-- src/rpc/server.rs: record marking on one TCP connection, and the routing of messages. The socket
-- is the bytes that arrive on it until it is closed and the writes made to it, which succeed.
pub mod Record
pub mod Header
pub mod Stream
pub mod Termination
pub mod Leftover
pub mod Answers
pub mod Kept
pub mod Accept
pub mod Lasting
pub mod Reuse
pub mod Results
use arcticwolf.Base.{
  ℕ, zero, suc, ◌+◌, ◌*◌, ◌/◌, ◌%◌, ◌^◌, Bool, true, false, not, Option, none, some, List, [], ◌∷◌,
  ◌++◌, length, take, drop, Result, ok, err, M, pure, fail, lift, ◌>>=◌, anyhow, ltb, leb, ◌==◌,
  if◌then◌else◌,
}
use arcticwolf.Base.Text.{Bytes, codes}
use arcticwolf.Base.Words.{be32, of_be32}
use arcticwolf.Fsal.Filesystem.{Filesystem}
use arcticwolf.Protocol.Rpc.{RpcCallMsg}
use arcticwolf.Protocol.Xdr.{Xdr}
use arcticwolf.Portmap.Registry.{Registry}
use arcticwolf.Portmap.Handlers.{handle_portmap_call}
use arcticwolf.Mount.{handle_mount_call}
use arcticwolf.Nfs.Dispatch.{dispatch}
use arcticwolf.Rpc.Message.{deserialize_call, create_prog_unavail_reply}

-- `u32::from_be_bytes` of the first four bytes, which are there where it is called.
unfoldable pub word_of : Bytes → ℕ
unfolding of_be32
word_of (a ∷ b ∷ c ∷ d ∷ _) = of_be32 a b c d
word_of _ = 0

-- `(n + 3) & !3`
unfoldable pub round_up : ℕ → ℕ
round_up n = (n + 3) / 4 * 4

-- Where the `opaque_auth` at an offset ends, if its header is there.
unfoldable pub skip_auth : Bytes → ℕ → Option ℕ
unfolding word_of round_up
skip_auth contents offset =
    if ltb (length contents) (offset + 8)
    then none
    else some (offset + (8 + round_up (word_of (drop (offset + 4) contents))))

-- The procedure's arguments: what follows 24 bytes, the credential and the verifier.
unfoldable pub args_of : Bytes → Result Bytes
args_of contents = elim (skip_auth contents 24) [
  | none ↦ err (anyhow (codes "RPC message too short for credential header"))
  | some verf_offset ↦ elim (skip_auth contents verf_offset) [
    | none ↦ err (anyhow (codes "RPC message too short for verifier header"))
    | some args_offset ↦
        if ltb args_offset (length contents) then ok (drop args_offset contents) else ok []
  ]
]

module _ (x : Xdr) (F : Filesystem) where
  -- The objects that all connections share.
  pub record Shared : Type 0 where
    pub registry : Registry
    pub files : F.State

  abbrev pub on_registry : {A : Type 0} → M Registry A → M Shared A
  on_registry m s = let (r, a) = m s.registry in (record s { registry = r }, a)

  abbrev pub on_files : {A : Type 0} → M F.State A → M Shared A
  on_files m s = let (t, a) = m s.files in (record s { files = t }, a)

  -- The `match` on the program.
  unfoldable pub route : RpcCallMsg → Bytes → M Shared Bytes
  route call args_data =
      if call.prog == 100000
      then on_registry (handle_portmap_call x call args_data)
      else if call.prog == 100005
      then on_files (handle_mount_call x F call args_data)
      else if call.prog == 100003
      then on_files (dispatch x F call args_data)
      else fail (anyhow (codes "Unknown program number"))

  unfoldable pub handle_rpc_message : Bytes → M Shared Bytes
  unfolding route
  handle_rpc_message contents = do
    call ← lift (deserialize_call x contents)
    args_data ← lift (args_of contents)
    route call args_data

  -- The reply to a complete message, or none where the loop goes on without one.
  unfoldable pub respond : Bytes → Shared → Shared × Option Bytes
  respond buffer s =
      let (s', r) = handle_rpc_message buffer s in
      elim r [
        | ok response ↦ (s', some response)
        | err e ↦
            if leb 4 (length buffer)
            then elim (create_prog_unavail_reply x (word_of buffer)) [
              | ok error_response ↦ (s', some error_response)
              | err e' ↦ (s', none)
            ]
            else (s', none)
      ]

-- `response_len | 0x80000000` of a `u32`, and the response behind it.
unfoldable pub with_record_mark : Bytes → Bytes
unfolding be32
with_record_mark response = be32 (length response % 2 ^ 32 % 2 ^ 31 + 2 ^ 31) ++ response

-- What the two `read_exact` of a round come to: the connection ends before a header, it ends within
-- a fragment, or a fragment is read, with its last-fragment bit and the bytes behind it.
pub data Read : Type 0 where
  no_header cut_short : Read
  got : Bool → Bytes → Bytes → Read

unfoldable pub read_fragment : Bytes → Read
read_fragment input =
    let header = word_of input in
    let rest = drop 4 input in
    let fragment_len = header % 2 ^ 31 in
    if ltb (length input) 4
    then no_header
    else if ltb (length rest) fragment_len
    then cut_short
    else got (not (header / 2 ^ 31 % 2 == 0)) (take fragment_len rest) (drop fragment_len rest)

-- How the loop of a connection ends: the peer closed it between two records, or within one.
pub data End : Type 0 where
  closed broken out_of_fuel : End

module _ (x : Xdr) (F : Filesystem) where
  pub record Outcome : Type 0 where
    pub shared : Shared x F
    pub writes : List Bytes
    pub ended : End

  abbrev pub write_first : Bytes → Outcome → Outcome
  write_first bytes o = record o { writes = bytes ∷ o.writes }

  -- The loop, on fuel, with the bytes still to come and the fragments read so far. The buffer is
  -- cleared only after a response.
  unfoldable pub connection_loop : ℕ → Bytes → Bytes → Shared x F → Outcome
  connection_loop zero input buffer s = record { shared = s; writes = []; ended = out_of_fuel }
  connection_loop (suc fuel) input buffer s = elim (read_fragment input) [
    | no_header ↦ record { shared = s; writes = []; ended = closed }
    | cut_short ↦ record { shared = s; writes = []; ended = broken }
    | got false fragment input' ↦ connection_loop fuel input' (buffer ++ fragment) s
    | got true fragment input' ↦
        let (s', answered) = respond x F (buffer ++ fragment) s in
        elim answered [
          | none ↦ connection_loop fuel input' (buffer ++ fragment) s'
          | some response ↦
              write_first (with_record_mark response) (connection_loop fuel input' [] s')
        ]
  ]

  -- Each round reads at least the four bytes of a header.
  unfoldable pub handle_connection : Bytes → Shared x F → Outcome
  handle_connection input s = connection_loop (suc (length input)) input [] s
