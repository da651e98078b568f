-- ===== src/Tests/Streams.antt =====
-- Connections that carry a few messages.
use arcticwolf.Base.{◌≡◌, ◌≢◌, refl, true, some, List, [], ◌∷◌, ◌++◌, ok, arith, anyhow}
use arcticwolf.Base.Text.{Bytes, codes}
use arcticwolf.Base.Words.{be32, of_be32}
use arcticwolf.Portmap.Registry.{new}
use arcticwolf.Rpc.Server.{
  handle_rpc_message, skip_auth, word_of, args_of, Shared, respond, read_fragment, got, closed,
  out_of_fuel, connection_loop, handle_connection,
}
use arcticwolf.Rpc.Server.Record.{fragment, read_fragment-fragment}
use arcticwolf.Rpc.Server.Header.{auth_bytes, args_of_lem}
use arcticwolf.Rpc.Server.Stream.{
  Message, stream, Fit, HasXid, respond_all, respond-answers, handle_connection-stream,
}
use arcticwolf.Portmap.Handlers.{handle_portmap_call, null_handle}
use arcticwolf.Rpc.Server.Answers.{IsAnswer, respond-IsAnswer}
use arcticwolf.Protocol.Rpc.{success}
use arcticwolf.Protocol.Xdr.{reply_header}
use arcticwolf.Rpc.Message.{accepted_reply, deserialize_call, serialize_reply, create_null_reply}
use arcticwolf.Rpc.Server.Termination.{handle_connection_terminates}
use arcticwolf.Rpc.Server.Leftover.{connection_loop_leftover}
use arcticwolf.Tests.Samples.{sample_xdr, sample_xdr-IsXdr, unpack_call_xid, one_file}

abbrev shared : Shared sample_xdr one_file
shared = record { registry = new; files = 0 }

abbrev header : Bytes
header = be32 7 ++ (be32 0 ++ (be32 2 ++ (be32 100000 ++ (be32 2 ++ be32 0))))

-- A NULL call of the portmapper in two fragments, and an unknown program in one.
abbrev messages : List Message
messages =
    record { firsts = header ∷ []; final = auth_bytes 0 [] ++ auth_bytes 0 [] }
    ∷ record {
      firsts = [];
      final = be32 8 ++ (be32 0 ++ (be32 2 ++ (be32 5 ++ (be32 1 ++ be32 0))));
    }
    ∷ []

messages-Fit : Fit messages
unfolding be32 auth_bytes
messages-Fit = ((omega arith, tt), omega arith, (tt, omega arith, tt))

messages-HasXid : HasXid sample_xdr one_file messages
unfolding be32 auth_bytes word_of of_be32
messages-HasXid = (omega arith, omega arith, (omega arith, omega arith, tt))

handle_connection-stream_example :
    handle_connection sample_xdr one_file (stream messages) shared ≡ record {
      shared = (respond_all sample_xdr one_file messages shared).0;
      writes = (respond_all sample_xdr one_file messages shared).1;
      ended = closed;
    }
handle_connection-stream_example =
    handle_connection-stream sample_xdr one_file sample_xdr-IsXdr messages shared messages-Fit
      messages-HasXid

handle_connection_terminates_example :
    (handle_connection sample_xdr one_file (128 ∷ 0 ∷ 0 ∷ 9 ∷ 1 ∷ []) shared).ended ≢ out_of_fuel
handle_connection_terminates_example =
    handle_connection_terminates sample_xdr one_file (128 ∷ 0 ∷ 0 ∷ 9 ∷ 1 ∷ []) shared

respond-answers_example :
    (r : Bytes) × ((respond sample_xdr one_file (0 ∷ 0 ∷ 0 ∷ 9 ∷ []) shared).1 ≡ some r)
unfolding word_of of_be32
respond-answers_example =
    respond-answers sample_xdr one_file sample_xdr-IsXdr (0 ∷ 0 ∷ 0 ∷ 9 ∷ []) shared (omega arith)
      (omega arith)

args_of_lem_example :
    args_of (header ++ (auth_bytes 1 (5 ∷ 6 ∷ []) ++ (auth_bytes 0 [] ++ (9 ∷ 9 ∷ []))))
    ≡ ok (9 ∷ 9 ∷ [])
unfolding be32
args_of_lem_example =
    args_of_lem header 1 0 (5 ∷ 6 ∷ []) [] (9 ∷ 9 ∷ []) (omega arith) (omega arith) (omega arith)

read_fragment-fragment_example :
    read_fragment (fragment 1 (5 ∷ 6 ∷ []) ++ (7 ∷ [])) ≡ got true (5 ∷ 6 ∷ []) (7 ∷ [])
read_fragment-fragment_example = read_fragment-fragment true (5 ∷ 6 ∷ []) (7 ∷ []) (omega arith)

connection_loop_leftover_example :
    connection_loop sample_xdr one_file 100
      (fragment 1 (5 ∷ 6 ∷ []) ++ (fragment 1 header ++ []))
      []
      shared
    ≡ connection_loop sample_xdr one_file 99 (fragment 1 ((5 ∷ 6 ∷ []) ++ header) ++ []) [] shared
unfolding be32
connection_loop_leftover_example =
    connection_loop_leftover sample_xdr one_file 98 (5 ∷ 6 ∷ []) header [] shared
      (anyhow (codes "short call")) (omega arith) (omega arith) refl

abbrev null_call : Bytes
null_call = header ++ (auth_bytes 0 [] ++ auth_bytes 0 [])

abbrev null_reply : Bytes
null_reply = reply_header (accepted_reply 7 success)

respond-null_call : (respond sample_xdr one_file null_call shared).1 ≡ some null_reply
unfolding respond handle_rpc_message be32 deserialize_call auth_bytes args_of skip_auth
    handle_portmap_call null_handle serialize_reply create_null_reply
respond-null_call = refl

respond-IsAnswer_example : IsAnswer sample_xdr sample_xdr-IsXdr one_file 7 null_reply
unfolding word_of of_be32 be32 auth_bytes
respond-IsAnswer_example =
    respond-IsAnswer sample_xdr sample_xdr-IsXdr one_file null_call shared null_reply
      (unpack_call_xid null_call) (omega arith) respond-null_call
