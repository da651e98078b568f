-- ===== src/Rpc/Server/Results.antt =====
-- The results that the server sends for the NFS program, from the start of `main` on: src/main.rs,
-- src/rpc/server.rs and src/nfs over the local filesystem.
use arcticwolf.Base.{◌^◌, ◌<◌, ◌≡◌, ok}
use arcticwolf.Base.Text.{Bytes}
use arcticwolf.Fsal.Os.{Os}
use arcticwolf.Fsal.Local.Backend.{local_config, local_filesystem}
use arcticwolf.Fsal.Local.Bounds.{
  IsFrugal, KeepsHandles-Kept, create_filesystem-KeepsHandles, local-IsBounded,
}
use arcticwolf.Main.{export_path, main_server}
use arcticwolf.Nfs.Dispatch.{dispatch}
use arcticwolf.Nfs.Layout.Dispatch.{FollowsRfc, dispatch-FollowsRfc}
use arcticwolf.Nfs.Layout.Parts.{IsSized}
use arcticwolf.Protocol.Rpc.{RpcCallMsg}
use arcticwolf.Protocol.Xdr.{Xdr, IsXdr}
use arcticwolf.Rpc.Server.Accept.{RpcServer, Run, listening, run-Kept}
use arcticwolf.Rpc.Server.Lasting.{State, files, main_started}

module _ (O : Os) (x : Xdr) (lawful : IsXdr x) (sized : IsSized x) (frugal : IsFrugal O) where
  -- From the start of `main` on, and whatever bytes arrive on whatever connections, which take
  -- turns message by message, what the NFS program answers to a call of one of the procedures of
  -- RFC 1813 is the header of a success reply and a result with the structure that it has there,
  -- which a reader goes over from its first byte to its last; READDIR and READDIRPLUS answer
  -- that, or a status of failure alone. The codec follows its laws and packs everything in its
  -- size, a read gives no more than it was asked for, the target of a link is shorter than 2 ^ 32
  -- bytes, and the transaction id is a word.
  pub results_follow_rfc :
      (disk : O.State) (server : RpcServer x (local_filesystem O)) (t : State O x)
      → (call : RpcCallMsg) (args bytes : Bytes) → main_server O x disk ≡ ok server
      → Run x (local_filesystem O) (listening x (local_filesystem O) server) t
      → call.xid < 2 ^ 32
      → (dispatch x (local_filesystem O) call args (files O x t)).1 ≡ ok bytes
      → FollowsRfc call.proc call.xid bytes
  results_follow_rfc disk server t call args bytes started run small answered =
      let fresh =
        create_filesystem-KeepsHandles O (local_config export_path) disk server.shared.files
          (main_started O x disk server started) in
      dispatch-FollowsRfc x lawful sized (local_filesystem O) (KeepsHandles-Kept O)
        (local-IsBounded O frugal) call args (files O x t) bytes small
        (run-Kept x (local_filesystem O) (KeepsHandles-Kept O) run fresh) answered
