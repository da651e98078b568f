-- ===== src/Main.antt =====
-- `main` of src/main.rs up to `server.run()`: the server over the export root, with its services
-- registered.
use arcticwolf.Base.{Result, ok, bind}
use arcticwolf.Base.Text.{codes}
use arcticwolf.Fsal.FilePath.{FilePath}
use arcticwolf.Fsal.Os.{Os}
use arcticwolf.Fsal.Local.Backend.{local_config, create_filesystem, local_filesystem}
use arcticwolf.Portmap.Registry.{new, register_services}
use arcticwolf.Protocol.Xdr.{Xdr}
use arcticwolf.Rpc.Server.Accept.{RpcServer}

abbrev pub export_path : FilePath
export_path = record { os_str = codes "/tmp/nfs_exports" }

unfoldable pub main_server :
    (O : Os) (x : Xdr) → O.State → Result (RpcServer x (local_filesystem O))
main_server O x disk = bind (create_filesystem O (local_config export_path) disk) λ filesystem.
    ok (record {
      addr = codes "0.0.0.0:4000";
      shared = record { registry = register_services 4000 new; files = filesystem };
    })
