-- ===== src/Fsal/Local/Backend.antt =====
-- `LocalFilesystem::new`, `BackendConfig` of src/fsal/mod.rs, and the local filesystem as a backend.
use arcticwolf.Base.{not, Option, none, some, Result, ok, err, bind, anyhow, context, if◌then◌else◌}
use arcticwolf.Base.Text.{codes}
use arcticwolf.Fsal.FilePath.{FilePath}
use arcticwolf.Fsal.Os.{Os}
use arcticwolf.Fsal.Filesystem.{Filesystem}
use arcticwolf.Fsal.Handle
use arcticwolf.Fsal.Local.{Local, about}
use arcticwolf.Fsal.Local.Operations

pub data BackendType : Type 0 where
  local s3 ceph memory : BackendType

-- The S3 and Ceph settings, which nothing reads, are left out.
pub record BackendConfig : Type 0 where
  pub backend_type : BackendType
  pub local_root : Option FilePath

unfoldable pub local_config : FilePath → BackendConfig
local_config root = record { backend_type = local; local_root = some root }

module _ (O : Os) where
  unfoldable pub new : FilePath → O.State → Result (Local O)
  new root disk =
      bind (context (about O "Failed to canonicalize root path" root) (O.canonicalize disk root))
        λ root_path.
          bind (context (about O "Failed to stat root path" root_path) (O.metadata disk root_path))
            λ metadata.
              if not metadata.file_type.is_dir
              then err (anyhow (about O "Root path is not a directory" root_path))
              else (let (manager, handle) = Handle.create_handle O.path_hash root_path Handle.new in
                  ok (record {
                    root_path = root_path;
                    handle_manager = manager;
                    root_handle = handle;
                    disk = disk;
                  }))

  unfoldable pub create_filesystem : BackendConfig → O.State → Result (Local O)
  unfolding new
  create_filesystem config disk = elim config.backend_type [
    | local ↦ elim config.local_root [
      | none ↦ err (anyhow (codes "Local root path not configured"))
      | some root ↦ new root disk
    ]
    | s3 ↦ err (anyhow (codes "S3 backend not yet implemented"))
    | ceph ↦ err (anyhow (codes "Ceph backend not yet implemented"))
    | memory ↦ err (anyhow (codes "Memory backend not yet implemented"))
  ]

  -- `impl Filesystem for LocalFilesystem`
  abbrev pub local_filesystem : Filesystem
  local_filesystem = record {
    State = Local O;
    root_handle = λ l. l.root_handle;
    lookup = Operations.lookup O;
    getattr = Operations.getattr O;
    read = Operations.read O;
    readdir = Operations.readdir O;
    write = Operations.write O;
    setattr_size = Operations.setattr_size O;
    setattr_mode = Operations.setattr_mode O;
    setattr_owner = Operations.setattr_owner O;
    create = Operations.create O;
    remove = Operations.remove O;
    mkdir = Operations.mkdir O;
    rmdir = Operations.rmdir O;
    rename = Operations.rename O;
    symlink = Operations.symlink O;
    readlink = Operations.readlink O;
    link = Operations.link O;
    commit = Operations.commit O;
    mknod = Operations.mknod O;
  }
