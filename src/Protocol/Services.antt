-- ===== src/Protocol/Services.antt =====
-- The types of xdr/v3/portmap.x and xdr/v3/mount.x that the server uses.
use arcticwolf.Base.{ℕ, List}
use arcticwolf.Base.Text.{Bytes}

pub record Mapping : Type 0 where
  pub prog : ℕ
  pub vers : ℕ
  pub prot : ℕ
  pub port : ℕ

pub record Mountres3Ok : Type 0 where
  pub fhandle : Bytes
  pub auth_flavors : List ℕ

-- The union over `mountstat3`, whose other cases carry nothing.
pub data Mountres3 : Type 0 where
  mnt3_ok : Mountres3Ok → Mountres3
  default : Mountres3
