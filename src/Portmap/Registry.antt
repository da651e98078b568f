-- ===== src/Portmap/Registry.antt =====
-- src/portmap/registry.rs and `register_services` of src/main.rs. `RwLock` and `Arc` leave no
-- trace: each method is one critical section.
pub mod Laws
use arcticwolf.Base.{
  ℕ, ◌≡◌, refl, Bool, true, false, ◌&&◌, Option, none, some, List, [], ◌∷◌, map, ◌==◌, arith,
}
use arcticwolf.Base.HashMap.{Eq, HashMap, get, insert, remove}
use arcticwolf.Protocol.Services.{Mapping}

-- (program, version, protocol)
abbrev pub ServiceKey : Type 0
ServiceKey = ℕ × ℕ × ℕ

abbrev pub key_eq : ServiceKey → ServiceKey → Bool
key_eq a b = a.0 == b.0 && (a.1 == b.1 && a.2 == b.2)

pub key_eq_refl : (a : ServiceKey) → key_eq a a ≡ true
key_eq_refl a = ground arith

pub key_eq_cong : (a b c : ServiceKey) → key_eq a b ≡ true → key_eq a c ≡ key_eq b c
key_eq_cong a b c h = ground arith

instance abbrev pub service_key : Eq ServiceKey
service_key = record { beq = key_eq; beq_refl = key_eq_refl; beq_cong = key_eq_cong }

pub record Registry : Type 0 where
  pub mappings : HashMap ServiceKey ℕ

unfoldable pub new : Registry
new = record { mappings = [] }

abbrev pub key_of : Mapping → ServiceKey
key_of m = (m.prog, m.vers, m.prot)

unfoldable pub set : Mapping → Registry → Registry × Bool
set m r = (record { mappings = insert r.mappings (key_of m) m.port }, true)

unfoldable pub unset : Mapping → Registry → Registry × Bool
unset m r = (
  record { mappings = remove r.mappings (key_of m) },
  elim (get r.mappings (key_of m)) [ none ↦ false | some _ ↦ true ],
)

-- `unwrap_or`
abbrev pub unwrap_or : Option ℕ → ℕ → ℕ
unwrap_or none d = d
unwrap_or (some port) d = port

unfoldable pub getport : Mapping → Registry → ℕ
getport m r = unwrap_or (get r.mappings (key_of m)) 0

-- In the order of the table, which for a `HashMap` is any.
unfoldable pub dump : Registry → List Mapping
dump r =
    map
      (λ (entry : ServiceKey × ℕ). record {
        prog = entry.0.0;
        vers = entry.0.1;
        prot = entry.0.2;
        port = entry.1;
      })
      r.mappings

abbrev pub ipproto_tcp : ℕ
ipproto_tcp = 6

abbrev service : ℕ → ℕ → ℕ → Mapping
service prog vers port = record { prog = prog; vers = vers; prot = ipproto_tcp; port = port }

-- The three calls of `register_services`; the program ignores what `set` returns.
unfoldable pub register_services : ℕ → Registry → Registry
register_services port r =
    let r1 = (set (service 100000 2 port) r).0 in
    let r2 = (set (service 100005 3 port) r1).0 in (set (service 100003 3 port) r2).0
