-- ===== src/Portmap/Registry/Laws.antt =====
-- The registry against a plain function from services to ports.
use arcticwolf.Base.{
  ℕ, ◌≡◌, refl, ◌∙◌, ap, ◌||◌, true, false, Option, none, some, List, [], ◌∷◌, arith, if◌then◌else◌,
}
use arcticwolf.Base.HashMap.{get, insert, get-insert, get-remove}
use arcticwolf.Protocol.Services.{Mapping}
use arcticwolf.Portmap.Registry.{
  ServiceKey, key_eq, key_eq_refl, unwrap_or, service_key, Registry, new, key_of, set, unset,
  getport, register_services, ipproto_tcp,
}

pub data Op : Type 0 where
  set_op unset_op : Mapping → Op

unfoldable pub run : List Op → Registry → Registry
run [] r = r
run (set_op m ∷ ops) r = run ops (set m r).0
run (unset_op m ∷ ops) r = run ops (unset m r).0

-- What one service's port is after the calls, from what it was: the specification.
unfoldable pub replay : List Op → ServiceKey → Option ℕ → Option ℕ
replay [] k before = before
replay (set_op m ∷ ops) k before =
    replay ops k (if key_eq (key_of m) k then some m.port else before)
replay (unset_op m ∷ ops) k before = replay ops k (if key_eq (key_of m) k then none else before)

run_refines :
    (ops : List Op) (r : Registry) (k : ServiceKey)
    → get (run ops r).mappings k ≡ replay ops k (get r.mappings k)
unfolding run replay set unset
run_refines [] r k = refl
run_refines (set_op m ∷ ops) r k =
    run_refines ops (set m r).0 k ∙ ap (replay ops k) (get-insert r.mappings (key_of m) k m.port)
run_refines (unset_op m ∷ ops) r k =
    run_refines ops (unset m r).0 k ∙ ap (replay ops k) (get-remove r.mappings (key_of m) k)

-- After any calls of `set` and `unset` on an empty registry, `getport` gives the port of the last
-- `set` of the service, and 0 if there is none or an `unset` came after it.
pub getport-run :
    (ops : List Op) (m : Mapping)
    → getport m (run ops new) ≡ unwrap_or (replay ops (key_of m) none) 0
unfolding getport new get
getport-run ops m = ap (λ o. unwrap_or o 0) (run_refines ops new (key_of m))

-- `unset` answers whether the service was registered: it says yes after a `set` and no a second
-- time. The service then has no port, and every other service keeps the one that it has.
pub unset_lem :
    (m other : Mapping) (r : Registry)
    → ((unset m (set m r).0).1 ≡ true)
      × ((unset m (unset m r).0).1 ≡ false)
      × (getport other (unset m r).0
          ≡ (if key_eq (key_of m) (key_of other) then 0 else getport other r))
unfolding getport unset set
unset_lem m other r = (
  ground (arith, get-insert r.mappings (key_of m) (key_of m) m.port, key_eq_refl (key_of m)),
  ground (arith, get-remove r.mappings (key_of m) (key_of m), key_eq_refl (key_of m)),
  ground (arith, get-remove r.mappings (key_of m) (key_of other)),
)

abbrev pub portmap_key : ServiceKey
portmap_key = (100000, 2, ipproto_tcp)

abbrev pub mount_key : ServiceKey
mount_key = (100005, 3, ipproto_tcp)

abbrev pub nfs_key : ServiceKey
nfs_key = (100003, 3, ipproto_tcp)

-- Once the services are registered, the portmapper, MOUNT and NFS are found at the port over TCP,
-- and every other service keeps the port that it has.
pub getport-register_services :
    (port : ℕ) (m : Mapping) (r : Registry)
    → getport m (register_services port r) ≡ (
        if key_eq portmap_key (key_of m)
          || (key_eq mount_key (key_of m) || key_eq nfs_key (key_of m))
        then port
        else getport m r)
unfolding getport register_services set
getport-register_services port m r = ground (
  arith,
  get-insert (insert (insert r.mappings portmap_key port) mount_key port) nfs_key (key_of m) port,
  get-insert (insert r.mappings portmap_key port) mount_key (key_of m) port,
  get-insert r.mappings portmap_key (key_of m) port,
)
