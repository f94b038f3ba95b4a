-- ===== src/Registry/Tests.antt =====
-- The registry on concrete services.
use mqant.Prelude.{ℕ, ◌≡◌, refl, not, ◌&&◌, ◌||◌, none, some, List, [], ◌∷◌, Bytes, empty, same, ok}
use mqant.Registry.{Node, Service}
use mqant.Registry.Mock.{MockRegistry, has, register, deregister, get_service}
use mqant.Registry.Mock.Instances.{hosts, register-hosts, deregister-hosts}
use mqant.Registry.Latest.{latest_services}

abbrev node : Bytes → ℕ → Node
node id started = record {
  started_at = started;
  server_id = 115 ∷ [];
  instance_id = id;
  address = [];
  port = 80;
  metadata = none;
}

abbrev service : List Node → Service
service nodes = record {
  name = 102 ∷ [];
  version = 49 ∷ [];
  metadata = none;
  endpoints = [];
  nodes = nodes;
}

abbrev one : Service
one = service (node (1 ∷ []) 5 ∷ [])

abbrev two : Service
two = service (node (2 ∷ []) 9 ∷ [])

abbrev both : MockRegistry
both = register two (register one empty)

both_found :
    get_service (102 ∷ []) both ≡ ok (service (node (1 ∷ []) 5 ∷ node (2 ∷ []) 9 ∷ []) ∷ [])
unfolding get_service register
both_found = refl

-- Of the two instances of one logical server the later one stays.
latest_found :
    latest_services (service (node (1 ∷ []) 5 ∷ node (2 ∷ []) 9 ∷ []) ∷ []) ≡ some (two ∷ [])
unfolding latest_services
latest_found = refl

register-hosts_example : hosts (102 ∷ []) (49 ∷ []) (1 ∷ []) (register two (register one empty)) ≡ (
    (same two.name (102 ∷ []) && (same two.version (49 ∷ []) && has (1 ∷ []) two.nodes))
    || hosts (102 ∷ []) (49 ∷ []) (1 ∷ []) (register one empty))
register-hosts_example = register-hosts two (register one empty) (102 ∷ []) (49 ∷ []) (1 ∷ [])

deregister-hosts_example : hosts (102 ∷ []) (49 ∷ []) (1 ∷ []) (deregister one both) ≡ (
    hosts (102 ∷ []) (49 ∷ []) (1 ∷ []) both
    && not (same one.name (102 ∷ []) && (same one.version (49 ∷ []) && has (1 ∷ []) one.nodes)))
deregister-hosts_example = deregister-hosts one both (102 ∷ []) (49 ∷ []) (1 ∷ [])
