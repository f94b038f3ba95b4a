-- ===== src/Selector/Tests.antt =====
-- The strategies, the filters and the cache on concrete services.
use mqant.Prelude.{
  ◌+◌, ◌%◌, ◌≡◌, refl, not, ◌&&◌, ◌||◌, true, false, none, some, List, [], ◌∷◌, Bytes, empty, same,
  ok, err, inl, filter_out, get_elem?, length, insert, arith,
}
use mqant.Registry.{Node, Service}
use mqant.Registry.Mock.{has}
use mqant.Registry.Mock.RegistryError.{other}
use mqant.Selector.Filter.{filter_label}
use mqant.Selector.Filter.Labels.{carries_label, all_nodes-filter_label}
use mqant.Selector.Strategy.{all_nodes, round_robin_next}
use mqant.Selector.Strategy.Calls.{after_calls, round_robin_next-after_calls}
use mqant.Selector.Cache.{CacheSelector, Registry, get, set_services, update_service}
use mqant.Selector.Cache.{Action}
use mqant.Selector.Cache.Action.{create}
use mqant.Selector.Cache.Removal.{update-removes}
use mqant.Selector.Cache.Expiry.{get-live}
use mqant.Selector.Cache.Events.{knows, update-knows}

abbrev node : Bytes → Bytes → Node
node id label = record {
  started_at = 1;
  server_id = [];
  instance_id = id;
  address = [];
  port = 80;
  metadata = some ((7 ∷ [], label) ∷ []);
}

abbrev service : List Node → Service
service nodes = record {
  name = 102 ∷ [];
  version = 49 ∷ [];
  metadata = none;
  endpoints = [];
  nodes = nodes;
}

abbrev pair : Service
pair = service (node (1 ∷ []) (8 ∷ []) ∷ node (2 ∷ []) (9 ∷ []) ∷ [])

abbrev single : Service
single = service (node (3 ∷ []) (8 ∷ []) ∷ [])

all_nodes-filter_label_example :
    all_nodes (filter_label (7 ∷ []) (8 ∷ []) (pair ∷ single ∷ []))
    ≡ filter_out (λ n. not (carries_label (7 ∷ []) (8 ∷ []) n)) (all_nodes (pair ∷ single ∷ []))
all_nodes-filter_label_example = all_nodes-filter_label (7 ∷ []) (8 ∷ []) (pair ∷ single ∷ [])

round_robin_next-after_calls_example :
    (n : Node) × (get_elem? (all_nodes (pair ∷ [])) ((7 + 4) % length (all_nodes (pair ∷ [])))
      ≡ some n)
    × (round_robin_next (pair ∷ []) (after_calls (pair ∷ []) 4 7) ≡ (ok n, 7 + 4 + 1))
round_robin_next-after_calls_example =
    round_robin_next-after_calls (pair ∷ []) 4 7 (λ e. cc) (omega arith)

abbrev failing : Registry
failing name = err (other [])

abbrev answering : Registry
answering name = ok (single ∷ [])

abbrev selector : CacheSelector
selector = record {
  ttl = 60;
  cache = empty;
  ttls = empty;
  watched = insert (102 ∷ []) true empty;
  exited = false;
  has_watcher = false;
  notified = [];
}

abbrev stored : CacheSelector
stored = set_services 5 (102 ∷ []) (pair ∷ []) selector

-- At 100, more than 60 after the services were stored, they are still answered.
get-live_example : get failing 100 (102 ∷ []) stored ≡ (ok (pair ∷ []), stored)
get-live_example = get-live failing 5 100 (102 ∷ []) pair [] selector refl (omega arith)

update-knows_example :
    knows (102 ∷ []) (49 ∷ []) (1 ∷ []) (update_service 6 create single stored) ≡ (
      (same single.version (49 ∷ []) && has (1 ∷ []) single.nodes)
      || knows (102 ∷ []) (49 ∷ []) (1 ∷ []) stored)
update-knows_example =
    update-knows 6 create single (pair ∷ []) stored (49 ∷ []) (1 ∷ []) refl (λ e. cc) (inl refl)

update-removes_example :
    knows (102 ∷ []) (49 ∷ []) (1 ∷ []) (update_service 6 Action.delete pair stored) ≡ (
      knows (102 ∷ []) (49 ∷ []) (1 ∷ []) stored
      && not (same pair.version (49 ∷ []) && has (1 ∷ []) pair.nodes))
update-removes_example =
    update-removes 6 pair (pair ∷ []) stored (49 ∷ []) (1 ∷ []) refl (refl, tt) (refl, tt) (λ e. cc)
