-- ===== src/Registry/Watcher.antt =====
-- registry/consul_watcher.go: the events that follow from a new list of entries of a service. The
-- decoders of registry/encoding.go, which read zlib and JSON, are parameters.
pub mod Events
mod Tests
use mqant.Prelude.{
  ℕ, Bool, not, if◌then◌else◌, Option, none, some, List, [], ◌∷◌, ◌++◌, Bytes, same, Dict, find,
  put, has_key, filter_out, any,
}
use mqant.Registry.{Node, Metadata, Endpoint, Service}

-- `api.ServiceEntry`, as far as it is read; `checks` has the status of each check.
pub record Entry : Type 0 where
  pub service : Bytes
  pub id : Bytes
  pub tags : List Bytes
  pub address : Bytes
  pub node_address : Bytes
  pub port : ℕ
  pub meta : Dict Bytes
  pub checks : List Bytes

pub record Decoders : Type 0 where
  pub decode_version : List Bytes → Bytes
  pub decode_endpoints : List Bytes → List Endpoint
  pub decode_metadata : List Bytes → Metadata
  pub decode_started_at : Dict Bytes → ℕ
  pub decode_server_id : Dict Bytes → Bytes

-- `Result` with its action.
pub data Event : Type 0 where
  create : Service → Event
  update : Service → Event
  delete : Service → Event

-- "critical"
abbrev pub critical : Bytes
critical = 99 ∷ 114 ∷ 105 ∷ 116 ∷ 105 ∷ 99 ∷ 97 ∷ 108 ∷ []

-- The node of an entry.
unfoldable pub entry_node : Decoders → Entry → Node
entry_node d e = record {
  started_at = d.decode_started_at e.meta;
  server_id = d.decode_server_id e.meta;
  instance_id = e.id;
  address = elim e.address [ [] ↦ e.node_address | c ∷ s ↦ c ∷ s ];
  port = e.port;
  metadata = some (d.decode_metadata e.tags);
}

-- The service that an entry belongs to.
abbrev pub entry_service : Decoders → Entry → Bytes → Option Service → Service
entry_service d e version (some s) = s
entry_service d e version none = record {
  name = e.service;
  version = version;
  metadata = none;
  endpoints = d.decode_endpoints e.tags;
  nodes = [];
}

-- The service of the version of an entry, which a critical check leaves as it is.
unfoldable pub add_entry : Decoders → Entry → Dict Service → Dict Service
unfolding entry_node
add_entry d e services =
    let version = d.decode_version e.tags in
    let svc = entry_service d e version (find version services) in
    if any (λ c. same c critical) e.checks
    then put version svc services
    else put version (record svc { nodes = svc.nodes ++ entry_node d e ∷ [] }) services

-- The first loop: the services by their versions, and the name of the last entry.
unfoldable pub read_entries : Decoders → List Entry → Bytes → Dict Service → Bytes × Dict Service
unfolding add_entry
read_entries d [] name services = (name, services)
read_entries d (e ∷ entries) name services =
    read_entries d entries e.service (add_entry d e services)

-- Is there a node of the instance?
abbrev pub seen : Bytes → List Node → Bool
seen id nodes = any (λ n. same n.instance_id id) nodes

-- The old nodes that the new service does not have.
abbrev pub gone_nodes : Service → Service → List Node
gone_nodes neu old = filter_out (λ n. seen n.instance_id neu.nodes) old.nodes

-- An event, unless there are no such nodes.
abbrev pub delete_nodes : Service → List Node → List Event
delete_nodes old [] = []
delete_nodes old (n ∷ ns) = delete (record old { nodes = n ∷ ns }) ∷ []

-- The loop over the old services of the name.
unfoldable pub old_events : Service → List Service → List Event
old_events neu [] = []
old_events neu (old ∷ olds) =
    let rest = old_events neu olds in
    if same old.version neu.version then delete_nodes old (gone_nodes neu old) ++ rest else rest

-- The events for one service of the new set.
unfoldable pub new_events : Option (List Service) → Service → List Event
unfolding old_events
new_events none neu = create neu ∷ []
new_events (some olds) neu =
    old_events neu olds
    ++ (if any (λ old. same old.version neu.version) olds then update neu else create neu) ∷ []

unfoldable pub all_new_events : Option (List Service) → Dict Service → List Event
unfolding new_events
all_new_events olds [] = []
all_new_events olds ((version, neu) ∷ services) =
    new_events olds neu ++ all_new_events olds services

-- The last loop: the versions that are not there any more.
unfoldable pub lost_events : Dict Service → List Service → List Event
lost_events services [] = []
lost_events services (old ∷ olds) =
    let rest = lost_events services olds in
    if has_key old.version services then rest else delete old ∷ rest

abbrev pub services_of : Dict Service → List Service
services_of [] = []
services_of ((version, s) ∷ services) = s ∷ services_of services

-- `serviceHandler`: what is sent to `next`, and the known services after it.
unfoldable pub service_handler :
    Decoders → List Entry → Dict (List Service) → List Event × Dict (List Service)
unfolding read_entries all_new_events lost_events
service_handler d entries known =
    let (name, services) = read_entries d entries [] [] in
    let olds = find name known in
    (
      all_new_events olds services ++ lost_events services (elim olds [ none ↦ [] | some s ↦ s ]),
      put name (services_of services) known,
    )
