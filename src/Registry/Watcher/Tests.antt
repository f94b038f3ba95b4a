-- ===== src/Registry/Watcher/Tests.antt =====
-- registry/consul_watcher.go: an instance that a service has no more.
use mqant.Prelude.{◌||◌, none, some, List, [], ◌∷◌, Dict, find, put, ◌≡◌, refl}
use mqant.Registry.{Node, Service}
use mqant.Registry.Watcher.{
  Decoders, Entry, update, delete, read_entries, add_entry, entry_node, service_handler,
  all_new_events, new_events, old_events, lost_events,
}
use mqant.Registry.Watcher.Events.{removes, leaves, lost, service_handler-removes}

abbrev decoders : Decoders
decoders = record {
  decode_version = λ tags. 49 ∷ [];
  decode_endpoints = λ tags. [];
  decode_metadata = λ tags. [];
  decode_started_at = λ meta. 0;
  decode_server_id = λ meta. [];
}

abbrev entry : Entry
entry = record {
  service = 103 ∷ [];
  id = 2 ∷ [];
  tags = [];
  address = 5 ∷ [];
  node_address = [];
  port = 80;
  meta = [];
  checks = [];
}

abbrev node_1 : Node
node_1 = record {
  started_at = 0;
  server_id = [];
  instance_id = 1 ∷ [];
  address = 5 ∷ [];
  port = 80;
  metadata = none;
}

abbrev node_2 : Node
node_2 = record node_1 { instance_id = 2 ∷ []; metadata = some [] }

abbrev service_with : List Node → Service
service_with nodes = record {
  name = 103 ∷ [];
  version = 49 ∷ [];
  metadata = none;
  endpoints = [];
  nodes = nodes;
}

abbrev known : Dict (List Service)
known = (103 ∷ [], service_with (node_1 ∷ []) ∷ []) ∷ []

handled : service_handler decoders (entry ∷ []) known ≡ (
  delete (service_with (node_1 ∷ [])) ∷ update (service_with (node_2 ∷ [])) ∷ [],
  (103 ∷ [], service_with (node_2 ∷ []) ∷ []) ∷ [],
)
unfolding service_handler read_entries add_entry entry_node all_new_events new_events old_events
    lost_events
handled = refl

-- Without entries the name of the service is empty, and no instance is taken away.
handled_empty : service_handler decoders [] known ≡ ([], put [] [] known)
unfolding service_handler read_entries all_new_events lost_events
handled_empty = refl

found :
    find (read_entries decoders (entry ∷ []) [] []).0 known ≡ some (service_with (node_1 ∷ []) ∷ [])
unfolding read_entries
found = refl

service_handler-removes_example :
    removes (103 ∷ []) (49 ∷ []) (1 ∷ []) (service_handler decoders (entry ∷ []) known).0 ≡ (
      leaves
        (103 ∷ [])
        (49 ∷ [])
        (1 ∷ [])
        (service_with (node_1 ∷ []) ∷ [])
        (read_entries decoders (entry ∷ []) [] []).1
      || lost
          (103 ∷ [])
          (49 ∷ [])
          (1 ∷ [])
          (service_with (node_1 ∷ []) ∷ [])
          (read_entries decoders (entry ∷ []) [] []).1)
service_handler-removes_example =
    service_handler-removes (103 ∷ []) (49 ∷ []) (1 ∷ []) decoders (entry ∷ []) known
      (service_with (node_1 ∷ []) ∷ []) found
