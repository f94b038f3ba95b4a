-- ===== src/Registry/Mock.antt =====
-- registry/mock/helper.go and registry/mock/mock.go: the registry that is kept in memory. Lists
-- stand for slices of pointers; what a caller does to a slice that it got is not modelled.
pub mod Instances
use mqant.Prelude.{
  Bool, true, false, ◌&&◌, ◌||◌, if◌then◌else◌, Option, none, some, List, [], ◌∷◌, ◌++◌, Bytes,
  same, Map, insert, Result, ok, err, elim_or_nil, filter_out, any,
}
use mqant.Registry.{Node, Service}

-- Is there a node of the instance?
abbrev pub has : Bytes → List Node → Bool
has id nodes = any (λ n. same n.instance_id id) nodes

-- The inner loop of `addNodes`: the first node of the same instance is replaced, or `n` appended.
unfoldable pub add_node : List Node → Node → List Node
add_node [] n = n ∷ []
add_node (o ∷ old) n = if same o.instance_id n.instance_id then n ∷ old else o ∷ add_node old n

-- `addNodes(old, neu)`
unfoldable pub add_nodes : List Node → List Node → List Node
unfolding add_node
add_nodes old [] = old
add_nodes old (n ∷ neu) = add_nodes (add_node old n) neu

-- The inner loop of `addServices`: the first service of the same version takes the place, with its
-- nodes added.
unfoldable pub add_service : List Service → Service → List Service
unfolding add_nodes
add_service [] s = s ∷ []
add_service (o ∷ old) s =
    if same o.version s.version
    then record s { nodes = add_nodes o.nodes s.nodes } ∷ old
    else o ∷ add_service old s

-- `addServices(old, neu)`
unfoldable pub add_services : List Service → List Service → List Service
unfolding add_service
add_services old [] = old
add_services old (s ∷ neu) = add_services (add_service old s) neu

-- `delNodes(old, del)`
unfoldable pub del_nodes : List Node → List Node → List Node
del_nodes old del = filter_out (λ o. has o.instance_id del) old

-- The inner loop of `delServices` on one service: it without the nodes, and whether it is removed.
unfoldable pub del_from : Service → List Service → Bool → Service × Bool
unfolding del_nodes
del_from o [] rem = (o, rem)
del_from o (s ∷ del) rem =
    if same o.version s.version
    then (let nodes = del_nodes o.nodes s.nodes in
        del_from (record o { nodes = nodes }) del (elim nodes [ [] ↦ true | n ∷ ns ↦ rem ]))
    else del_from o del rem

-- `delServices(old, del)`
unfoldable pub del_services : List Service → List Service → List Service
unfolding del_from
del_services [] del = []
del_services (o ∷ old) del =
    let (o', rem) = del_from o del false in
    if rem then del_services old del else o' ∷ del_services old del

-- `m.Services`
abbrev pub MockRegistry : Type 0
MockRegistry = Map (List Service)

-- `m.Services[name]`, nil on a missing key.
abbrev pub services_of : Bytes → MockRegistry → List Service
services_of name m = elim_or_nil (m name)

pub data RegistryError : Type 0 where
  not_found : RegistryError
  other : Bytes → RegistryError

-- `GetService`
unfoldable pub get_service : Bytes → MockRegistry → Result RegistryError (List Service)
get_service name m = elim (services_of name m) [ [] ↦ err not_found | s ∷ ss ↦ ok (s ∷ ss) ]

-- `Register`
unfoldable pub register : Service → MockRegistry → MockRegistry
unfolding add_services
register s m = insert s.name (add_services (services_of s.name m) (s ∷ [])) m

-- `Deregister`
unfoldable pub deregister : Service → MockRegistry → MockRegistry
unfolding del_services
deregister s m = insert s.name (del_services (services_of s.name m) (s ∷ [])) m
