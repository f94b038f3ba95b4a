-- ===== src/Selector/Cache.antt =====
-- selector/cache/cache.go: the selector that keeps what the registry answered. The registry and the
-- clock are arguments of the calls; an event of the watcher that `run` keeps is an `update`. Lists
-- stand for slices of pointers, so that `cp` is the identity.
pub mod Expiry
pub mod Events
pub mod Removal
use mqant.Prelude.{
  ℕ, suc, ◌+◌, ltb, Bool, true, false, not, ◌&&◌, if◌then◌else◌, Option, none, some, List, [], ◌∷◌,
  ◌++◌, Bytes, same, length, Map, empty, insert, remove, Result, ok, err, panic, Exec, filter_out,
  set,
}
use mqant.Registry.{Node, Service}
use mqant.Registry.Mock.{RegistryError, has, del_nodes}
use mqant.Registry.Mock.RegistryError.{not_found, other}
use mqant.Selector.{SelectorError, registry}
use mqant.Selector

-- `has_watcher` says whether a callback for removed nodes is set, `notified` lists its calls.
pub record CacheSelector : Type 0 where
  pub ttl : ℕ
  pub cache : Map (List Service)
  pub ttls : Map ℕ
  pub watched : Map Bool
  pub exited : Bool
  pub has_watcher : Bool
  pub notified : List Node

-- What `registry.GetService` answers.
abbrev pub Registry : Type 0
Registry = Bytes → Result RegistryError (List Service)

-- `NewSelector`
pub new_selector : ℕ → Bool → CacheSelector
new_selector ttl has_watcher = record {
  ttl = ttl;
  cache = empty;
  ttls = empty;
  watched = empty;
  exited = false;
  has_watcher = has_watcher;
  notified = [];
}

-- `del`
abbrev pub del : Bytes → CacheSelector → CacheSelector
del service c = record c { cache = remove service c.cache; ttls = remove service c.ttls }

-- `set` at the time `now`
abbrev pub set_services : ℕ → Bytes → List Service → CacheSelector → CacheSelector
set_services now service services c = record c {
  cache = insert service services c.cache;
  ttls = insert service (now + c.ttl) c.ttls;
}

-- The start of `get`: one watcher for each service that was asked for.
abbrev pub watch : Bytes → CacheSelector → CacheSelector
watch service c = elim (c.watched service) [
  | some b ↦ c
  | none ↦ record c { watched = insert service true c.watched }
]

-- The inner function `get`, with its two results: the registry's answer, which is kept, or nil and
-- an error.
abbrev pub ask :
    Registry → ℕ → Bytes → Exec RegistryError CacheSelector (List Service × Option RegistryError)
ask reg now service c = elim (reg service) [
  | ok services ↦ (ok (services, none), set_services now service services c)
  | err e ↦ (ok ([], some e), c)
  | panic ↦ (panic, c)
]

-- A miss: the error of the registry goes to the caller.
abbrev pub miss :
    Result RegistryError (List Service × Option RegistryError) × CacheSelector
    → Result SelectorError (List Service) × CacheSelector
miss (ok (services, none), c) = (ok services, c)
miss (ok (services, some e), c) = (err (registry e), c)
miss (err e, c) = (err (registry e), c)
miss (panic, c) = (panic, c)

-- An expired entry: `services` is overwritten by the first result of the inner `get`, and is answered
-- after an error other than `not_found` too.
abbrev pub expired :
    Result RegistryError (List Service × Option RegistryError) × CacheSelector
    → Result SelectorError (List Service) × CacheSelector
expired (ok (services, none), c) = (ok services, c)
expired (ok (services, some not_found), c) = (err Selector.not_found, c)
expired (ok (services, some (other msg)), c) = (ok services, c)
expired (err e, c) = (err (registry e), c)
expired (panic, c) = (panic, c)

-- kk && time.Since(ttl) < c.ttl
abbrev pub is_live : ℕ → Bytes → CacheSelector → Bool
is_live now service c = elim (c.ttls service) [ none ↦ false | some t ↦ ltb now (t + c.ttl) ]

-- `get`
unfoldable pub get : Registry → ℕ → Bytes → Exec SelectorError CacheSelector (List Service)
get reg now service c₀ =
    let c = watch service c₀ in
    elim (c.cache service) [
      | none ↦ miss (ask reg now service c)
      | some [] ↦ miss (ask reg now service c)
      | some (s ∷ ss) ↦
          if is_live now service c then (ok (s ∷ ss), c) else expired (ask reg now service c)
    ]

pub data Action : Type 0 where
  create update delete unknown : Action

-- Of the services of a version the last, with its index.
unfoldable pub find_version : Bytes → List Service → Option (ℕ × Service)
find_version version [] = none
find_version version (s ∷ services) = elim (find_version version services) [
  | some (i, found) ↦ some (suc i, found)
  | none ↦ if same s.version version then some (0, s) else none
]

-- The loop that appends the old nodes: it looks at those appended before, too.
unfoldable pub append_old : List Node → List Node → List Node
append_old nodes [] = nodes
append_old nodes (cur ∷ old) =
    if has cur.instance_id nodes then append_old nodes old else append_old (nodes ++ cur ∷ []) old

-- The callback is called on the nodes, if it is set.
abbrev pub notify : List Node → CacheSelector → CacheSelector
notify nodes c = if c.has_watcher then record c { notified = c.notified ++ nodes } else c

-- The actions "create" and "update".
unfoldable pub put_service : ℕ → Service → List Service → CacheSelector → CacheSelector
unfolding find_version append_old
put_service now res services c = elim (find_version res.version services) [
  | none ↦ set_services now res.name (services ++ res ∷ []) c
  | some (index, service) ↦
      set_services now res.name
        (set services index (record res { nodes = append_old res.nodes service.nodes })) c
]

-- The action "delete" of some nodes, once the nodes that stay are known.
abbrev pub store_left : ℕ → Service → ℕ → List Service → List Node → CacheSelector → CacheSelector
store_left now service index services (n ∷ ns) c =
    set_services now service.name (set services index (record service { nodes = n ∷ ns })) c
store_left now service index (s ∷ []) [] c = del service.name c
store_left now service index services [] c =
    set_services now service.name (filter_out (λ s. same s.version service.version) services) c

unfoldable pub drop_nodes : ℕ → Service → List Service → CacheSelector → CacheSelector
unfolding find_version del_nodes
drop_nodes now res services c = elim (find_version res.version services) [
  | none ↦ c
  | some (index, service) ↦
      store_left now service index services (del_nodes service.nodes res.nodes)
        (notify (filter_out (λ cur. not (has cur.instance_id res.nodes)) service.nodes) c)
]

-- The nodes of the whole service, for the callback when it goes.
abbrev cached_nodes : List Service → List Node
cached_nodes [] = []
cached_nodes (s ∷ services) = s.nodes ++ cached_nodes services

-- `update` on an event that names a service.
unfoldable pub update_service : ℕ → Action → Service → CacheSelector → CacheSelector
unfolding put_service drop_nodes
update_service now action res c = elim (c.cache res.name) [
  | none ↦ c
  | some services ↦ elim res.nodes [
    | [] ↦ elim action [
      | delete ↦ del res.name (notify (cached_nodes services) c)
      | create ↦ c
      | update ↦ c
      | unknown ↦ c
    ]
    | n ∷ ns ↦ elim action [
      | create ↦ put_service now res services c
      | update ↦ put_service now res services c
      | delete ↦ drop_nodes now res services c
      | unknown ↦ c
    ]
  ]
]

-- `Reset`
pub reset : Bytes → CacheSelector → CacheSelector
reset service c = del service c

-- `Close`
pub close : CacheSelector → CacheSelector
close c = record c { cache = empty; watched = empty; exited = true }
