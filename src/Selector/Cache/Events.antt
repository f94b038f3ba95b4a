-- ===== src/Selector/Cache/Events.antt =====
-- What the events of the watcher do to the instances that the caching selector knows.
use mqant.Prelude.{
  ℕ, zero, suc, Bool, true, false, ◌&&◌, ◌||◌, ◌≡◌, ◌≢◌, ◌⊎◌, refl, sym, if◌then◌else◌, Option,
  some, none, List, [], ◌∷◌, ◌++◌, Bytes, same, same→eq, same_refl, any-append, Bool-cases, inl,
  inr, arith, set, get_elem?, elim_or_nil,
}
use mqant.Registry.{Node, Service}
use mqant.Registry.Mock.{has}
use mqant.Registry.Mock.Instances.{holds}
use mqant.Selector.Cache.{
  CacheSelector, Action, find_version, append_old, put_service, update_service,
}
use mqant.Selector.Cache.Action.{create, update}

-- Is an instance `id` of the version `v` known under the service name?
abbrev pub knows : Bytes → Bytes → Bytes → CacheSelector → Bool
knows name v id c = holds v id (elim_or_nil (c.cache name))

has-append_old :
    (id : Bytes) (nodes old : List Node)
    → has id (append_old nodes old) ≡ (has id nodes || has id old)
unfolding append_old
has-append_old id nodes [] = ground arith
has-append_old id nodes (cur ∷ old) = elim (Bool-cases (has cur.instance_id nodes)) [
  | inl seen ↦ elim (Bool-cases (same cur.instance_id id)) [
    | inl e ↦ ground (arith, has-append_old id nodes old, same→eq cur.instance_id id e)
    | inr e ↦ ground (arith, has-append_old id nodes old)
  ]
  | inr new ↦ ground (
    arith,
    has-append_old id (nodes ++ cur ∷ []) old,
    any-append (λ n. same n.instance_id id) nodes (cur ∷ []),
  )
]

-- The service that `find_version` returns stands at its index and has the version.
abbrev pub Found : Bytes → List Service → Option (ℕ × Service) → Type 0
Found v services none = Unit
Found v services (some (i, s)) = (get_elem? services i ≡ some s) × (same s.version v ≡ true)

Found-here :
    (v : Bytes) (s : Service) (services : List Service) (b : Bool)
    → same s.version v ≡ b
    → Found v (s ∷ services) (if b then some (0, s) else none)
Found-here v s services true e = (refl, e)
Found-here v s services false e = tt

Found-step :
    (v : Bytes) (s : Service) (services : List Service) (later : Option (ℕ × Service))
    → find_version v services ≡ later
    → Found v services later
    → Found v (s ∷ services) (find_version v (s ∷ services))
unfolding find_version
Found-step v s services none e h = rw e (Found-here v s services (same s.version v) refl)
Found-step v s services (some (i, found)) e h = rw e h

pub find_version-Found :
    (v : Bytes) (services : List Service) → Found v services (find_version v services)
find_version-Found v [] = unfold find_version in tt
find_version-Found v (s ∷ services) =
    Found-step v s services (find_version v services) refl (find_version-Found v services)

-- A service with the instances of the one that it replaces and those that pass the test `b`.
holds-set :
    (v id : Bytes) (services : List Service) (i : ℕ) (o s : Service) (b : Bool)
    → get_elem? services i ≡ some o
    → s.version ≡ o.version
    → has id s.nodes ≡ (b || has id o.nodes)
    → holds v id (set services i s) ≡ ((same o.version v && b) || holds v id services)
holds-set v id [] i o s b e same_v h = absurd cc
holds-set v id (x ∷ services) zero o s b e same_v h = ground arith
holds-set v id (x ∷ services) (suc i) o s b e same_v h =
    ground (arith, holds-set v id services i o s b e same_v h)

put_service-cases :
    (now : ℕ) (res : Service) (services : List Service) (c : CacheSelector) (v id : Bytes)
    (found : Option (ℕ × Service))
    → find_version res.version services ≡ found
    → Found res.version services found
    → knows res.name v id (put_service now res services c)
      ≡ ((same res.version v && has id res.nodes) || holds v id services)
unfolding put_service
put_service-cases now res services c v id none e h = ground (
  arith,
  e,
  same_refl res.name,
  any-append (λ s. same s.version v && has id s.nodes) services (res ∷ []),
)
put_service-cases now res services c v id (some (i, o)) e h =
    let same_version : o.version ≡ res.version = same→eq o.version res.version h.1 in
    ground (
      arith,
      e,
      same_version,
      same_refl res.name,
      holds-set v id services i o (record res { nodes = append_old res.nodes o.nodes })
          (has id res.nodes) h.0 (sym same_version) (has-append_old id res.nodes o.nodes),
    )

-- An event "create" or "update" of a service that is in the cache and lists some nodes adds exactly
-- its instances to those that the selector knows; no instance that was known before is lost.
pub update-knows :
    (now : ℕ) (action : Action) (res : Service) (services : List Service) (c : CacheSelector)
    (v id : Bytes)
    → c.cache res.name ≡ some services
    → res.nodes ≢ []
    → (action ≡ create) ⊎ (action ≡ update)
    → knows res.name v id (update_service now action res c)
      ≡ ((same res.version v && has id res.nodes) || knows res.name v id c)
unfolding update_service
update-knows now action res services c v id e ne a = ground (
  arith,
  put_service-cases now res services c v id (find_version res.version services) refl
      (find_version-Found res.version services),
)
