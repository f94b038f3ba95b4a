-- ===== src/Registry/Mock/Instances.antt =====
-- The registry seen as a set of instances, each of a service name and a version: what `Register` and
-- `Deregister` do to it.
use mqant.Prelude.{
  Bool, true, false, not, ◌&&◌, ◌||◌, ◌≡◌, refl, sym, ◌∙◌, List, [], ◌∷◌, Bytes, same, same→eq, any,
  Bool-cases, inl, inr, arith,
}
use mqant.Registry.{Node, Service}
use mqant.Registry.Mock.{
  MockRegistry, has, add_node, add_nodes, add_service, del_nodes, del_services, services_of,
  register, deregister,
}

-- Is there an instance `id` of the version `v`?
abbrev pub holds : Bytes → Bytes → List Service → Bool
holds v id services = any (λ s. same s.version v && has id s.nodes) services

-- Is there one under the service name?
abbrev pub hosts : Bytes → Bytes → Bytes → MockRegistry → Bool
hosts name v id m = holds v id (services_of name m)

or_absorb : (a b : Bool) → (a || b) ≡ (a || (a || b))
or_absorb true b = refl
or_absorb false b = refl

or_swap : (a b c : Bool) → (a || (b || c)) ≡ (b || (a || c))
or_swap true true c = refl
or_swap true false c = refl
or_swap false b c = refl

has-add_node :
    (id : Bytes) (old : List Node) (n : Node)
    → has id (add_node old n) ≡ (same n.instance_id id || has id old)
unfolding add_node
has-add_node id [] n = refl
has-add_node id (o ∷ old) n = elim (Bool-cases (same o.instance_id n.instance_id)) [
  | inl e ↦
      rw (e, same→eq o.instance_id n.instance_id e) (or_absorb (same n.instance_id id) (has id old))
  | inr e ↦
      rw (e, has-add_node id old n)
        (or_swap (same o.instance_id id) (same n.instance_id id) (has id old))
]

has-add_nodes :
    (id : Bytes) (old neu : List Node) → has id (add_nodes old neu) ≡ (has id neu || has id old)
unfolding add_nodes
has-add_nodes id old [] = refl
has-add_nodes id old (n ∷ neu) =
    ground (arith, has-add_nodes id (add_node old n) neu, has-add_node id old n)

holds-add_service :
    (v id : Bytes) (old : List Service) (s : Service)
    → holds v id (add_service old s) ≡ ((same s.version v && has id s.nodes) || holds v id old)
unfolding add_service
holds-add_service v id [] s = refl
holds-add_service v id (o ∷ old) s = elim (Bool-cases (same o.version s.version)) [
  | inl e ↦ rw (e, same→eq o.version s.version e, has-add_nodes id o.nodes s.nodes) (ground arith)
  | inr e ↦
      rw (e, holds-add_service v id old s)
        (or_swap (same o.version v && has id o.nodes) (same s.version v && has id s.nodes)
          (holds v id old))
]

pub has-del_nodes :
    (id : Bytes) (old del : List Node)
    → has id (del_nodes old del) ≡ (has id old && not (has id del))
unfolding del_nodes
has-del_nodes id [] del = refl
has-del_nodes id (o ∷ old) del = elim (Bool-cases (same o.instance_id id)) [
  | inl e ↦ ground (arith, has-del_nodes id old del, same→eq o.instance_id id e)
  | inr e ↦ ground (arith, has-del_nodes id old del)
]

-- A service that loses nodes, in front of the rest: it is left out once it has none.
abbrev kept : Service → List Node → List Service → List Service
kept o nodes rest = elim nodes [ [] ↦ rest | n ∷ ns ↦ record o { nodes = n ∷ ns } ∷ rest ]

holds-kept :
    (v id : Bytes) (o : Service) (nodes : List Node) (rest : List Service)
    → holds v id (kept o nodes rest) ≡ ((same o.version v && has id nodes) || holds v id rest)
holds-kept v id o [] rest = ground arith
holds-kept v id o (n ∷ ns) rest = refl

del_services-kept :
    (o s : Service) (old : List Service) (nodes : List Node)
    → same o.version s.version ≡ true
    → del_nodes o.nodes s.nodes ≡ nodes
    → del_services (o ∷ old) (s ∷ []) ≡ kept o nodes (del_services old (s ∷ []))
unfolding del_services
del_services-kept o s old [] e d = rw (e, d) refl
del_services-kept o s old (n ∷ ns) e d = rw (e, d) refl

pub other-version :
    (o s : Service) (v : Bytes)
    → same o.version s.version ≡ false
    → same s.version v ≡ true
    → same o.version v ≡ false
other-version o s v e f = (λ i. same o.version (sym (same→eq s.version v f) i)) ∙ e

holds-del_services :
    (v id : Bytes) (old : List Service) (s : Service)
    → holds v id (del_services old (s ∷ []))
      ≡ (holds v id old && not (same s.version v && has id s.nodes))
unfolding del_services
holds-del_services v id [] s = refl
holds-del_services v id (o ∷ old) s = elim (Bool-cases (same o.version s.version)) [
  | inl e ↦ ground (
    arith,
    del_services-kept o s old (del_nodes o.nodes s.nodes) e refl,
    holds-kept v id o (del_nodes o.nodes s.nodes) (del_services old (s ∷ [])),
    has-del_nodes id o.nodes s.nodes,
    holds-del_services v id old s,
    same→eq o.version s.version e,
  )
  | inr e ↦ elim (Bool-cases (same s.version v)) [
    | inl same_v ↦ ground (arith, holds-del_services v id old s, other-version o s v e same_v)
    | inr other_v ↦ ground (arith, holds-del_services v id old s)
  ]
]

-- After a registration the instances of the service are there beside all that were there before.
pub register-hosts :
    (s : Service) (m : MockRegistry) (name v id : Bytes)
    → hosts name v id (register s m)
      ≡ ((same s.name name && (same s.version v && has id s.nodes)) || hosts name v id m)
unfolding register
register-hosts s m name v id = elim (Bool-cases (same s.name name)) [
  | inl e ↦ ground (arith, same→eq s.name name e, holds-add_service v id (services_of s.name m) s)
  | inr e ↦ ground arith
]

-- After a deregistration exactly the instances of the service, under its name and version, are gone.
pub deregister-hosts :
    (s : Service) (m : MockRegistry) (name v id : Bytes)
    → hosts name v id (deregister s m)
      ≡ (hosts name v id m && not (same s.name name && (same s.version v && has id s.nodes)))
unfolding deregister
deregister-hosts s m name v id = elim (Bool-cases (same s.name name)) [
  | inl e ↦ ground (arith, same→eq s.name name e, holds-del_services v id (services_of s.name m) s)
  | inr e ↦ ground arith
]
