-- ===== src/Selector/Cache/Removal.antt =====
-- What an event "delete" does to the instances that the caching selector knows.
use mqant.Prelude.{
  ℕ, zero, suc, Bool, true, false, not, ◌&&◌, ◌≡◌, ◌≢◌, refl, ap, sym, subst, ◌∙◌, Option, some,
  none, List, [], ◌∷◌, Bytes, same, same→eq, same_refl, any, Bool-cases, inl, inr, arith, set,
  get_elem?, filter_out, All,
}
use mqant.Registry.{Node, Service}
use mqant.Registry.Mock.{has, del_nodes}
use mqant.Registry.Mock.Instances.{holds, has-del_nodes}
use mqant.Selector.Cache.{
  CacheSelector, Action, find_version, drop_nodes, store_left, update_service, notify,
}
use mqant.Selector.Cache.Events.{knows, Found, find_version-Found}

-- No two services have the same version.
abbrev pub Distinct : List Service → Type 0
Distinct [] = Unit
Distinct (s ∷ services) = (any (λ x. same x.version s.version) services ≡ false) × Distinct services

same_left : (a b v : Bytes) → same a b ≡ true → same a v ≡ same b v
same_left a b v e = ap (λ x. same x v) (same→eq a b e)

absent-holds :
    (u v id : Bytes) (services : List Service)
    → any (λ x. same x.version u) services ≡ false
    → same u v ≡ true
    → holds v id services ≡ false
absent-holds u v id [] a e = refl
absent-holds u v id (s ∷ services) a e = ground (arith, absent-holds u v id services, same→eq u v e)

any-get :
    (u : Bytes) (services : List Service) (i : ℕ) (o : Service)
    → any (λ x. same x.version u) services ≡ false
    → get_elem? services i ≡ some o
    → same o.version u ≡ false
any-get u [] i o a e = absurd cc
any-get u (s ∷ services) zero o a e = ground arith
any-get u (s ∷ services) (suc i) o a e = any-get u services i o (ground arith) e

-- The instances of the version of a service are those of the service.
holds-found :
    (v id : Bytes) (services : List Service) (i : ℕ) (o s : Service)
    → Distinct services
    → get_elem? services i ≡ some o
    → s.version ≡ o.version
    → same o.version v ≡ true
    → holds v id (set services i s) ≡ has id s.nodes
holds-found v id [] i o s d e same_v f = absurd cc
holds-found v id (x ∷ services) zero o s d e same_v f =
    ground (arith, absent-holds x.version v id services d.0)
holds-found v id (x ∷ services) (suc i) o s d e same_v f = ground (
  arith,
  holds-found v id services i o s d.1 e same_v f,
  any-get x.version services i o d.0 e,
  same→eq o.version v f,
  same→eq x.version v,
  same_refl v,
)

holds-other :
    (v id : Bytes) (services : List Service) (i : ℕ) (o s : Service)
    → get_elem? services i ≡ some o
    → s.version ≡ o.version
    → same o.version v ≡ false
    → holds v id (set services i s) ≡ holds v id services
holds-other v id [] i o s e same_v f = absurd cc
holds-other v id (x ∷ services) zero o s e same_v f = ground arith
holds-other v id (x ∷ services) (suc i) o s e same_v f =
    ground (arith, holds-other v id services i o s e same_v f)

set-get :
    (services : List Service) (i : ℕ) (o : Service)
    → get_elem? services i ≡ some o
    → set services i o ≡ services
set-get [] i o e = absurd cc
set-get (x ∷ services) zero o e = ground arith
set-get (x ∷ services) (suc i) o e = ap (◌∷◌ x) (set-get services i o e)

same_other : (a u v : Bytes) → same a u ≡ false → same u v ≡ true → same a v ≡ false
same_other a u v e f = ap (λ x. same a x) (sym (same→eq u v f)) ∙ e

holds-filter_out :
    (u v id : Bytes) (services : List Service)
    → holds v id (filter_out (λ s. same s.version u) services)
      ≡ (holds v id services && not (same u v))
holds-filter_out u v id [] = refl
holds-filter_out u v id (s ∷ services) = elim (Bool-cases (same s.version u)) [
  | inl e ↦ ground (arith, holds-filter_out u v id services, same→eq s.version u e)
  | inr e ↦ elim (Bool-cases (same u v)) [
    | inl f ↦ ground (arith, holds-filter_out u v id services, same_other s.version u v e f)
    | inr f ↦ ground (arith, holds-filter_out u v id services)
  ]
]

module _ (now : ℕ) (v id : Bytes) (services : List Service) (i : ℕ) (o : Service)
    (c : CacheSelector) (b : Bool) (distinct : Distinct services)
    (found : get_elem? services i ≡ some o) where
  holds-services : same o.version v ≡ true → holds v id services ≡ has id o.nodes
  holds-services f =
      ap (λ x. holds v id x) (sym (set-get services i o found))
      ∙ holds-found v id services i o o distinct found refl f

  set-left :
      (nodes : List Node)
      → has id nodes ≡ (has id o.nodes && not b)
      → holds v id (set services i (record o { nodes = nodes }))
        ≡ (holds v id services && not (same o.version v && b))
  set-left nodes h = elim (Bool-cases (same o.version v)) [
    | inl f ↦ ground (
      arith,
      holds-found v id services i o (record o { nodes = nodes }) distinct found refl f,
      holds-services f,
    )
    | inr f ↦
        ground (arith, holds-other v id services i o (record o { nodes = nodes }) found refl f)
  ]

  filter_left :
      (has id o.nodes && not b) ≡ false
      → holds v id (filter_out (λ s. same s.version o.version) services)
        ≡ (holds v id services && not (same o.version v && b))
  filter_left h = elim (Bool-cases (same o.version v)) [
    | inl f ↦ ground (arith, holds-filter_out o.version v id services, holds-services f)
    | inr f ↦ ground (arith, holds-filter_out o.version v id services)
  ]

only-version :
    (x o : Service) (i : ℕ) → get_elem? (x ∷ []) i ≡ some o → same x.version o.version ≡ true
only-version x o zero e =
    ap (λ z. same x.version (elim z [ none ↦ x.version | some s ↦ s.version ])) (sym e)
    ∙ same_refl x.version
only-version x o (suc i) e = absurd cc

-- The nodes that stay decide what is known of the version; without nodes the service is dropped.
store_left-knows :
    (now : ℕ) (v id : Bytes) (services : List Service) (i : ℕ) (o : Service) (c : CacheSelector)
    (b : Bool) (nodes : List Node)
    → Distinct services
    → get_elem? services i ≡ some o
    → has id nodes ≡ (has id o.nodes && not b)
    → knows o.name v id (store_left now o i services nodes c)
      ≡ (holds v id services && not (same o.version v && b))
store_left-knows now v id [] i o c b nodes d found h = absurd cc
store_left-knows now v id (x ∷ xs) i o c b (n ∷ ns) d found h =
    ground (arith, same_refl o.name, set-left now v id (x ∷ xs) i o c b d found (n ∷ ns) h)
store_left-knows now v id (x ∷ []) i o c b [] d found h = ground (
  arith,
  same_refl o.name,
  filter_left now v id (x ∷ []) i o c b d found (sym h),
  only-version x o i found,
)
store_left-knows now v id (x ∷ y ∷ xs) i o c b [] d found h =
    ground (arith, same_refl o.name, filter_left now v id (x ∷ y ∷ xs) i o c b d found (sym h))

All-get :
    (P : Service → Type 0) (services : List Service) (i : ℕ) (o : Service)
    → All P services
    → get_elem? services i ≡ some o
    → P o
All-get P [] i o all e = absurd cc
All-get P (x ∷ xs) zero o all e = subst P (ap (λ z. elim z [ none ↦ x | some s ↦ s ]) e) all.0
All-get P (x ∷ xs) (suc i) o all e = All-get P xs i o all.1 e

-- No service has the version that was not found.
missing-holds :
    (u v id : Bytes) (services : List Service)
    → find_version u services ≡ none
    → same u v ≡ true
    → holds v id services ≡ false
unfolding find_version
missing-holds u v id [] e f = refl
missing-holds u v id (s ∷ services) e f =
    ground (arith, missing-holds u v id services, same→eq u v f)

drop_nodes-cases :
    (now : ℕ) (res : Service) (services : List Service) (c : CacheSelector) (v id : Bytes)
    (found : Option (ℕ × Service))
    → c.cache res.name ≡ some services
    → Distinct services
    → All (λ s. s.name ≡ res.name) services
    → find_version res.version services ≡ found
    → Found res.version services found
    → knows res.name v id (drop_nodes now res services c)
      ≡ (holds v id services && not (same res.version v && has id res.nodes))
unfolding drop_nodes
drop_nodes-cases now res services c v id none known d names e h =
    elim (Bool-cases (same res.version v)) [
      | inl f ↦ ground (arith, e, known, missing-holds res.version v id services e f)
      | inr f ↦ ground (arith, e, known)
    ]
drop_nodes-cases now res services c v id (some (i, o)) known d names e h =
    let same_name : o.name ≡ res.name = All-get (λ s. s.name ≡ res.name) services i o names h.0 in
    let same_version : o.version ≡ res.version = same→eq o.version res.version h.1 in
    ground (
      arith,
      e,
      same_name,
      same_version,
      store_left-knows now v id services i o
          (notify (filter_out (λ cur. not (has cur.instance_id res.nodes)) o.nodes) c)
          (has id res.nodes) (del_nodes o.nodes res.nodes) d h.0
          (has-del_nodes id o.nodes res.nodes),
    )

-- An event "delete" of some nodes of a service that is in the cache removes exactly those instances
-- from the ones that the selector knows, if the cached services have the name of their key and no
-- two of them the same version.
pub update-removes :
    (now : ℕ) (res : Service) (services : List Service) (c : CacheSelector) (v id : Bytes)
    → c.cache res.name ≡ some services
    → Distinct services
    → All (λ s. s.name ≡ res.name) services
    → res.nodes ≢ []
    → knows res.name v id (update_service now Action.delete res c)
      ≡ (knows res.name v id c && not (same res.version v && has id res.nodes))
unfolding update_service
update-removes now res services c v id known d names ne = ground (
  arith,
  drop_nodes-cases now res services c v id (find_version res.version services) known d names refl
      (find_version-Found res.version services),
)
