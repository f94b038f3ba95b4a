-- ===== src/Selector/Select/Total.antt =====
-- How the `Select` functions end.
use mqant.Prelude.{
  ℕ, ◌≡◌, ◌≢◌, refl, sym, subst, List, [], ◌∷◌, Bytes, Result, ok, err, panic, arith,
}
use mqant.Registry.{Service}
use mqant.Registry.Mock.{RegistryError}
use mqant.Registry.Latest.Total.{latest_services-some}
use mqant.Selector.{SelectorError}
use mqant.Selector
use mqant.Selector.Filter.{Filter}
use mqant.Selector.Cache.{Registry, CacheSelector, ask, miss, expired}
use mqant.Selector.Cache
use mqant.Selector.Select.{
  choose, or_none_available, apply_filters, select, choose_from, select_cached,
}

-- A result that is an error or some services.
abbrev pub Chosen : Result SelectorError (List Service) → Type 0
Chosen (ok services) = services ≢ []
Chosen (err e) = Unit
Chosen panic = ⊥

Chosen-or_none_available : (services : List Service) → Chosen (or_none_available services)
Chosen-or_none_available [] = tt
Chosen-or_none_available (s ∷ services) = λ e. cc

Chosen-choose : (filters : List Filter) (services : List Service) → Chosen (choose filters services)
unfolding choose
Chosen-choose filters services =
    let (latest, e) = latest_services-some services in
    let chosen : choose filters services ≡ or_none_available (apply_filters filters latest) =
      ground (arith, e) in
    subst Chosen (sym chosen) (Chosen-or_none_available (apply_filters filters latest))

-- If the registry answers without a panic, `Select` of the default selector ends with an error or
-- with at least one service for the strategy, whatever the filters are.
pub select-Chosen :
    (reg : Registry) (filters : List Filter) (service : Bytes)
    → reg service ≢ panic
    → Chosen (select reg filters service)
unfolding select
select-Chosen reg filters service calm = go (reg service) refl
  where
    go :
        (x : Result RegistryError (List Service))
        → reg service ≡ x
        → Chosen (select reg filters service)
    go (ok services) e =
        let chosen : select reg filters service ≡ choose filters services = ground (arith, e) in
        subst Chosen (sym chosen) (Chosen-choose filters services)
    go (err x) e =
        let failed : (y : SelectorError) × (select reg filters service ≡ err y) =
          (Selector.registry x, ground (arith, e)) in
        subst Chosen (sym failed.1) tt
    go panic e = absurd (calm e)

Chosen-choose_from :
    (filters : List Filter) (x : Result SelectorError (List Service) × CacheSelector)
    → x.0 ≢ panic
    → Chosen (choose_from filters x).0
Chosen-choose_from filters (ok services, c) h = Chosen-choose filters services
Chosen-choose_from filters (err e, c) h = tt
Chosen-choose_from filters (panic, c) h = absurd (h refl)

get-ne-panic :
    (reg : Registry) (now : ℕ) (service : Bytes) (c : CacheSelector)
    → reg service ≢ panic
    → (Cache.get reg now service c).0 ≢ panic
unfolding Cache.get
get-ne-panic reg now service c calm = ground arith

-- If the registry answers without a panic, `Select` of the caching selector ends with an error or
-- with at least one service for the strategy, whatever the filters are, whatever it has cached and
-- whatever the time is.
pub select_cached-Chosen :
    (reg : Registry) (filters : List Filter) (now : ℕ) (service : Bytes) (c : CacheSelector)
    → reg service ≢ panic
    → Chosen (select_cached reg filters now service c).0
unfolding select_cached
select_cached-Chosen reg filters now service c calm =
    Chosen-choose_from filters (Cache.get reg now service c) (get-ne-panic reg now service c calm)
