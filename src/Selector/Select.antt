-- ===== src/Selector/Select.antt =====
-- `Select` and `GetService` of selector/default.go and of selector/cache/cache.go, up to the call of
-- the strategy: the services that the strategy chooses from.
pub mod Total
use mqant.Prelude.{ℕ, none, some, List, [], ◌∷◌, Bytes, Result, ok, err, panic, Exec}
use mqant.Registry.{Service}
use mqant.Registry.Latest.{latest_services}
use mqant.Selector.{SelectorError, none_available}
use mqant.Selector
use mqant.Selector.Filter.{Filter}
use mqant.Selector.Cache.{Registry, CacheSelector}
use mqant.Selector.Cache

-- The filters of the options, in order.
unfoldable pub apply_filters : List Filter → List Service → List Service
apply_filters [] services = services
apply_filters (f ∷ filters) services = apply_filters filters (f services)

abbrev pub or_none_available : List Service → Result SelectorError (List Service)
or_none_available [] = err none_available
or_none_available (s ∷ services) = ok (s ∷ services)

-- What both do with the services that they got.
unfoldable pub choose : List Filter → List Service → Result SelectorError (List Service)
unfolding apply_filters
choose filters services = elim (latest_services services) [
  | none ↦ panic
  | some latest ↦ or_none_available (apply_filters filters latest)
]

-- `Select` of the default selector.
unfoldable pub select : Registry → List Filter → Bytes → Result SelectorError (List Service)
unfolding choose
select reg filters service = elim (reg service) [
  | ok services ↦ choose filters services
  | err e ↦ err (Selector.registry e)
  | panic ↦ panic
]

abbrev pub choose_from :
    List Filter
    → Result SelectorError (List Service) × CacheSelector
    → Result SelectorError (List Service) × CacheSelector
choose_from filters (ok services, c) = (choose filters services, c)
choose_from filters (err e, c) = (err e, c)
choose_from filters (panic, c) = (panic, c)

-- `Select` of the caching selector.
unfoldable pub select_cached :
    Registry → List Filter → ℕ → Bytes → Exec SelectorError CacheSelector (List Service)
unfolding choose
select_cached reg filters now service c = choose_from filters (Cache.get reg now service c)
