-- ===== src/Selector/Cache/Expiry.antt =====
-- How long the caching selector answers without the registry.
use mqant.Prelude.{ℕ, ◌+◌, ◌<◌, ◌≤◌, ◌≡◌, true, some, List, ◌∷◌, Bytes, same_refl, ok, arith}
use mqant.Registry.{Service}
use mqant.Selector.Cache.{CacheSelector, Registry, get, set_services}

module _ (reg : Registry) (t now : ℕ) (service : Bytes) (s : Service) (ss : List Service)
    (c : CacheSelector) (is_watched : c.watched service ≡ some true) where
  abbrev stored : CacheSelector
  stored = set_services t service (s ∷ ss) c

  -- Services that were stored at the time `t` are answered without the registry until twice the
  -- time to live has passed, and the selector does not change.
  pub get-live : now < t + c.ttl + c.ttl → get reg now service stored ≡ (ok (s ∷ ss), stored)
  unfolding get
  get-live h = ground (arith, same_refl service)

  -- Once twice the time to live has passed since services were stored, the registry is asked, and
  -- what it finds is answered and stored anew.
  pub get-expired :
      (found : List Service)
      → t + c.ttl + c.ttl ≤ now
      → reg service ≡ ok found
      → get reg now service stored ≡ (ok found, set_services now service found stored)
  unfolding get
  get-expired found h e = ground (arith, same_refl service)
