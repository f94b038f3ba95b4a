-- ===== src/Selector.antt =====
-- selector/: how a client picks an instance of a service.
pub mod Filter
pub mod Strategy
pub mod Cache
pub mod Select
mod Tests
use mqant.Prelude.{Result}
use mqant.Registry.Mock.{RegistryError}

-- The errors of a selector. `not_found` is the selector's own, `registry` one of the registry.
pub data SelectorError : Type 0 where
  not_found none_available : SelectorError
  registry : RegistryError → SelectorError
