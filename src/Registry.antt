-- ===== src/Registry.antt =====
-- registry/service.go: what a registry knows of the services, and the modules that work on it.
pub mod Mock
pub mod Latest
pub mod Watcher
mod Tests
use mqant.Prelude.{ℕ, Option, List, Bytes}

mutual
  pub data Value : Type 0 where
    value : (name typ : Bytes) → Values → Value

  pub data Values : Type 0 where
    no_values : Values
    more_values : Value → Values → Values

-- `map[string]string`: the pairs, at most one of a key.
abbrev pub Metadata : Type 0
Metadata = List (Bytes × Bytes)

-- `started_at` counts the nanoseconds since 1970.
pub record Node : Type 0 where
  pub started_at : ℕ
  pub server_id : Bytes
  pub instance_id : Bytes
  pub address : Bytes
  pub port : ℕ
  pub metadata : Option Metadata

pub record Endpoint : Type 0 where
  pub name : Bytes
  pub request : Option Value
  pub response : Option Value
  pub metadata : Option Metadata

pub record Service : Type 0 where
  pub name : Bytes
  pub version : Bytes
  pub metadata : Option Metadata
  pub endpoints : List Endpoint
  pub nodes : List Node
