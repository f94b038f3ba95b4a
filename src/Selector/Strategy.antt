-- ===== src/Selector/Strategy.antt =====
-- selector/strategy.go: the strategies. The number that `rand.Int()` returns is an argument.
pub mod Calls
use mqant.Prelude.{
  ℕ, zero, suc, ◌+◌, ◌-◌, ◌*◌, ◌%◌, ◌^◌, ◌<◌, ◌≤◌, ◌==◌, ltb, ◌≡◌, refl, if◌then◌else◌, Option,
  none, some, List, [], ◌∷◌, ◌++◌, Bytes, length, get_elem?, Exec, Result, ok, err, panic, arith,
}
use mqant.Registry.{Node, Service}
use mqant.Selector.{SelectorError, none_available}

-- The nodes of all services.
abbrev pub all_nodes : List Service → List Node
all_nodes [] = []
all_nodes (s ∷ services) = s.nodes ++ all_nodes services

-- `nodes[i]`
abbrev pub at_index : List Node → ℕ → Result SelectorError Node
at_index nodes i = elim (get_elem? nodes i) [ none ↦ panic | some n ↦ ok n ]

-- One call of what `Random` returns.
unfoldable pub random_next : List Service → ℕ → Result SelectorError Node
random_next services i = elim (all_nodes services) [
  | [] ↦ err none_available
  | n ∷ ns ↦ at_index (n ∷ ns) (i % length (n ∷ ns))
]

-- `nodes[i%len(nodes)]` for an `int` i that is given modulo 2^64: a negative remainder panics.
abbrev pub at_remainder : List Node → ℕ → Result SelectorError Node
at_remainder nodes i =
    if ltb i (2 ^ 63)
    then at_index nodes (i % length nodes)
    else if (2 ^ 64 - i) % length nodes == 0
    then at_index nodes 0
    else panic

-- One call of what `RoundRobin` returns, on its counter.
unfoldable pub round_robin_next : List Service → Exec SelectorError ℕ Node
round_robin_next services i = elim (all_nodes services) [
  | [] ↦ (err none_available, i)
  | n ∷ ns ↦ (at_remainder (n ∷ ns) i, (i + 1) % 2 ^ 64)
]
