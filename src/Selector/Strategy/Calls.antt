-- ===== src/Selector/Strategy/Calls.antt =====
-- Which nodes the strategies pick.
use mqant.Prelude.{
  ℕ, zero, suc, ◌+◌, ◌%◌, ◌^◌, ◌<◌, ◌≡◌, ◌≢◌, refl, ◌∙◌, some, List, [], ◌∷◌, length, get_elem?, ok,
  arith,
}
use mqant.Registry.{Node, Service}
use mqant.Selector.Strategy.{all_nodes, round_robin_next}

get_elem?-lt :
    {A : Type 0} (xs : List A) (i : ℕ) → i < length xs → (a : A) × (get_elem? xs i ≡ some a)
get_elem?-lt [] i h = absurd (omega arith)
get_elem?-lt (x ∷ xs) zero h = (x, refl)
get_elem?-lt (x ∷ xs) (suc i) h = get_elem?-lt xs i (omega arith)

-- The counter after `n` calls.
pub after_calls : List Service → ℕ → ℕ → ℕ
after_calls services zero i = i
after_calls services (suc n) i = (round_robin_next services (after_calls services n i)).1

after_calls-sum :
    (services : List Service) (nodes : List Node) (n i : ℕ)
    → all_nodes services ≡ nodes
    → nodes ≢ []
    → i + n < 2 ^ 64
    → after_calls services n i ≡ i + n
unfolding after_calls round_robin_next
after_calls-sum services [] n i e ne h = absurd (ne refl)
after_calls-sum services (x ∷ xs) zero i e ne h = omega arith
after_calls-sum services (x ∷ xs) (suc n) i e ne h =
    ground (arith, after_calls-sum services (x ∷ xs) n i e ne (omega arith))

round_robin_next-at :
    (services : List Service) (nodes : List Node) (node : Node) (i : ℕ)
    → all_nodes services ≡ nodes
    → i < 2 ^ 63
    → get_elem? nodes (i % length nodes) ≡ some node
    → round_robin_next services i ≡ (ok node, i + 1)
unfolding round_robin_next
round_robin_next-at services [] node i e h g = absurd cc
round_robin_next-at services (x ∷ xs) node i e h g = ground (arith, e, g)

-- While the counter, which starts at any number, does not overflow, call n (from 0) of a round robin
-- that starts at `i` returns the node at the index (i + n) modulo the number of nodes: no call fails
-- and the nodes are served in turn.
pub round_robin_next-after_calls :
    (services : List Service) (n i : ℕ)
    → all_nodes services ≢ []
    → i + n < 2 ^ 63
    → (node : Node) × (get_elem? (all_nodes services) ((i + n) % length (all_nodes services))
        ≡ some node)
      × (round_robin_next services (after_calls services n i) ≡ (ok node, i + n + 1))
round_robin_next-after_calls services n i ne h =
    let (node, e) =
      get_elem?-lt (all_nodes services) ((i + n) % length (all_nodes services))
        (remainder (all_nodes services) ne) in
    (
      node,
      e,
      (λ j.
            round_robin_next services
              (after_calls-sum services (all_nodes services) n i refl ne (omega arith) j))
          ∙ round_robin_next-at services (all_nodes services) node (i + n) refl h e,
    )
  where
    remainder : (xs : List Node) → xs ≢ [] → (i + n) % length xs < length xs
    remainder [] ne' = absurd (ne' refl)
    remainder (x ∷ xs) ne' = omega arith
