-- ===== src/Registry/Latest/Total.antt =====
-- The indices of `LatestServices`.
use mqant.Prelude.{
  ℕ, suc, ◌+◌, ◌≡◌, refl, ap, sym, ◌∙◌, Bool, true, false, Bool-cases, Option-cases, inl, inr,
  if◌then◌else◌, Option, none, some, List, [], ◌∷◌, Bytes, same, Map, empty, insert, get_elem?,
  arith,
}
use mqant.Registry.{Node, Service}
use mqant.Registry.Latest.{
  Position, key, node_at, not_newer, note_node, note_nodes, note_services, keep_services,
  latest_services,
}

-- Every position in the map is that of a node.
pub record IsValid (services : List Service) (latest : Map Position) : Type 0 where
  pub at :
      (k : Bytes) (p : Position) → latest k ≡ some p → (n : Node) × (node_at services p ≡ some n)

-- The loop did not panic, and the map that it left is valid.
abbrev pub Noted : List Service → Option (Map Position) → Type 0
Noted services none = ⊥
Noted services (some latest) = IsValid services latest

module _ (services : List Service) where
  insert-IsValid :
      (k : Bytes) (p : Position) (n : Node) (latest : Map Position)
      → node_at services p ≡ some n
      → IsValid services latest
      → IsValid services (insert k p latest)
  insert-IsValid k p n latest e v = record { at = λ k' p' h. go k' p' (same k k') h }
    where
      go :
          (k' : Bytes) (p' : Position) (b : Bool)
          → (if b then some p else latest k') ≡ some p'
          → (n' : Node) × (node_at services p' ≡ some n')
      go k' p' true h =
          let same_p : p ≡ p' = ap (λ o. elim o [ none ↦ p | some x ↦ x ]) h in
          (n, ap (λ x. node_at services x) (sym same_p) ∙ e)
      go k' p' false h = v.at k' p' h

  newer-IsValid :
      (b : Bool) (k : Bytes) (p : Position) (n : Node) (latest : Map Position)
      → node_at services p ≡ some n
      → IsValid services latest
      → IsValid services (if b then latest else insert k p latest)
  newer-IsValid true k p n latest e v = v
  newer-IsValid false k p n latest e v = insert-IsValid k p n latest e v

  note_node-Noted :
      (name : Bytes) (node : Node) (p : Position) (latest : Map Position)
      → node_at services p ≡ some node
      → IsValid services latest
      → Noted services (note_node services name node p latest)
  note_node-Noted name node p latest e v = elim (Bool-cases (same node.server_id [])) [
    | inl anonymous ↦ rw anonymous v
    | inr named ↦ elim (Option-cases (latest (key name node))) [
      | inl new ↦ rw (named, new) (insert-IsValid (key name node) p node latest e v)
      | inr (current, seen) ↦
          let (previous, there) = v.at (key name node) current seen in
          rw (named, seen, there)
            (newer-IsValid (not_newer node previous) (key name node) p node latest e v)
    ]
  ]

  Noted-then :
      (o : Option (Map Position)) (f : Map Position → Option (Map Position))
      → Noted services o
      → ((latest : Map Position) → IsValid services latest → Noted services (f latest))
      → Noted services (elim o [ none ↦ none | some latest ↦ f latest ])
  Noted-then none f h k = h
  Noted-then (some latest) f h k = k latest h

  -- The nodes from the index `ni` of the service at `si` on.
  abbrev NodesFrom : ℕ → ℕ → List Node → Type 0
  NodesFrom si ni nodes =
      (j : ℕ) (n : Node) → get_elem? nodes j ≡ some n → node_at services (si, ni + j) ≡ some n

  NodesFrom-next :
      (si ni : ℕ) (n : Node) (nodes : List Node)
      → NodesFrom si ni (n ∷ nodes)
      → NodesFrom si (ni + 1) nodes
  NodesFrom-next si ni n nodes from j m e =
      let same_index : ni + 1 + j ≡ ni + suc j = omega arith in
      ap (λ i. node_at services (si, i)) same_index ∙ from (suc j) m e

  NodesFrom-head :
      (si ni : ℕ) (n : Node) (nodes : List Node)
      → NodesFrom si ni (n ∷ nodes)
      → node_at services (si, ni) ≡ some n
  NodesFrom-head si ni n nodes from =
      let same_index : ni ≡ ni + 0 = omega arith in
      ap (λ i. node_at services (si, i)) same_index ∙ from 0 n refl

  note_nodes-Noted :
      (name : Bytes) (nodes : List Node) (si ni : ℕ) (latest : Map Position)
      → NodesFrom si ni nodes
      → IsValid services latest
      → Noted services (note_nodes services name nodes si ni latest)
  unfolding note_nodes
  note_nodes-Noted name [] si ni latest from v = v
  note_nodes-Noted name (n ∷ nodes) si ni latest from v =
      Noted-then (note_node services name n (si, ni) latest)
        (λ latest'. note_nodes services name nodes si (ni + 1) latest')
        (note_node-Noted name n (si, ni) latest (NodesFrom-head si ni n nodes from) v)
        (λ latest' h.
          note_nodes-Noted name nodes si (ni + 1) latest' (NodesFrom-next si ni n nodes from) h)

  abbrev ServicesFrom : ℕ → List Service → Type 0
  ServicesFrom si ss =
      (i : ℕ) (s : Service) → get_elem? ss i ≡ some s → get_elem? services (si + i) ≡ some s

  ServicesFrom-next :
      (si : ℕ) (s : Service) (ss : List Service)
      → ServicesFrom si (s ∷ ss)
      → ServicesFrom (si + 1) ss
  ServicesFrom-next si s ss from i x e =
      let same_index : si + 1 + i ≡ si + suc i = omega arith in
      ap (λ k. get_elem? services k) same_index ∙ from (suc i) x e

  ServicesFrom-nodes :
      (si : ℕ) (s : Service) (ss : List Service) → ServicesFrom si (s ∷ ss) → NodesFrom si 0 s.nodes
  ServicesFrom-nodes si s ss from j n e =
      let same_index : si ≡ si + 0 = omega arith in
      let here : get_elem? services si ≡ some s =
        ap (λ k. get_elem? services k) same_index ∙ from 0 s refl in
      let same_node : 0 + j ≡ j = omega arith in
      (λ i. elim (here i) [ none ↦ none | some x ↦ get_elem? x.nodes (same_node i) ]) ∙ e

  note_services-Noted :
      (ss : List Service) (si : ℕ) (latest : Map Position)
      → ServicesFrom si ss
      → IsValid services latest
      → Noted services (note_services services ss si latest)
  unfolding note_services
  note_services-Noted [] si latest from v = v
  note_services-Noted (s ∷ ss) si latest from v =
      Noted-then (note_nodes services s.name s.nodes si 0 latest)
        (λ latest'. note_services services ss (si + 1) latest')
        (note_nodes-Noted s.name s.nodes si 0 latest (ServicesFrom-nodes si s ss from) v)
        (λ latest' h. note_services-Noted ss (si + 1) latest' (ServicesFrom-next si s ss from) h)

-- `LatestServices` never panics: every position that it has noted is that of a node.
pub latest_services-some :
    (services : List Service) → (result : List Service) × (latest_services services ≡ some result)
unfolding latest_services
latest_services-some services = go (note_services services services 0 empty) (
    note_services-Noted services services 0 empty
      (λ i s e.
        (let same_index : 0 + i ≡ i = omega arith in ap (λ k. get_elem? services k) same_index) ∙ e)
      (record { at = λ k p h. absurd cc }))
  where
    go :
        (o : Option (Map Position))
        → Noted services o
        → (result : List Service) × ((elim o [
          | none ↦ none
          | some latest ↦ some (keep_services latest services 0)
        ])
            ≡ some result)
    go none h = absurd h
    go (some latest) h = (keep_services latest services 0, refl)
