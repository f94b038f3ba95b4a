-- ===== src/Registry/Latest.antt =====
-- registry/latest.go: of the instances of a logical server, the one that started last.
pub mod Total
use mqant.Prelude.{
  ℕ, ◌+◌, ◌==◌, ltb, Bool, not, ◌&&◌, ◌||◌, if◌then◌else◌, Option, none, some, List, [], ◌∷◌, ◌++◌,
  Bytes, same, text_leb, Map, empty, insert, get_elem?,
}
use mqant.Registry.{Node, Service}

-- `position`: the index of a service and that of a node in it.
abbrev pub Position : Type 0
Position = ℕ × ℕ

-- service.Name + "\x00" + node.ServerID
abbrev pub key : Bytes → Node → Bytes
key name node = name ++ 0 ∷ node.server_id

-- `services[p.service].Nodes[p.node]`; `none` is the panic out of range.
abbrev pub node_at : List Service → Position → Option Node
node_at services (si, ni) = elim (get_elem? services si) [
  | none ↦ none
  | some s ↦ get_elem? s.nodes ni
]

-- Is `node` not newer than the node that was seen before?
abbrev pub not_newer : Node → Node → Bool
not_newer node previous =
    ltb node.started_at previous.started_at
    || ((node.started_at == previous.started_at) && text_leb node.instance_id previous.instance_id)

-- The body of the first loop on one node.
abbrev pub note_node : List Service → Bytes → Node → Position → Map Position → Option (Map Position)
note_node services name node p latest =
    if same node.server_id [] then some latest else elim (latest (key name node)) [
      | none ↦ some (insert (key name node) p latest)
      | some current ↦ elim (node_at services current) [
        | none ↦ none
        | some previous ↦
            some (if not_newer node previous then latest else insert (key name node) p latest)
      ]
    ]

-- The loops that fill `latest`.
unfoldable pub note_nodes :
    List Service → Bytes → List Node → ℕ → ℕ → Map Position → Option (Map Position)
note_nodes services name [] si ni latest = some latest
note_nodes services name (node ∷ nodes) si ni latest =
    elim (note_node services name node (si, ni) latest) [
      | none ↦ none
      | some latest' ↦ note_nodes services name nodes si (ni + 1) latest'
    ]

unfoldable pub note_services :
    List Service → List Service → ℕ → Map Position → Option (Map Position)
unfolding note_nodes
note_services services [] si latest = some latest
note_services services (s ∷ ss) si latest = elim (note_nodes services s.name s.nodes si 0 latest) [
  | none ↦ none
  | some latest' ↦ note_services services ss (si + 1) latest'
]

-- `latest[key] != position{si, ni}`; a missing key reads as the position (0, 0).
abbrev pub is_superseded : Map Position → Bytes → Node → Position → Bool
is_superseded latest name node (si, ni) = elim (latest (key name node)) [
  | none ↦ not ((si == 0) && (ni == 0))
  | some (i, j) ↦ not ((i == si) && (j == ni))
]

-- The loops that build the result.
unfoldable pub keep_nodes : Map Position → Bytes → List Node → ℕ → ℕ → List Node
keep_nodes latest name [] si ni = []
keep_nodes latest name (node ∷ nodes) si ni =
    let rest = keep_nodes latest name nodes si (ni + 1) in
    if not (same node.server_id []) && is_superseded latest name node (si, ni)
    then rest
    else node ∷ rest

unfoldable pub keep_services : Map Position → List Service → ℕ → List Service
unfolding keep_nodes
keep_services latest [] si = []
keep_services latest (s ∷ ss) si =
    let rest = keep_services latest ss (si + 1) in
    elim (keep_nodes latest s.name s.nodes si 0) [
      | [] ↦ rest
      | n ∷ ns ↦ record s { nodes = n ∷ ns } ∷ rest
    ]

-- `LatestServices`
unfoldable pub latest_services : List Service → Option (List Service)
unfolding note_services keep_services
latest_services services = elim (note_services services services 0 empty) [
  | none ↦ none
  | some latest ↦ some (keep_services latest services 0)
]
