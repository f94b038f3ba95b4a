-- ===== src/Selector/Filter.antt =====
-- selector/filter.go
pub mod Labels
use mqant.Prelude.{
  Bool, true, false, ◌&&◌, not, if◌then◌else◌, Option, none, some, List, [], ◌∷◌, Bytes, same, any,
  filter_out,
}
use mqant.Registry.{Node, Service, Metadata}

-- A `Filter` of the selector.
abbrev pub Filter : Type 0
Filter = List Service → List Service

-- `FilterEndpoint(name)`
unfoldable pub filter_endpoint : Bytes → Filter
filter_endpoint name old = filter_out (λ s. not (any (λ ep. same ep.name name) s.endpoints)) old

-- `metadata[key]`: the empty text on a missing key.
abbrev pub label_of : Bytes → Metadata → Bytes
label_of key [] = []
label_of key ((k, v) ∷ rest) = if same k key then v else label_of key rest

abbrev pub is_labelled : Bytes → Bytes → Node → Bool
is_labelled key val node = elim node.metadata [
  | none ↦ false
  | some metadata ↦ same (label_of key metadata) val
]

-- `FilterLabel(key, val)`
unfoldable pub filter_label : Bytes → Bytes → Filter
filter_label key val [] = []
filter_label key val (s ∷ old) =
    let rest = filter_label key val old in
    elim (filter_out (λ n. not (is_labelled key val n)) s.nodes) [
      | [] ↦ rest
      | n ∷ ns ↦ record s { nodes = n ∷ ns } ∷ rest
    ]

-- `FilterVersion(version)`
unfoldable pub filter_version : Bytes → Filter
filter_version version old = filter_out (λ s. not (same s.version version)) old
