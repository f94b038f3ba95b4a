-- ===== src/Selector/Filter/Labels.antt =====
-- The nodes that pass the label filter.
use mqant.Prelude.{
  ◌≡◌, refl, ap, ◌∙◌, sym, not, Bool, List, [], ◌∷◌, ◌++◌, Bytes, filter_out, arith, Bool-cases,
  inl, inr, false, none, some, Dict, find, same, Option-cases,
}
use mathlib.Core.Path.{fun_ext}
use mqant.Registry.{Node, Service}
use mqant.Selector.Filter.{filter_label, is_labelled, label_of}
use mqant.Selector.Strategy.{all_nodes}

filter_out-append :
    {A : Type 0} (p : A → Bool) (xs ys : List A)
    → filter_out p (xs ++ ys) ≡ filter_out p xs ++ filter_out p ys
filter_out-append p [] ys = refl
filter_out-append p (x ∷ xs) ys = elim (Bool-cases (p x)) [
  | inl e ↦ rw e (filter_out-append p xs ys)
  | inr e ↦ rw e (ap (◌∷◌ x) (filter_out-append p xs ys))
]

filter_label-step :
    (key val : Bytes) (s : Service) (old : List Service) (nodes : List Node)
    → filter_out (λ n. not (is_labelled key val n)) s.nodes ≡ nodes
    → all_nodes (filter_label key val (s ∷ old)) ≡ nodes ++ all_nodes (filter_label key val old)
unfolding filter_label
filter_label-step key val s old [] e = ground (arith, e)
filter_label-step key val s old (n ∷ ns) e = ground (arith, e)

-- The metadata of a node give the label: it has metadata, and they have the value under the key, or
-- no such key where the value is empty.
abbrev pub carries_label : Bytes → Bytes → Node → Bool
carries_label key val node = elim node.metadata [
  | none ↦ false
  | some m ↦ elim (find key m) [ none ↦ same [] val | some v ↦ same v val ]
]

label_of-find :
    (key : Bytes) (m : Dict Bytes) → label_of key m ≡ (elim (find key m) [ none ↦ [] | some v ↦ v ])
label_of-find key [] = refl
label_of-find key ((k, v) ∷ m) = elim (Bool-cases (same k key)) [
  | inl e ↦ ground (arith, e)
  | inr e ↦ ground (arith, e, label_of-find key m)
]

is_labelled-carries_label :
    (key val : Bytes) (n : Node) → is_labelled key val n ≡ carries_label key val n
is_labelled-carries_label key val n = elim (Option-cases n.metadata) [
  | inl e ↦ ground (arith, e)
  | inr (m, e) ↦ elim (Option-cases (find key m)) [
    | inl f ↦ ground (arith, e, f, label_of-find key m)
    | inr (v, f) ↦ ground (arith, e, f, label_of-find key m)
  ]
]

filtered :
    (key val : Bytes) (services : List Service)
    → all_nodes (filter_label key val services)
      ≡ filter_out (λ n. not (is_labelled key val n)) (all_nodes services)
filtered key val [] = unfold filter_label in refl
filtered key val (s ∷ services) =
    filter_label-step key val s services _ refl
    ∙ ap (λ rest. filter_out (λ n. not (is_labelled key val n)) s.nodes ++ rest)
        (filtered key val services)
    ∙ sym (filter_out-append (λ n. not (is_labelled key val n)) s.nodes (all_nodes services))

-- The label filter keeps exactly the nodes with metadata that have the value under the key, or that
-- have no such key if the value is empty, in order, whatever service they belong to.
pub all_nodes-filter_label :
    (key val : Bytes) (services : List Service)
    → all_nodes (filter_label key val services)
      ≡ filter_out (λ n. not (carries_label key val n)) (all_nodes services)
all_nodes-filter_label key val services =
    filtered key val services
    ∙ ap (λ p. filter_out (λ n. not (p n)) (all_nodes services))
        (fun_ext (is_labelled-carries_label key val))
