-- ===== src/Prelude/Dicts.antt =====
-- A Go map that the code ranges over: its pairs, in the order of one such range.
use mathlib.Core.Path.{◌≡◌, refl, sym, ap, ◌∙◌}
use mathlib.Core.Logic.{inl, inr}
use mathlib.Core.Bool.{Bool, false, ◌||◌}
use mathlib.Core.List.{List, [], ◌∷◌}
use mathlib.Core.Option.{Option, none, some}
use native.Mathlib.Omega.{arith}
use mqant.Prelude.Tests.{if◌then◌else◌, Bool-cases}
use mqant.Prelude.Lists.{Bytes}
use mqant.Prelude.Texts.{same, same_refl, same→eq}

abbrev pub Dict {ℓ} : Type ℓ → Type ℓ
Dict A = List (Bytes × A)

module _ {ℓ} {A : Type ℓ} where
  -- v, ok := m[k]
  abbrev pub find : Bytes → Dict A → Option A
  find k [] = none
  find k ((k', v) ∷ m) = if same k' k then some v else find k m

  -- m[k] = v
  abbrev pub put : Bytes → A → Dict A → Dict A
  put k v [] = (k, v) ∷ []
  put k v ((k', v') ∷ m) = if same k' k then (k', v) ∷ m else (k', v') ∷ put k v m

  -- delete(m, k)
  abbrev pub erase : Bytes → Dict A → Dict A
  erase k [] = []
  erase k ((k', v) ∷ m) = if same k' k then erase k m else (k', v) ∷ erase k m

  abbrev pub has_key : Bytes → Dict A → Bool
  has_key k [] = false
  has_key k ((k', v) ∷ m) = same k' k || has_key k m

  -- A key stands once.
  abbrev pub IsDict : Dict A → Type 0
  IsDict [] = Unit
  IsDict ((k, v) ∷ m) = (has_key k m ≡ false) × IsDict m

  abbrev pub or_else : Option A → Option A → Option A
  or_else none b = b
  or_else (some a) b = some a

pub same_sym : (a b : Bytes) → same a b ≡ same b a
same_sym a b = elim (Bool-cases (same a b)) [
  | inl e ↦
      ap (λ x. same a x) (sym (same→eq a b e))
      ∙ (same_refl a ∙ sym (same_refl b))
      ∙ ap (λ x. same b x) (sym (same→eq a b e))
  | inr e ↦ elim (Bool-cases (same b a)) [
    | inl f ↦ absurd (ground (arith, e, same→eq b a f, same_refl a))
    | inr f ↦ e ∙ sym f
  ]
]

module _ {ℓ} {A : Type ℓ} where
  pub find-put :
      (k j : Bytes) (v : A) (m : Dict A)
      → find j (put k v m) ≡ (if same k j then some v else find j m)
  find-put k j v [] = refl
  find-put k j v ((k', v') ∷ m) = elim (Bool-cases (same k' k)) [
    | inl e ↦ ground (arith, e, same→eq k' k e)
    | inr e ↦ elim (Bool-cases (same k j)) [
      | inl f ↦ ground (arith, e, f, find-put k j v m, same→eq k j f)
      | inr f ↦ ground (arith, e, f, find-put k j v m)
    ]
  ]

  pub find-erase :
      (k j : Bytes) (m : Dict A) → find j (erase k m) ≡ (if same k j then none else find j m)
  find-erase k j [] = ground arith
  find-erase k j ((k', v') ∷ m) = elim (Bool-cases (same k' k)) [
    | inl e ↦ ground (arith, e, find-erase k j m, same→eq k' k e)
    | inr e ↦ elim (Bool-cases (same k j)) [
      | inl f ↦ ground (arith, e, f, find-erase k j m, same→eq k j f)
      | inr f ↦ ground (arith, e, f, find-erase k j m)
    ]
  ]

pub has_key-put {ℓ} :
    {A : Type ℓ} (k j : Bytes) (v : A) (m : Dict A)
    → has_key j (put k v m) ≡ (same k j || has_key j m)
has_key-put k j v [] = ground arith
has_key-put k j v ((k', v') ∷ m) = elim (Bool-cases (same k' k)) [
  | inl e ↦ ground (arith, e, same→eq k' k e)
  | inr e ↦ ground (arith, e, has_key-put k j v m)
]
