-- ===== src/Prelude/Texts.antt =====
-- Texts as bytes: equality and order, and maps that are keyed by texts.
use mathlib.Core.Path.{◌≡◌, refl}
use mathlib.Core.Bool.{Bool, true, false, ◌&&◌}
use mathlib.Core.List.{[], ◌∷◌}
use mathlib.Core.Option.{Option, none, some}
use native.Mathlib.Omega.{arith}
use mqant.Prelude.Tests.{◌==◌, ltb, if◌then◌else◌}
use mqant.Prelude.Lists.{Bytes}

-- a == b
abbrev pub same : Bytes → Bytes → Bool
same [] [] = true
same [] (b ∷ ys) = false
same (a ∷ xs) [] = false
same (a ∷ xs) (b ∷ ys) = (a == b) && same xs ys

-- a <= b, byte by byte.
abbrev pub text_leb : Bytes → Bytes → Bool
text_leb [] ys = true
text_leb (a ∷ xs) [] = false
text_leb (a ∷ xs) (b ∷ ys) = if a == b then text_leb xs ys else ltb a b

pub same_refl : (a : Bytes) → same a a ≡ true
same_refl [] = refl
same_refl (x ∷ a) = ground (arith, same_refl a)

pub same→eq : (a b : Bytes) → same a b ≡ true → a ≡ b
same→eq [] [] e = refl
same→eq [] (y ∷ b) e = absurd cc
same→eq (x ∷ a) [] e = absurd cc
same→eq (x ∷ a) (y ∷ b) e = ground (arith, same→eq a b)

-- A Go map: the value of a key, if it has one.
abbrev pub Map {ℓ} : Type ℓ → Type ℓ
Map A = Bytes → Option A

module _ {ℓ} {A : Type ℓ} where
  abbrev pub empty : Map A
  empty k = none

  abbrev pub insert : Bytes → A → Map A → Map A
  insert k v m k' = if same k k' then some v else m k'

  abbrev pub remove : Bytes → Map A → Map A
  remove k m k' = if same k k' then none else m k'
