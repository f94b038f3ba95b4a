-- ===== src/Gate/Session/Settings.antt =====
-- gate/base/session.go: what the loops over the settings of a session leave under a key.
use mqant.Prelude.{
  Bool, true, false, if◌then◌else◌, Option, none, some, [], ◌∷◌, Bytes, same, same→eq, same_sym,
  subst, Dict, find, put, find-put, has_key, has_key-put, IsDict, or_else, ◌≡◌, refl, sym, ap, ◌∙◌,
  inl, inr, arith, Bool-cases, Option-cases,
}
use mqant.Gate.Session.{copy_loop, import_one, import_loop, copied}

pub has_key-find {ℓ} : {A : Type ℓ} (k : Bytes) (m : Dict A) → has_key k m ≡ false → find k m ≡ none
has_key-find k [] h = refl
has_key-find k ((k', v) ∷ m) h = ground (arith, h, has_key-find k m)

pub or_else-none {ℓ} : {A : Type ℓ} (o : Option A) → or_else o none ≡ o
or_else-none none = refl
or_else-none (some a) = refl

-- A loop that writes the pairs of a map without repeated keys: the written ones win.
pub find-copy_loop :
    (k : Bytes) (tmp m : Dict Bytes)
    → IsDict m
    → find k (copy_loop tmp m) ≡ or_else (find k m) (find k tmp)
find-copy_loop k tmp [] d = refl
find-copy_loop k tmp ((k', v) ∷ m) (h, d) = elim (Bool-cases (same k' k)) [
  | inl e ↦ ground (
    arith,
    e,
    find-copy_loop k (put k' v tmp) m d,
    find-put k' k v tmp,
    has_key-find k' m h,
    same→eq k' k e,
  )
  | inr e ↦ ground (arith, e, find-copy_loop k (put k' v tmp) m d, find-put k' k v tmp)
]

pub find-copied : (k : Bytes) (m : Dict Bytes) → IsDict m → find k (copied (some m)) ≡ find k m
find-copied k m d = find-copy_loop k [] m d ∙ or_else-none (find k m)

find-import_one :
    (k k' v : Bytes) (old : Dict Bytes)
    → find k (import_one k' v old) ≡ or_else (find k old) (if same k' k then some v else none)
find-import_one k k' v old = elim (Bool-cases (same k' k)) [
  | inl e ↦ elim (Option-cases (find k old)) [
    | inl f ↦ ground (arith, e, f, same→eq k' k e, find-put k' k v old)
    | inr (x, f) ↦ ground (arith, e, f, same→eq k' k e)
  ]
  | inr e ↦ elim (Option-cases (find k' old)) [
    | inl f ↦ ground (arith, e, f, find-put k' k v old, or_else-none (find k old))
    | inr (x, f) ↦ ground (arith, e, f, or_else-none (find k old))
  ]
]

or_else_if :
    (b : Bool) (o p : Option Bytes) (v : Bytes)
    → or_else (or_else o (if b then some v else none)) p ≡ or_else o (if b then some v else p)
or_else_if b none p v = ground arith
or_else_if b (some x) p v = refl

-- The loop of `ImportSettings`: the keys that were there win.
pub find-import_loop :
    (k : Bytes) (old new : Dict Bytes)
    → find k (import_loop old new) ≡ or_else (find k old) (find k new)
unfolding import_loop
find-import_loop k old [] = sym (or_else-none (find k old))
find-import_loop k old ((k', v) ∷ m) =
    find-import_loop k (import_one k' v old) m
    ∙ ap (λ o. or_else o (find k m)) (find-import_one k k' v old)
    ∙ or_else_if (same k' k) (find k old) (find k m) v

-- The copies have no key twice either.
put-same {ℓ} :
    {A : Type ℓ} (k k' : Bytes) (v v' : A) (m : Dict A)
    → same k' k ≡ true
    → put k v ((k', v') ∷ m) ≡ (k', v) ∷ m
put-same k k' v v' m e = ground (arith, e)

put-other {ℓ} :
    {A : Type ℓ} (k k' : Bytes) (v v' : A) (m : Dict A)
    → same k' k ≡ false
    → put k v ((k', v') ∷ m) ≡ (k', v') ∷ put k v m
put-other k k' v v' m e = ground (arith, e)

pub IsDict-put {ℓ} : {A : Type ℓ} (k : Bytes) (v : A) (m : Dict A) → IsDict m → IsDict (put k v m)
IsDict-put k v [] d = (refl, tt)
IsDict-put k v ((k', v') ∷ m) (h, d) = elim (Bool-cases (same k' k)) [
  | inl e ↦ subst (λ l. IsDict l) (sym (put-same k k' v v' m e)) (h, d)
  | inr e ↦
      subst (λ l. IsDict l) (sym (put-other k k' v v' m e))
        (ground (arith, e, h, has_key-put k k' v m, same_sym k k'), IsDict-put k v m d)
]

pub IsDict-copy_loop : (tmp m : Dict Bytes) → IsDict tmp → IsDict (copy_loop tmp m)
IsDict-copy_loop tmp [] d = d
IsDict-copy_loop tmp ((k, v) ∷ m) d = IsDict-copy_loop (put k v tmp) m (IsDict-put k v tmp d)
