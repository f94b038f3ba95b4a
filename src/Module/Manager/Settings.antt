-- ===== src/Module/Manager/Settings.antt =====
-- module/base/module_manager.go: which settings `CheckModuleSettings` lets pass.
use mqant.Prelude.{
  Bool, true, false, not, ◌&&◌, ◌||◌, Option, none, some, List, [], ◌∷◌, ◌++◌, Bytes, same,
  same_sym, Dict, find, put, has_key, has_key-put, ◌≡◌, refl, arith, inl, inr, Bool-cases,
  Option-cases,
}
use mqant.Module.Manager.{ModuleSettings, check_settings, check_types, check_module_settings}

abbrev pub member : Bytes → List Bytes → Bool
member x [] = false
member x (y ∷ ys) = same x y || member x ys

-- No text of the list stands twice.
abbrev pub distinct : List Bytes → Bool
distinct [] = true
distinct (x ∷ xs) = not (member x xs) && distinct xs

abbrev pub ids : List ModuleSettings → List Bytes
ids [] = []
ids (s ∷ ss) = s.id ∷ ids ss

abbrev pub process_ids : List ModuleSettings → List Bytes
process_ids [] = []
process_ids (s ∷ ss) = s.process_id ∷ process_ids ss

abbrev pub all_ids : Dict (List ModuleSettings) → List Bytes
all_ids [] = []
all_ids ((t, ss) ∷ m) = ids ss ++ all_ids m

-- In no type does a process stand twice.
abbrev pub processes_distinct : Dict (List ModuleSettings) → Bool
processes_distinct [] = true
processes_distinct ((t, ss) ∷ m) = distinct (process_ids ss) && processes_distinct m

-- No text of the list is a key.
abbrev fresh : List Bytes → Dict Bytes → Bool
fresh [] d = true
fresh (x ∷ xs) d = not (has_key x d) && fresh xs d

abbrev is_some : {A : Type 0} → Option A → Bool
is_some none = false
is_some (some a) = true

has_key-is_some : (k : Bytes) (d : Dict Bytes) → is_some (find k d) ≡ has_key k d
has_key-is_some k [] = refl
has_key-is_some k ((k', v) ∷ d) = ground (arith, has_key-is_some k d)

fresh-put :
    (xs : List Bytes) (k v : Bytes) (d : Dict Bytes)
    → fresh xs (put k v d) ≡ (not (member k xs) && fresh xs d)
fresh-put [] k v d = refl
fresh-put (x ∷ xs) k v d = ground (arith, fresh-put xs k v d, has_key-put k x v d)

fresh-empty : (xs : List Bytes) → fresh xs [] ≡ true
fresh-empty [] = refl
fresh-empty (x ∷ xs) = fresh-empty xs

-- A key that is there is found.
find-has_key : (k : Bytes) (d : Dict Bytes) → has_key k d ≡ true → (v : Bytes) × (find k d ≡ some v)
find-has_key k d e = elim (Option-cases (find k d)) [
  | inl f ↦ absurd (ground (arith, e, f, has_key-is_some k d))
  | inr (v, f) ↦ (v, f)
]

find-no_key : (k : Bytes) (d : Dict Bytes) → has_key k d ≡ false → find k d ≡ none
find-no_key k d e = elim (Option-cases (find k d)) [
  | inl f ↦ f
  | inr (v, f) ↦ absurd (ground (arith, e, f, has_key-is_some k d))
]

check_settings-some :
    (t : Bytes) (ss : List ModuleSettings) (gid pid : Dict Bytes)
    → is_some (check_settings t ss gid pid) ≡ (
        (fresh (ids ss) gid && distinct (ids ss))
        && (fresh (process_ids ss) pid && distinct (process_ids ss)))
unfolding check_settings
check_settings-some t [] gid pid = refl
check_settings-some t (s ∷ ss) gid pid = elim (Bool-cases (has_key s.id gid)) [
  | inl e ↦ let (v, q) = find-has_key s.id gid e in ground (arith, e, q)
  | inr e ↦ elim (Bool-cases (has_key s.process_id pid)) [
    | inl f ↦
        let (v, q) = find-has_key s.process_id pid f in
        ground (arith, e, f, q, find-no_key s.id gid e)
    | inr f ↦ ground (
      arith,
      e,
      f,
      find-no_key s.id gid e,
      find-no_key s.process_id pid f,
      check_settings-some t ss (put s.id t gid) (put s.process_id s.id pid),
      fresh-put (ids ss) s.id t gid,
      fresh-put (process_ids ss) s.process_id s.id pid,
    )
  ]
]

-- The ids that were noted: those of the settings that passed, and those from before.
check_settings-keys :
    (t : Bytes) (ss : List ModuleSettings) (gid pid gid' : Dict Bytes) (j : Bytes)
    → check_settings t ss gid pid ≡ some gid'
    → has_key j gid' ≡ (member j (ids ss) || has_key j gid)
unfolding check_settings
check_settings-keys t [] gid pid gid' j e = ground (arith, e)
check_settings-keys t (s ∷ ss) gid pid gid' j e = elim (Option-cases (find s.id gid)) [
  | inr (v, q) ↦ absurd (ground (arith, e, q))
  | inl q ↦ elim (Option-cases (find s.process_id pid)) [
    | inr (v, r) ↦ absurd (ground (arith, e, q, r))
    | inl r ↦
        let step : check_settings t ss (put s.id t gid) (put s.process_id s.id pid) ≡ some gid' =
          ground (arith, e, q, r) in
        ground (
          arith,
          check_settings-keys t ss (put s.id t gid) (put s.process_id s.id pid) gid' j step,
          has_key-put s.id j t gid,
          same_sym s.id j,
        )
  ]
]

-- No text of the second list is in the first.
abbrev apart : List Bytes → List Bytes → Bool
apart xs [] = true
apart xs (y ∷ ys) = not (member y xs) && apart xs ys

fresh-keys :
    (ys xs : List Bytes) (gid gid' : Dict Bytes)
    → ((j : Bytes) → has_key j gid' ≡ (member j xs || has_key j gid))
    → fresh ys gid' ≡ (apart xs ys && fresh ys gid)
fresh-keys [] xs gid gid' f = refl
fresh-keys (y ∷ ys) xs gid gid' f = ground (arith, f y, fresh-keys ys xs gid gid' f)

fresh-append :
    (xs ys : List Bytes) (d : Dict Bytes) → fresh (xs ++ ys) d ≡ (fresh xs d && fresh ys d)
fresh-append [] ys d = refl
fresh-append (x ∷ xs) ys d = ground (arith, fresh-append xs ys d)

member-append :
    (x : Bytes) (xs ys : List Bytes) → member x (xs ++ ys) ≡ (member x xs || member x ys)
member-append x [] ys = refl
member-append x (y ∷ xs) ys = ground (arith, member-append x xs ys)

apart-cons :
    (x : Bytes) (xs ys : List Bytes) → apart (x ∷ xs) ys ≡ (not (member x ys) && apart xs ys)
apart-cons x xs [] = refl
apart-cons x xs (y ∷ ys) = ground (arith, apart-cons x xs ys, same_sym x y)

apart-nil : (ys : List Bytes) → apart [] ys ≡ true
apart-nil [] = refl
apart-nil (y ∷ ys) = apart-nil ys

distinct-append :
    (xs ys : List Bytes) → distinct (xs ++ ys) ≡ (distinct xs && (apart xs ys && distinct ys))
distinct-append [] ys = ground (arith, apart-nil ys)
distinct-append (x ∷ xs) ys =
    ground (arith, distinct-append xs ys, member-append x xs ys, apart-cons x xs ys)

check_types-some :
    (m : Dict (List ModuleSettings)) (gid : Dict Bytes)
    → is_some (check_types m gid)
      ≡ ((fresh (all_ids m) gid && distinct (all_ids m)) && processes_distinct m)
unfolding check_types
check_types-some [] gid = refl
check_types-some ((t, ss) ∷ m) gid = elim (Option-cases (check_settings t ss gid [])) [
  | inl e ↦ ground (
    arith,
    e,
    check_settings-some t ss gid [],
    fresh-empty (process_ids ss),
    fresh-append (ids ss) (all_ids m) gid,
    distinct-append (ids ss) (all_ids m),
  )
  | inr (gid', e) ↦ ground (
    arith,
    e,
    check_settings-some t ss gid [],
    fresh-empty (process_ids ss),
    fresh-append (ids ss) (all_ids m) gid,
    distinct-append (ids ss) (all_ids m),
    check_types-some m gid',
    fresh-keys (all_ids m) (ids ss) gid gid' (λ j. check_settings-keys t ss gid [] gid' j e),
  )
]

-- The check of the settings passes exactly if no id of a module stands twice, whatever the types,
-- and in no type a process does; so the order in which the map is ranged over makes no difference.
pub check_module_settings-distinct :
    (m : Dict (List ModuleSettings))
    → check_module_settings m ≡ (distinct (all_ids m) && processes_distinct m)
unfolding check_module_settings
check_module_settings-distinct m = elim (Option-cases (check_types m [])) [
  | inl e ↦ ground (arith, e, check_types-some m [], fresh-empty (all_ids m))
  | inr (gid, e) ↦ ground (arith, e, check_types-some m [], fresh-empty (all_ids m))
]
