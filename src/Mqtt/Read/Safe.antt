-- ===== src/Mqtt/Read/Safe.antt =====
-- A reading call that does not panic and whose values satisfy a predicate, with a rule for each way
-- to build a call.
use mqant.Prelude.{
  ℕ, zero, suc, ◌≤◌, ◌≡◌, refl, Bool, true, false, Bytes, [], ◌∷◌, length, take, drop, Result,
  continue, ok, err, panic, pure, guard, ◌>>=◌, ◌>>◌, arith, if◌then◌else◌,
}
use mqant.Mqtt.Pack.{Error}
use mqant.Mqtt.Input.{Input, read_byte, read_full, read_int, read_string, uint16_be}
use mqant.Mqtt.Read.{read_length, length_loop}

-- The call does not panic, a value that it returns is in `P`, and what it leaves of the input is not
-- longer than `n`.
abbrev pub Post : {A : Type 0} → (A → Type 0) → ℕ → Result Error A × Bytes → Type 0
Post P n (ok a, r) = P a × (length r ≤ n)
Post P n (err e, r) = length r ≤ n
Post P n (panic, r) = ⊥

pub record Safe {A : Type 0} (P : A → Type 0) (m : Input A) : Type 0 where
  pub at : (r : Bytes) → Post P (length r) (m r)

abbrev pub Any : {A : Type 0} → A → Type 0
Any a = Unit

pub Post-le :
    {B : Type 0} (Q : B → Type 0) (k n : ℕ) (x : Result Error B × Bytes)
    → k ≤ n
    → Post Q k x
    → Post Q n x
Post-le Q k n (ok a, r) le h = (h.0, omega arith)
Post-le Q k n (err e, r) le h = omega arith
Post-le Q k n (panic, r) le h = absurd h

module _ {A B : Type 0} {P : A → Type 0} {Q : B → Type 0} where
  Post-continue :
      (n : ℕ) (x : Result Error A × Bytes) (f : A → Input B)
      → Post P n x
      → ((a : A) → P a → Safe Q (f a))
      → Post Q n (continue x f)
  Post-continue n (ok a, r) f h k = Post-le Q (length r) n (f a r) h.1 ((k a h.0).at r)
  Post-continue n (err e, r) f h k = h
  Post-continue n (panic, r) f h k = absurd h

  pub Safe-bind :
      (m : Input A) (f : A → Input B) → Safe P m → ((a : A) → P a → Safe Q (f a)) → Safe Q (m >>= f)
  Safe-bind m f h k = record { at = λ r. Post-continue (length r) (m r) f (h.at r) k }

module _ {A : Type 0} {P : A → Type 0} where
  pub Safe-pure : (a : A) → P a → Safe P (pure a)
  Safe-pure a h = record { at = λ r. (h, omega arith) }

  pub Safe-if :
      (b : Bool) (m n : Input A)
      → (b ≡ true → Safe P m)
      → (b ≡ false → Safe P n)
      → Safe P (if b then m else n)
  Safe-if true m n hm hn = hm refl
  Safe-if false m n hm hn = hn refl

  pub Safe-guard :
      (b : Bool) (e : Error) (k : Input A) → (b ≡ true → Safe P k) → Safe P (guard b e >> k)
  Safe-guard true e k h = record { at = (h refl).at }
  Safe-guard false e k h = record { at = λ r. omega arith }

read_byte_at : (r : Bytes) → Post Any (length r) (read_byte r)
unfolding read_byte
read_byte_at [] = omega arith
read_byte_at (b ∷ r) = omega arith

pub read_byte-Safe : Safe Any read_byte
read_byte-Safe = record { at = read_byte_at }

length-take_le : (n : ℕ) (xs : Bytes) → n ≤ length xs → length (take n xs) ≡ n
length-take_le zero xs h = refl
length-take_le (suc n) [] h = absurd (omega arith)
length-take_le (suc n) (x ∷ xs) h = omega (arith, length-take_le n xs (omega arith))

pub length-drop_le : (n : ℕ) (xs : Bytes) → length (drop n xs) ≤ length xs
length-drop_le zero xs = omega arith
length-drop_le (suc n) [] = omega arith
length-drop_le (suc n) (x ∷ xs) = omega (arith, length-drop_le n xs)

pub read_full-Safe : (n : ℕ) → Safe (λ b. length b ≡ n) (read_full n)
unfolding read_full
read_full-Safe n = record { at = λ r. ground (arith, length-take_le n r, length-drop_le n r) }

pub uint16_be-Safe : (b : Bytes) → length b ≡ 2 → Safe Any (uint16_be b)
unfolding uint16_be
uint16_be-Safe (x ∷ y ∷ r) h = Safe-pure _ tt
uint16_be-Safe (x ∷ []) h = absurd (omega arith)
uint16_be-Safe [] h = absurd (omega arith)

pub read_int-Safe : Safe Any (read_int 2)
unfolding read_int
read_int-Safe = Safe-bind (read_full 2) uint16_be (read_full-Safe 2) uint16_be-Safe

pub read_string-Safe : Safe (λ (p : Bytes × ℕ). length p.0 ≡ p.1) read_string
unfolding read_string
read_string-Safe =
    Safe-bind (read_int 2) _ read_int-Safe
      λ nn _. Safe-bind (read_full nn) _ (read_full-Safe nn) λ b e. Safe-pure (b, nn) e

pub read_text :
    {A : Type 0} {P : A → Type 0} (f : Bytes × ℕ → Input A)
    → ((p : Bytes × ℕ) → Safe P (f p))
    → Safe P (read_string >>= f)
read_text f h = Safe-bind read_string f read_string-Safe λ p _. h p

pub read_number :
    {A : Type 0} {P : A → Type 0} (f : ℕ → Input A)
    → ((n : ℕ) → Safe P (f n))
    → Safe P (read_int 2 >>= f)
read_number f h = Safe-bind (read_int 2) f read_int-Safe λ n _. h n

pub read_one :
    {A : Type 0} {P : A → Type 0} (f : ℕ → Input A)
    → ((n : ℕ) → Safe P (f n))
    → Safe P (read_byte >>= f)
read_one f h = Safe-bind read_byte f read_byte-Safe λ n _. h n

pub ruleset safe_rules = (read_text, read_number, read_one, Safe-guard, Safe-if, Safe-pure)

pub length_loop-Safe : (left b len multiplier : ℕ) → Safe Any (length_loop left b len multiplier)
unfolding length_loop
length_loop-Safe zero b len multiplier = Safe-pure _ tt
length_loop-Safe (suc left) b len multiplier = search (safe_rules, length_loop-Safe left) depth 8

pub read_length-Safe : Safe Any read_length
unfolding read_length
read_length-Safe = Safe-bind read_byte _ read_byte-Safe λ b _. length_loop-Safe 2 b 0 1
