-- ===== src/Utils/Base62/RoundTrip.antt =====
-- The decoder of base 62 against its encoder.
use mqant.Prelude.{
  ℕ, zero, suc, ◌+◌, ◌*◌, ◌/◌, ◌%◌, ◌^◌, ◌<◌, ◌≡◌, ◌≢◌, Option-cases, ◌==◌, refl, ap, ◌∙◌,
  Bool-cases, inl, inr, [], ◌∷◌, Bytes, some, arith,
}
use native.Mathlib.Nat.{pow-suc, mod-eq_of_lt}
use mqant.Utils.Base62.{code62, edoc, digits_loop, int_to_base62, decode_loop, base62_to_int}

edoc-code62 : (d : ℕ) → d < 62 → edoc (code62 d) ≡ d
unfolding edoc code62
edoc-code62 d h = ground arith

pow-next : (i : ℕ) → 62 ^ (i + 1) ≡ 62 ^ i * 62
pow-next i = let next : i + 1 ≡ suc i = omega arith in ap (λ k. 62 ^ k) next ∙ pow-suc 62 i

-- A number by its lowest digit and the rest, at the weight `w`.
split-weight : (n w : ℕ) → n * w ≡ n % 62 * w + n / 62 * (w * 62)
split-weight n w =
    let parts : n ≡ n % 62 + n / 62 * 62 = omega arith in ap (λ x. x * w) parts ∙ omega arith

-- The lowest digit and the rest of a text that was encoded.
digits-step :
    (fuel n : ℕ) (ds : Bytes)
    → digits_loop (suc fuel) n ≡ some ds
    → n ≢ 0
    → (rest : Bytes) × (digits_loop fuel (n / 62) ≡ some rest) × (ds ≡ code62 (n % 62) ∷ rest)
unfolding digits_loop
digits-step fuel n ds e ne = elim (Option-cases (digits_loop fuel (n / 62))) [
  | inl stuck ↦ ground (arith, stuck)
  | inr (rest, r) ↦ (rest, r, ground (arith, r))
]

digits-zero : (fuel : ℕ) (ds : Bytes) → digits_loop fuel 0 ≡ some ds → ds ≡ []
unfolding digits_loop
digits-zero zero ds e = ground arith
digits-zero (suc fuel) ds e = ground arith

digits-some : (fuel n : ℕ) → n < 62 ^ fuel → (ds : Bytes) × (digits_loop fuel n ≡ some ds)
unfolding digits_loop
digits-some zero n h = ([], ground arith)
digits-some (suc fuel) n h =
    let (rest, r) = digits-some fuel (n / 62) (omega (arith, pow-suc 62 fuel)) in
    elim (Bool-cases (n == 0)) [
      | inl e ↦ ([], ground (arith, e))
      | inr e ↦ (code62 (n % 62) ∷ rest, ground (arith, e, r))
    ]

-- The digits of `n`, read from the weight 62 ^ i on, add n * 62 ^ i to the result.
decode-digits :
    (fuel n i result : ℕ) (ds : Bytes)
    → digits_loop fuel n ≡ some ds
    → result + n * 62 ^ i < 2 ^ 64
    → decode_loop i result ds ≡ result + n * 62 ^ i
unfolding decode_loop
decode-digits fuel zero i result ds e h =
    ap (λ x. decode_loop i result x) (digits-zero fuel ds e) ∙ omega arith
decode-digits zero (suc n) i result ds e h = unfold digits_loop in ground (arith, e)
decode-digits (suc fuel) (suc n) i result ds e h =
    let (rest, r, shape) = digits-step fuel (suc n) ds e (omega arith) in
    let w : ℕ = 62 ^ i in
    let split : suc n * w ≡ suc n % 62 * w + suc n / 62 * (w * 62) = split-weight (suc n) w in
    let next : result + suc n % 62 * w + suc n / 62 * 62 ^ (i + 1) ≡ result + suc n * w =
      ap (λ p. result + suc n % 62 * w + suc n / 62 * p) (pow-next i) ∙ omega (arith, split) in
    let small : result + edoc (code62 (suc n % 62)) * w ≡ result + suc n % 62 * w =
      ap (λ d. result + d * w) (edoc-code62 (suc n % 62) (omega arith)) in
    let wrapped : (result + edoc (code62 (suc n % 62)) * w) % 2 ^ 64 ≡ result + suc n % 62 * w =
      ap (λ x. x % 2 ^ 64) small ∙ mod-eq_of_lt (omega (arith, split, h)) in
    ap (λ x. decode_loop i result x) shape
    ∙ ap (λ x. decode_loop (i + 1) x rest) wrapped
    ∙ decode-digits fuel (suc n / 62) (i + 1) (result + suc n % 62 * w) rest r
        (omega (arith, next, h))
    ∙ next

-- Decoding inverts encoding on every `int64` that is not negative: the encoder ends, and its text is
-- read back as the number.
pub base62_to_int-int_to_base62 :
    (n : ℕ) → n < 2 ^ 63 → (text : Bytes) × (int_to_base62 n ≡ some text) × (base62_to_int text ≡ n)
unfolding int_to_base62 base62_to_int
base62_to_int-int_to_base62 zero h = (48 ∷ [], refl, unfold decode_loop edoc in refl)
base62_to_int-int_to_base62 (suc n) h =
    let (text, e) = digits-some 11 (suc n) (omega arith) in
    (text, ground (arith, e), decode-digits 11 (suc n) 0 0 text e (omega arith) ∙ omega arith)
