-- ===== src/Utils/Base62.antt =====
-- utils/base62.go: numbers as texts in base 62, the lowest digit first. `math.Pow(62, i)` is exact
-- up to i = 10, and an `int64` has 11 digits at most. A text is taken without the space that
-- `strings.TrimSpace` drops; `int64` arithmetic is modulo 2 ^ 64.
pub mod RoundTrip
use mqant.Prelude.{
  ℕ, zero, suc, ◌+◌, ◌-◌, ◌*◌, ◌/◌, ◌%◌, ◌^◌, ltb, leb, ◌==◌, ◌&&◌, Bool, if◌then◌else◌, List, [],
  ◌∷◌, Bytes, Option, none, some,
}

-- `CODE62[d]`
unfoldable pub code62 : ℕ → ℕ
code62 d = if ltb d 10 then 48 + d else if ltb d 36 then 87 + d else 29 + d

-- `EDOC[string(char)]`: 0 on a missing key.
unfoldable pub edoc : ℕ → ℕ
edoc c =
    if leb 48 c && leb c 57
    then c - 48
    else if leb 97 c && leb c 122
    then c - 87
    else if leb 65 c && leb c 90
    then c - 29
    else 0

-- The loop of `IntToBase62`, on a number that is not negative, with fuel; `none` at no fuel.
unfoldable pub digits_loop : ℕ → ℕ → Option Bytes
unfolding code62
digits_loop zero n = if n == 0 then some [] else none
digits_loop (suc fuel) n =
    let rest = digits_loop fuel (n / 62) in
    if n == 0 then some [] else elim rest [ none ↦ none | some ds ↦ some (code62 (n % 62) ∷ ds) ]

-- `IntToBase62`: 11 rounds are enough for an `int64`.
unfoldable pub int_to_base62 : ℕ → Option Bytes
unfolding digits_loop
int_to_base62 n = if n == 0 then some (48 ∷ []) else digits_loop 11 n

-- The loop of `Base62ToInt` from the index `i` on.
unfoldable pub decode_loop : ℕ → ℕ → Bytes → ℕ
unfolding edoc
decode_loop i result [] = result
decode_loop i result (c ∷ cs) = decode_loop (i + 1) ((result + edoc c * 62 ^ i) % 2 ^ 64) cs

-- `Base62ToInt`
unfoldable pub base62_to_int : Bytes → ℕ
unfolding decode_loop
base62_to_int cs = decode_loop 0 0 cs
