-- ===== src/Utils/Tests.antt =====
-- The codes on concrete values.
use mqant.Prelude.{◌≡◌, refl, some, [], ◌∷◌, Bytes, arith}
use mqant.Utils.Base62.{int_to_base62, base62_to_int}
use mqant.Utils.Base62.RoundTrip.{base62_to_int-int_to_base62}

-- 1024 = 16 * 62 + 32: the digit `w` before the digit `g`.
encoded : int_to_base62 1024 ≡ some (119 ∷ 103 ∷ [])
unfolding int_to_base62
encoded = refl

base62_to_int-int_to_base62_example :
    (text : Bytes) × (int_to_base62 1024 ≡ some text) × (base62_to_int text ≡ 1024)
base62_to_int-int_to_base62_example = base62_to_int-int_to_base62 1024 (omega arith)
