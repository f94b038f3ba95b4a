-- ===== src/Utils/ParamsBytes.antt =====
-- utils/params_bytes.go: Booleans and integers as bytes. An integer of w bits is its bit pattern, a
-- number below 2 ^ w; `none` is the panic on a slice that is too short.
use mqant.Prelude.{
  ℕ, ◌+◌, ◌*◌, ◌/◌, ◌%◌, ◌^◌, ◌<◌, ◌≡◌, refl, ◌==◌, not, Bool, true, false, if◌then◌else◌, Option,
  none, some, [], ◌∷◌, Bytes, arith,
}

-- `BoolToBytes`
unfoldable pub bool_to_bytes : Bool → Bytes
bool_to_bytes v = (if v then 1 else 0) ∷ []

-- `BytesToBool`
unfoldable pub bytes_to_bool : Bytes → Option Bool
bytes_to_bool [] = none
bytes_to_bool (b ∷ buf) = some (not (b == 0))

-- `Int32ToBytes`
unfoldable pub int32_to_bytes : ℕ → Bytes
int32_to_bytes i = i / 2 ^ 24 % 256 ∷ i / 2 ^ 16 % 256 ∷ i / 2 ^ 8 % 256 ∷ i % 256 ∷ []

-- `BytesToInt32`
unfoldable pub bytes_to_int32 : Bytes → Option ℕ
bytes_to_int32 (a ∷ b ∷ c ∷ d ∷ rest) = some (a * 2 ^ 24 + b * 2 ^ 16 + c * 2 ^ 8 + d)
bytes_to_int32 _ = none

-- `Int64ToBytes`
unfoldable pub int64_to_bytes : ℕ → Bytes
int64_to_bytes i =
    i / 2 ^ 56 % 256
    ∷ i / 2 ^ 48 % 256
    ∷ i / 2 ^ 40 % 256
    ∷ i / 2 ^ 32 % 256
    ∷ i / 2 ^ 24 % 256
    ∷ i / 2 ^ 16 % 256
    ∷ i / 2 ^ 8 % 256
    ∷ i % 256
    ∷ []

-- `BytesToInt64`
unfoldable pub bytes_to_int64 : Bytes → Option ℕ
bytes_to_int64 (a ∷ b ∷ c ∷ d ∷ e ∷ f ∷ g ∷ h ∷ rest) =
    some
      (a * 2 ^ 56 + b * 2 ^ 48 + c * 2 ^ 40 + d * 2 ^ 32 + e * 2 ^ 24 + f * 2 ^ 16 + g * 2 ^ 8 + h)
bytes_to_int64 _ = none

-- `Float32ToBytes` on the bits of the number, the low byte first.
unfoldable pub float32_to_bytes : ℕ → Bytes
float32_to_bytes i = i % 256 ∷ i / 2 ^ 8 % 256 ∷ i / 2 ^ 16 % 256 ∷ i / 2 ^ 24 % 256 ∷ []

-- `BytesToFloat32`
unfoldable pub bytes_to_float32 : Bytes → Option ℕ
bytes_to_float32 (a ∷ b ∷ c ∷ d ∷ rest) = some (a + b * 2 ^ 8 + c * 2 ^ 16 + d * 2 ^ 24)
bytes_to_float32 _ = none

-- `Float64ToBytes` on the bits of the number, the low byte first.
unfoldable pub float64_to_bytes : ℕ → Bytes
float64_to_bytes i =
    i % 256
    ∷ i / 2 ^ 8 % 256
    ∷ i / 2 ^ 16 % 256
    ∷ i / 2 ^ 24 % 256
    ∷ i / 2 ^ 32 % 256
    ∷ i / 2 ^ 40 % 256
    ∷ i / 2 ^ 48 % 256
    ∷ i / 2 ^ 56 % 256
    ∷ []

-- `BytesToFloat64`
unfoldable pub bytes_to_float64 : Bytes → Option ℕ
bytes_to_float64 (a ∷ b ∷ c ∷ d ∷ e ∷ f ∷ g ∷ h ∷ rest) =
    some
      (a + b * 2 ^ 8 + c * 2 ^ 16 + d * 2 ^ 24 + e * 2 ^ 32 + f * 2 ^ 40 + g * 2 ^ 48 + h * 2 ^ 56)
bytes_to_float64 _ = none

pub bytes_to_float32-float32_to_bytes :
    (i : ℕ) → i < 2 ^ 32 → bytes_to_float32 (float32_to_bytes i) ≡ some i
unfolding float32_to_bytes bytes_to_float32
bytes_to_float32-float32_to_bytes i h = ground arith

pub bytes_to_float64-float64_to_bytes :
    (i : ℕ) → i < 2 ^ 64 → bytes_to_float64 (float64_to_bytes i) ≡ some i
unfolding float64_to_bytes bytes_to_float64
bytes_to_float64-float64_to_bytes i h = ground arith

-- A Boolean, a 32-bit integer and a 64-bit integer that were written as bytes are read back.
pub from_bytes-to_bytes :
    (v : Bool) (i j : ℕ)
    → i < 2 ^ 32
    → j < 2 ^ 64
    → (bytes_to_bool (bool_to_bytes v) ≡ some v)
      × (bytes_to_int32 (int32_to_bytes i) ≡ some i)
      × (bytes_to_int64 (int64_to_bytes j) ≡ some j)
unfolding bool_to_bytes bytes_to_bool int32_to_bytes bytes_to_int32 int64_to_bytes bytes_to_int64
from_bytes-to_bytes true i j h k = (refl, ground arith, ground arith)
from_bytes-to_bytes false i j h k = (refl, ground arith, ground arith)
