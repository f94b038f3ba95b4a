-- ===== src/Mqtt/RoundTrip/Length.antt =====
-- The remaining length: `getRemainingLength` against the loop of `ReadPack`.
use mqant.Prelude.{
  ℕ, ◌+◌, ◌/◌, ◌%◌, ◌<◌, ◌≤◌, ◌≡◌, Bytes, [], ◌∷◌, ◌++◌, some, ltb, if◌then◌else◌, ok, arith,
  set_top_bit,
}
use mqant.Mqtt.Output.{get_remaining_length}
use mqant.Mqtt.Read.{read_length}

-- The groups of seven bits of a length below 128 ^ 3, lowest first.
abbrev pub length_wire : ℕ → Bytes
length_wire n =
    if ltb n 128
    then n ∷ []
    else if ltb n 16384
    then (n % 128 + 128) ∷ (n / 128) ∷ []
    else (n % 128 + 128) ∷ (n / 128 % 128 + 128) ∷ (n / 16384) ∷ []

pub get_remaining_length-eq-length_wire :
    (n : ℕ) → n < 2097152 → get_remaining_length n ≡ some (length_wire n)
unfolding get_remaining_length
get_remaining_length-eq-length_wire n h =
    ground (arith, set_top_bit (n % 128), set_top_bit (n / 128 % 128))

pub read_length-length_wire :
    (n : ℕ) (rest : Bytes) → n < 2097152 → read_length (length_wire n ++ rest) ≡ (ok n, rest)
unfolding read_length
read_length-length_wire n rest h = ground arith

-- The decoder inverts the encoder on every length below 128 ^ 3, whatever follows.
pub read_length-get_remaining_length :
    (n : ℕ) (ds rest : Bytes)
    → n < 2097152
    → get_remaining_length n ≡ some ds
    → read_length (ds ++ rest) ≡ (ok n, rest)
read_length-get_remaining_length n ds rest h e =
    ground (arith, get_remaining_length-eq-length_wire n, read_length-length_wire n rest)

four_groups :
    (n : ℕ)
    → 2097152 ≤ n
    → n < 268435456
    → get_remaining_length n
      ≡ some
          ((n % 128 + 128) ∷ (n / 128 % 128 + 128) ∷ (n / 16384 % 128 + 128) ∷ (n / 2097152) ∷ [])
unfolding get_remaining_length
four_groups n h k =
    ground
      (arith, set_top_bit (n % 128), set_top_bit (n / 128 % 128), set_top_bit (n / 16384 % 128))

four_groups_read :
    (n : ℕ) (rest : Bytes)
    → 2097152 ≤ n
    → read_length
        ((n % 128 + 128) ∷ (n / 128 % 128 + 128) ∷ (n / 16384 % 128 + 128) ∷ (n / 2097152) ∷ rest)
      ≡ (ok (n % 2097152), n / 2097152 ∷ rest)
unfolding read_length
four_groups_read n rest h = ground arith

-- On the lengths from 128 ^ 3 on, which the encoder writes in four bytes, the decoder stops after
-- three: it returns the length modulo 128 ^ 3 and leaves the last length byte in the input.
pub read_length-four_bytes :
    (n : ℕ) (ds rest : Bytes)
    → 2097152 ≤ n
    → n < 268435456
    → get_remaining_length n ≡ some ds
    → read_length (ds ++ rest) ≡ (ok (n % 2097152), n / 2097152 ∷ rest)
read_length-four_bytes n ds rest h k e =
    ground (arith, four_groups n h k, four_groups_read n rest h)
