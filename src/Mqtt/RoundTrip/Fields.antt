-- ===== src/Mqtt/RoundTrip/Fields.antt =====
-- The first byte of a packet, numbers of 16 bits and texts, and the frame round a packet's body.
use mqant.Prelude.{
  ℕ, ◌+◌, ◌*◌, ◌/◌, ◌%◌, ◌<◌, ◌≤◌, ◌≡◌, refl, Bytes, [], ◌∷◌, ◌++◌, length, some, ok, arith, bit_or,
  shl8, shr, low_bits, agree_below, agree_below→eq, append_assoc, le→leb, sym, ◌∙◌,
}
use mqant.Mqtt.Pack.{Pack, Variable}
use mqant.Mqtt.Input.{read_full, read_int, read_string, uint16_be, read_full-append}
use mqant.Mqtt.Output.{
  Writer, IsHealthy, Writes, Writes-bind, uint16_bytes, write_full-Writes, write-Writes, write_int,
  write_string, write_byte,
}
use mqant.Mqtt.Read.{read_variable, read_pack}
use mqant.Mqtt.Write.{fixed_header, write_length_byte, write_variable, delay_write_pack}
use mqant.Mqtt.RoundTrip.Length.{
  length_wire, read_length-length_wire, get_remaining_length-eq-length_wire,
}

-- The fields of the first byte are as wide as their masks.
pub record HasHeader (pack : Pack) : Type 0 where
  pub typed : pack.msg_type < 16
  pub dup : pack.dup_flag < 2
  pub qos : pack.qos_level < 4

abbrev joined : ℕ → ℕ
joined i = bit_or (bit_or (shl8 (i / 8) 4) (shl8 (i / 4 % 2) 3)) (shl8 (i % 4) 1)

joined_lem : (i : ℕ) → i < 128 → joined i ≡ i * 2
unfolding agree_below
joined_lem = agree_below→eq joined (λ i. i * 2) 128 refl

header_number : (pack : Pack) → ℕ
header_number pack = pack.msg_type * 8 + pack.dup_flag * 4 + pack.qos_level

pub fixed_header_lem :
    (pack : Pack)
    → HasHeader pack
    → fixed_header pack ≡ pack.msg_type * 16 + pack.dup_flag * 8 + pack.qos_level * 2
unfolding fixed_header
fixed_header_lem pack h =
    let i : ℕ = pack.msg_type * 8 + pack.dup_flag * 4 + pack.qos_level in
    let a : i / 8 ≡ pack.msg_type = omega arith in
    let b : i / 4 % 2 ≡ pack.dup_flag = omega arith in
    let c : i % 4 ≡ pack.qos_level = omega arith in
    (λ j. bit_or (bit_or (shl8 (sym a j) 4) (shl8 (sym b j) 3)) (shl8 (sym c j) 1))
    ∙ joined_lem i (omega arith)
    ∙ omega arith

pub read_int-uint16_bytes :
    (i : ℕ) (rest : Bytes) → i < 65536 → read_int 2 (uint16_bytes i ++ rest) ≡ (ok i, rest)
unfolding read_int read_full uint16_be
read_int-uint16_bytes i rest h = ground arith

pub read_string-wire :
    (s rest : Bytes)
    → length s < 65536
    → read_string (uint16_bytes (length s) ++ (s ++ rest)) ≡ (ok (s, length s), rest)
unfolding read_string
read_string-wire s rest h =
    rw (read_int-uint16_bytes (length s) (s ++ rest) h, read_full-append s rest)

pub write_int-Writes :
    (i : ℕ) (w : Writer) → IsHealthy w → Writes (uint16_bytes i) w (write_int i w)
unfolding write_int
write_int-Writes i w h = write_full-Writes (uint16_bytes i) w h

pub write_string-Writes :
    (s : Bytes) (w : Writer)
    → IsHealthy w
    → Writes (uint16_bytes (length s) ++ s) w (write_string (some s) w)
unfolding write_string
write_string-Writes s w h =
    Writes-bind (write_int (length s)) _ (uint16_bytes (length s)) s w
      (write_int-Writes (length s) w h) (write_full-Writes s)

pub write_length_byte-Writes :
    (n : ℕ) (w : Writer) → n < 128 → IsHealthy w → Writes (n ∷ []) w (write_length_byte n w)
unfolding write_length_byte
write_length_byte-Writes n w k h =
    ground (arith, get_remaining_length-eq-length_wire n, write-Writes (n ∷ []) w h)

-- The bytes of a packet: the first byte, the length and the body.
abbrev pub frame : Pack → ℕ → Bytes → Bytes
frame pack len body = fixed_header pack ∷ (length_wire len ++ body)

-- A frame is read back if its body is.
pub read_pack-frame :
    (pack : Pack) (max len : ℕ) (body rest : Bytes) (v : Variable)
    → HasHeader pack
    → len < 2097152
    → len ≤ max
    → read_variable pack.msg_type pack.qos_level len (body ++ rest) ≡ (ok v, rest)
    → read_pack max (frame pack len body ++ rest)
      ≡ (ok (record pack { retain = 0; length = len; variable = v }), rest)
unfolding read_pack
read_pack-frame pack max len body rest v h small fits e =
    let x : ℕ = pack.msg_type * 16 + pack.dup_flag * 8 + pack.qos_level * 2 in
    let typ : shr x 4 ≡ pack.msg_type = omega arith in
    let dup : shr (low_bits x 4) 3 ≡ pack.dup_flag = omega arith in
    let qos : shr (low_bits x 3) 1 ≡ pack.qos_level = omega arith in
    let retain : low_bits x 1 ≡ 0 = omega arith in
    rw (
      fixed_header_lem pack h,
      append_assoc (length_wire len) body rest,
      read_length-length_wire len (body ++ rest) small,
      le→leb len max fits,
      typ,
      dup,
      qos,
      retain,
      e,
    )

-- `pack` is written without an error, and whatever follows on the connection, the decoder with the
-- bound `max` returns `got` and leaves what follows.
pub record Transmits (max : ℕ) (pack got : Pack) (w : Writer) : Type 0 where
  pub wire : Bytes
  pub writes : Writes wire w (delay_write_pack pack w)
  pub reads : (rest : Bytes) → read_pack max (wire ++ rest) ≡ (ok got, rest)

-- What the decoder makes of the fields of `pack` round the body `v`.
abbrev pub received : Pack → ℕ → Variable → Pack
received pack len v = record pack { retain = 0; length = len; variable = v }

pub delay_write_pack-Writes :
    (pack : Pack) (bytes : Bytes) (w : Writer)
    → IsHealthy w
    → ((w' : Writer) → IsHealthy w' → Writes bytes w' (write_variable pack w'))
    → Writes (fixed_header pack ∷ bytes) w (delay_write_pack pack w)
unfolding delay_write_pack
delay_write_pack-Writes pack bytes w healthy writes =
    Writes-bind (write_byte (fixed_header pack)) (write_variable pack) (fixed_header pack ∷ [])
      bytes w (write-Writes _ w healthy) writes

pub Transmits-frame :
    (pack : Pack) (max len : ℕ) (body : Bytes) (v : Variable) (w : Writer)
    → HasHeader pack
    → len < 2097152
    → len ≤ max
    → IsHealthy w
    → ((w' : Writer) → IsHealthy w' → Writes (length_wire len ++ body) w' (write_variable pack w'))
    → ((rest : Bytes)
        → read_variable pack.msg_type pack.qos_level len (body ++ rest) ≡ (ok v, rest))
    → Transmits max pack (received pack len v) w
Transmits-frame pack max len body v w h small fits healthy writes reads = record {
  wire = frame pack len body;
  writes = delay_write_pack-Writes pack (length_wire len ++ body) w healthy writes;
  reads = λ rest. read_pack-frame pack max len body rest v h small fits (reads rest);
}
