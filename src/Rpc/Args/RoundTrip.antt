-- ===== src/Rpc/Args/RoundTrip.antt =====
-- rpc/util/argsutil.go with utils/params_bytes.go: what becomes of a value that is written and read.
use mqant.Prelude.{
  ◌<◌, ◌^◌, true, false, none, some, Bytes, Result, ok, err, panic, ◌≡◌, ◌≢◌, refl, ap, same, arith,
}
use mqant.Utils.ParamsBytes.{
  from_bytes-to_bytes, bytes_to_float32-float32_to_bytes, bytes_to_float64-float64_to_bytes,
}
use mqant.Rpc.Args.{
  Value, nil, string, bool, int32, int64, float32, float64, bytes, map, map_string, trace, other,
  nil_pointer, message, marshaler, null_type, bool_type, int_type, long_type, float_type,
  double_type, bytes_type, string_type, map_type, map_str_type, trace_type, marshal_type,
  proto_type, has_prefix, read_or_panic, read_or_err, not_registered, deserialize_first, Codec,
  TraceSpan, ArgsError, serialize_first, args_type_and_to_bytes, bytes_to_args,
}

-- A type that is none of those of the code itself.
pub record IsOther (t : Bytes) : Type 0 where
  pub not_marshal : has_prefix t marshal_type ≡ false
  pub not_proto : has_prefix t proto_type ≡ false
  pub not_null : same t null_type ≡ false
  pub not_string : same t string_type ≡ false
  pub not_bool : same t bool_type ≡ false
  pub not_int : same t int_type ≡ false
  pub not_long : same t long_type ≡ false
  pub not_float : same t float_type ≡ false
  pub not_double : same t double_type ≡ false
  pub not_bytes : same t bytes_type ≡ false
  pub not_map : same t map_type ≡ false
  pub not_map_str : same t map_str_type ≡ false
  pub not_trace : same t trace_type ≡ false

module _ {J P : Type 0} (c : Codec J P) where
  -- A value is written by one side and read by the other.
  unfoldable pub through : Value J P → Result ArgsError (Value J P)
  through v = elim (args_type_and_to_bytes c v) [
    | ok (ptype, b) ↦ bytes_to_args c ptype b
    | err e ↦ err e
    | panic ↦ panic
  ]

  -- A number fits its width, and JSON writes the value and reads it back; a trace is no such value.
  abbrev pub IsSendable : Value J P → Type 0
  IsSendable (int32 n) = n < 2 ^ 32
  IsSendable (int64 n) = n < 2 ^ 64
  IsSendable (float32 n) = n < 2 ^ 32
  IsSendable (float64 n) = n < 2 ^ 64
  IsSendable (map m) = (b : Bytes) × (c.map_to_bytes m ≡ some b) × (c.bytes_to_map b ≡ some m)
  IsSendable (map_string m) =
      (b : Bytes) × (c.map_string_to_bytes m ≡ some b) × (c.bytes_to_map_string b ≡ some m)
  IsSendable (trace t) = ⊥
  IsSendable _ = Unit

  -- What a value that is no pointer, a pointer, or a value of a registered type arrives as.
  pub data Arrives : Value J P → Value J P → Type 0 where
    plain : (v : Value J P) → ((p : P) → v ≢ other p) → IsSendable v → Arrives v v
    of_trace :
        (t : TraceSpan) (b : Bytes)
        → c.trace_to_bytes t ≡ some b
        → c.bytes_to_trace b ≡ some t
        → Arrives (trace t) (trace (record { trace_id = t.trace_id; span_id = c.new_span }))
    of_nil :
        (p : P)
        → serialize_first c.serializers p ≡ none
        → c.reflect p ≡ nil_pointer
        → Arrives (other p) nil
    of_message :
        (p : P) (name b : Bytes)
        → serialize_first c.serializers p ≡ none
        → c.reflect p ≡ message name (some b)
        → Arrives (other p) (bytes b)
    of_marshaler :
        (p : P) (name b : Bytes)
        → serialize_first c.serializers p ≡ none
        → c.reflect p ≡ marshaler name (some b)
        → Arrives (other p) (bytes b)
    of_registered :
        (p q : P) (t b : Bytes)
        → serialize_first c.serializers p ≡ some (t, b)
        → IsOther t
        → deserialize_first c.serializers t b ≡ some q
        → Arrives (other p) (other q)

  through-plain : (v : Value J P) → ((p : P) → v ≢ other p) → IsSendable v → through v ≡ ok v
  unfolding through args_type_and_to_bytes bytes_to_args
  through-plain nil n h = refl
  through-plain (string s) n h = refl
  through-plain (bool b) n h =
      ap (read_or_panic bool) (from_bytes-to_bytes b 0 0 (omega arith) (omega arith)).0
  through-plain (int32 i) n h =
      ap (read_or_panic int32) (from_bytes-to_bytes true i 0 h (omega arith)).1
  through-plain (int64 i) n h =
      ap (read_or_panic int64) (from_bytes-to_bytes true 0 i (omega arith) h).2
  through-plain (float32 i) n h = ap (read_or_panic float32) (bytes_to_float32-float32_to_bytes i h)
  through-plain (float64 i) n h = ap (read_or_panic float64) (bytes_to_float64-float64_to_bytes i h)
  through-plain (bytes b) n h = refl
  through-plain (map m) n (b, w, r) = ground (arith, w, r)
  through-plain (map_string m) n (b, w, r) = ground (arith, w, r)
  through-plain (trace t) n h = absurd h
  through-plain (other p) n h = absurd (n p refl)

  -- A type that is not the code's own is left to the serializers.
  bytes_to_args-registered :
      (t b : Bytes)
      → IsOther t
      → bytes_to_args c t b ≡ read_or_err not_registered other (deserialize_first c.serializers t b)
  unfolding bytes_to_args
  bytes_to_args-registered t b f = ground (arith, f)

  -- A value that is written as the argument of RPC is read as itself if its numbers fit and JSON
  -- reads what it writes; a trace is read as the same trace with a new span, a nil pointer as nil, a
  -- message or a marshaler as its bytes, and a value of a registered type as its serializers make it.
  pub through-Arrives : (v w : Value J P) → Arrives v w → through v ≡ ok w
  unfolding through args_type_and_to_bytes bytes_to_args
  through-Arrives v w (plain x n h) = through-plain v n h
  through-Arrives v w (of_trace t b e f) = ground (arith, e, f)
  through-Arrives v w (of_nil p e f) = ground (arith, e, f)
  through-Arrives v w (of_message p name b e f) = ground (arith, e, f)
  through-Arrives v w (of_marshaler p name b e f) = ground (arith, e, f)
  through-Arrives v w (of_registered p q t b e f h) =
      ground (arith, e, h, bytes_to_args-registered t b f)
