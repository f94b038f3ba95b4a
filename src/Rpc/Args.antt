-- ===== src/Rpc/Args.antt =====
-- rpc/util/argsutil.go: how the arguments and the results of RPC are written as a type and bytes, and
-- read. JSON, `proto.Marshal` and the serializers that the application has registered are parameters.
-- A number of w bits is its bit pattern.
pub mod RoundTrip
use mqant.Prelude.{
  ℕ, Bool, true, false, ◌&&◌, ◌==◌, if◌then◌else◌, Option, none, some, List, [], ◌∷◌, ◌++◌, Bytes,
  same, Dict, Result, ok, err, panic,
}
use mqant.Utils.ParamsBytes.{
  bool_to_bytes, bytes_to_bool, int32_to_bytes, bytes_to_int32, int64_to_bytes, bytes_to_int64,
  float32_to_bytes, bytes_to_float32, float64_to_bytes, bytes_to_float64,
}

-- "null"
abbrev pub null_type : Bytes
null_type = 110 ∷ 117 ∷ 108 ∷ 108 ∷ []

-- "bool"
abbrev pub bool_type : Bytes
bool_type = 98 ∷ 111 ∷ 111 ∷ 108 ∷ []

-- "int"
abbrev pub int_type : Bytes
int_type = 105 ∷ 110 ∷ 116 ∷ []

-- "long"
abbrev pub long_type : Bytes
long_type = 108 ∷ 111 ∷ 110 ∷ 103 ∷ []

-- "float"
abbrev pub float_type : Bytes
float_type = 102 ∷ 108 ∷ 111 ∷ 97 ∷ 116 ∷ []

-- "double"
abbrev pub double_type : Bytes
double_type = 100 ∷ 111 ∷ 117 ∷ 98 ∷ 108 ∷ 101 ∷ []

-- "bytes"
abbrev pub bytes_type : Bytes
bytes_type = 98 ∷ 121 ∷ 116 ∷ 101 ∷ 115 ∷ []

-- "string"
abbrev pub string_type : Bytes
string_type = 115 ∷ 116 ∷ 114 ∷ 105 ∷ 110 ∷ 103 ∷ []

-- "map"
abbrev pub map_type : Bytes
map_type = 109 ∷ 97 ∷ 112 ∷ []

-- "mapstr"
abbrev pub map_str_type : Bytes
map_str_type = 109 ∷ 97 ∷ 112 ∷ 115 ∷ 116 ∷ 114 ∷ []

-- "trace"
abbrev pub trace_type : Bytes
trace_type = 116 ∷ 114 ∷ 97 ∷ 99 ∷ 101 ∷ []

-- "marshal"
abbrev pub marshal_type : Bytes
marshal_type = 109 ∷ 97 ∷ 114 ∷ 115 ∷ 104 ∷ 97 ∷ 108 ∷ []

-- "proto"
abbrev pub proto_type : Bytes
proto_type = 112 ∷ 114 ∷ 111 ∷ 116 ∷ 111 ∷ []

-- What `reflect` finds of a value that no case names: for a pointer to a message or a marshaler, the
-- text of its type and the bytes that its `Marshal` gives.
pub data Pointed : Type 0 where
  not_pointer : Pointed
  nil_pointer : Pointed
  message : Bytes → Option Bytes → Pointed
  marshaler : Bytes → Option Bytes → Pointed
  unknown : Pointed

-- `TraceSpanImp`
pub record TraceSpan : Type 0 where
  pub trace_id : Bytes
  pub span_id : Bytes

-- `ExtractSpan` with a new id: the same trace.
abbrev pub extract_span : Bytes → TraceSpan → TraceSpan
extract_span span t = record { trace_id = t.trace_id; span_id = span }

-- A value behind an `interface{}`; J are the maps to any value, P all else.
pub data Value (J P : Type 0) : Type 0 where
  nil : Value J P
  string : Bytes → Value J P
  bool : Bool → Value J P
  int32 : ℕ → Value J P
  int64 : ℕ → Value J P
  float32 : ℕ → Value J P
  float64 : ℕ → Value J P
  bytes : Bytes → Value J P
  map : J → Value J P
  map_string : Dict Bytes → Value J P
  trace : TraceSpan → Value J P
  other : P → Value J P

pub data ArgsError : Type 0 where
  marshal_failed : ArgsError
  unmarshal_failed : ArgsError
  not_registered : ArgsError

-- An entry of `app.GetRPCSerialize()`; `none` is an error.
pub record Serializer (P : Type 0) : Type 0 where
  pub serialize : P → Option (Bytes × Bytes)
  pub deserialize : Bytes → Bytes → Option P

pub record Codec (J P : Type 0) : Type 0 where
  pub map_to_bytes : J → Option Bytes
  pub bytes_to_map : Bytes → Option J
  pub map_string_to_bytes : Dict Bytes → Option Bytes
  pub bytes_to_map_string : Bytes → Option (Dict Bytes)
  pub trace_to_bytes : TraceSpan → Option Bytes
  pub bytes_to_trace : Bytes → Option TraceSpan
  -- The id that `GenerateID` makes.
  pub new_span : Bytes
  pub serializers : List (Serializer P)
  pub reflect : P → Pointed

abbrev marshalled : {A : Type 0} → A → Option Bytes → Result ArgsError (A × Bytes)
marshalled ptype none = err marshal_failed
marshalled ptype (some b) = ok (ptype, b)

-- The end of `ArgsTypeAnd2Bytes`; "@" stands between the two parts of a type.
abbrev pub reflected : Pointed → Result ArgsError (Bytes × Bytes)
reflected not_pointer = err not_registered
reflected nil_pointer = ok (null_type, [])
reflected (message name b) = marshalled (proto_type ++ 64 ∷ name) b
reflected (marshaler name b) = marshalled (marshal_type ++ 64 ∷ name) b
reflected unknown = err not_registered

-- strings.HasPrefix(s, prefix)
abbrev pub has_prefix : Bytes → Bytes → Bool
has_prefix s [] = true
has_prefix [] (x ∷ prefix) = false
has_prefix (y ∷ s) (x ∷ prefix) = (y == x) && has_prefix s prefix

module _ {P : Type 0} where
  -- The loop over the serializers: the first that takes the value.
  abbrev pub serialize_first : List (Serializer P) → P → Option (Bytes × Bytes)
  serialize_first [] p = none
  serialize_first (s ∷ ss) p = elim (s.serialize p) [
    | some r ↦ some r
    | none ↦ serialize_first ss p
  ]

  abbrev pub deserialize_first : List (Serializer P) → Bytes → Bytes → Option P
  deserialize_first [] ptype b = none
  deserialize_first (s ∷ ss) ptype b = elim (s.deserialize ptype b) [
    | some r ↦ some r
    | none ↦ deserialize_first ss ptype b
  ]

module _ {J P : Type 0} where
  -- `ArgsTypeAnd2Bytes`
  unfoldable pub args_type_and_to_bytes : Codec J P → Value J P → Result ArgsError (Bytes × Bytes)
  args_type_and_to_bytes c nil = ok (null_type, [])
  args_type_and_to_bytes c (string s) = ok (string_type, s)
  args_type_and_to_bytes c (bool b) = ok (bool_type, bool_to_bytes b)
  args_type_and_to_bytes c (int32 n) = ok (int_type, int32_to_bytes n)
  args_type_and_to_bytes c (int64 n) = ok (long_type, int64_to_bytes n)
  args_type_and_to_bytes c (float32 n) = ok (float_type, float32_to_bytes n)
  args_type_and_to_bytes c (float64 n) = ok (double_type, float64_to_bytes n)
  args_type_and_to_bytes c (bytes b) = ok (bytes_type, b)
  args_type_and_to_bytes c (map m) = marshalled map_type (c.map_to_bytes m)
  args_type_and_to_bytes c (map_string m) = marshalled map_str_type (c.map_string_to_bytes m)
  args_type_and_to_bytes c (trace t) = marshalled trace_type (c.trace_to_bytes t)
  args_type_and_to_bytes c (other p) = elim (serialize_first c.serializers p) [
    | some r ↦ ok r
    | none ↦ reflected (c.reflect p)
  ]

  abbrev pub read_or_panic :
      {A : Type 0} → (A → Value J P) → Option A → Result ArgsError (Value J P)
  read_or_panic f none = panic
  read_or_panic f (some a) = ok (f a)

  abbrev pub read_or_err :
      {A : Type 0} → ArgsError → (A → Value J P) → Option A → Result ArgsError (Value J P)
  read_or_err e f none = err e
  read_or_err e f (some a) = ok (f a)

  -- `Bytes2Args`
  unfoldable pub bytes_to_args : Codec J P → Bytes → Bytes → Result ArgsError (Value J P)
  bytes_to_args c ptype b =
      if has_prefix ptype marshal_type
      then ok (bytes b)
      else if has_prefix ptype proto_type
      then ok (bytes b)
      else if same ptype null_type
      then ok nil
      else if same ptype string_type
      then ok (string b)
      else if same ptype bool_type
      then read_or_panic bool (bytes_to_bool b)
      else if same ptype int_type
      then read_or_panic int32 (bytes_to_int32 b)
      else if same ptype long_type
      then read_or_panic int64 (bytes_to_int64 b)
      else if same ptype float_type
      then read_or_panic float32 (bytes_to_float32 b)
      else if same ptype double_type
      then read_or_panic float64 (bytes_to_float64 b)
      else if same ptype bytes_type
      then ok (bytes b)
      else if same ptype map_type
      then read_or_err unmarshal_failed map (c.bytes_to_map b)
      else if same ptype map_str_type
      then read_or_err unmarshal_failed map_string (c.bytes_to_map_string b)
      else if same ptype trace_type
      then read_or_err unmarshal_failed (λ t. trace (extract_span c.new_span t))
          (c.bytes_to_trace b)
      else read_or_err not_registered other (deserialize_first c.serializers ptype b)
