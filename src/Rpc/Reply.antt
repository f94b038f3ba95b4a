-- ===== src/Rpc/Reply.antt =====
-- rpc/reply.go: the helpers that read the two results of a call as one type.
use mqant.Prelude.{
  ℕ, Bool, if◌then◌else◌, Option, none, some, [], Bytes, same, Dict, Result, ok, err,
}
use mqant.Rpc.Args.{Value, nil, string, bool, int64, float64, bytes, map, map_string}

-- The second result of a call, behind an `interface{}`.
pub data Second : Type 0 where
  no_error : Second
  text : Bytes → Second
  error : Bytes → Second
  other : Second

pub data ReplyError : Type 0 where
  called : Bytes → ReplyError
  nil_returned : ReplyError
  unexpected_type : ReplyError
  not_pointer : ReplyError
  not_marshaler : ReplyError
  unmarshal_failed : ReplyError

-- The switch on the second result that every helper starts with; what is not nil and not an error
-- counts as none.
abbrev pub call_error : Second → Option ReplyError
call_error no_error = none
call_error (text t) = if same t [] then none else some (called t)
call_error (error t) = some (called t)
call_error other = none

module _ {J P A : Type 0} where
  -- A helper: the values of its type, `ErrNil` on nil, and an error on all else.
  abbrev read_as : (Value J P → Option A) → Value J P → Second → Result ReplyError A
  read_as accept reply e = elim (call_error e) [
    | some x ↦ err x
    | none ↦ elim (accept reply) [
      | some a ↦ ok a
      | none ↦ elim reply [ nil ↦ err nil_returned | _ ↦ err unexpected_type ]
    ]
  ]

module _ {J P : Type 0} where
  abbrev as_int64 : Value J P → Option ℕ
  as_int64 (int64 n) = some n
  as_int64 _ = none

  abbrev as_float64 : Value J P → Option ℕ
  as_float64 (float64 n) = some n
  as_float64 _ = none

  abbrev as_string : Value J P → Option Bytes
  as_string (string s) = some s
  as_string _ = none

  abbrev as_bytes : Value J P → Option Bytes
  as_bytes (bytes b) = some b
  as_bytes _ = none

  abbrev as_bool : Value J P → Option Bool
  as_bool (bool b) = some b
  as_bool _ = none

  abbrev as_string_map : Value J P → Option (Dict Bytes)
  as_string_map (map_string m) = some m
  as_string_map _ = none

  abbrev as_map : Value J P → Option J
  as_map (map m) = some m
  as_map _ = none

  -- `Int`, on a platform whose `int` has 64 bits.
  abbrev pub int_of : Value J P → Second → Result ReplyError ℕ
  int_of = read_as as_int64

  -- `Int64`
  abbrev pub int64_of : Value J P → Second → Result ReplyError ℕ
  int64_of = read_as as_int64

  -- `Float64`
  abbrev pub float64_of : Value J P → Second → Result ReplyError ℕ
  float64_of = read_as as_float64

  -- `String`
  abbrev pub string_of : Value J P → Second → Result ReplyError Bytes
  string_of = read_as as_string

  -- `Bytes`
  abbrev pub bytes_of : Value J P → Second → Result ReplyError Bytes
  bytes_of = read_as as_bytes

  -- `Bool`
  abbrev pub bool_of : Value J P → Second → Result ReplyError Bool
  bool_of = read_as as_bool

  -- `StringMap`
  abbrev pub string_map_of : Value J P → Second → Result ReplyError (Dict Bytes)
  string_map_of = read_as as_string_map

  -- `InterfaceMap`
  abbrev pub interface_map_of : Value J P → Second → Result ReplyError J
  interface_map_of = read_as as_map

-- The value that `Marshal` and `Proto` read into: no pointer, a pointer of the wrong kind, or one with
-- its `Unmarshal`.
pub data Target (A : Type 0) : Type 0 where
  no_pointer : Target A
  wrong_pointer : Target A
  reads : (Bytes → Option A) → Target A

module _ {J P A : Type 0} where
  -- `Marshal` and `Proto`, which differ in the kind of pointer.
  abbrev pub marshal_into : Target A → Value J P → Second → Result ReplyError A
  marshal_into target reply e = elim (call_error e) [
    | some x ↦ err x
    | none ↦ elim target [
      | no_pointer ↦ err not_pointer
      | wrong_pointer ↦ err not_marshaler
      | reads unmarshal ↦ elim reply [
        | bytes b ↦ elim (unmarshal b) [ none ↦ err unmarshal_failed | some a ↦ ok a ]
        | nil ↦ err nil_returned
        | _ ↦ err unexpected_type
      ]
    ]
  ]
