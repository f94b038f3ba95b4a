-- ===== src/Gate/Transport.antt =====
-- gate/base/mqtt_gate.go: how the gate writes sessions as the arguments and the results of RPC and
-- reads them, and the functions that it registers. `marshal` and `unmarshal` are `proto.Marshal` and
-- `proto.Unmarshal`, which are not code of the repository.
pub mod RoundTrip
pub mod Copies
use mqant.Prelude.{
  ℕ, Bool, true, false, if◌then◌else◌, Option, none, some, [], ◌∷◌, Bytes, same, Result, ok, err,
  panic, Exec,
}
use mqant.Gate.Session.{SessionImp, SessionAgent, Judge, new_session, clone}
use mqant.Gate.Handler as Calls
use mqant.Gate.Handler.{Handler, Setup, HandlerError, Call}
use mqant.Gate.Remote.{
  Request, Answer, ServerSession, call_update, call_bind, call_unbind, call_push, call_set,
  call_remove, call_send, call_send_batch, call_is_connect, call_close, nothing, session, count,
  connected, success,
}

-- A value behind an `interface{}`, as `Serialize` tells them apart.
pub data Param : Type 0 where
  session_param : SessionAgent → Param
  protocol_marshal : Bytes → Param
  not_pointer : Param
  other : Param

pub data ParamError : Type 0 where
  proto_failed : ParamError
  pointer_expected : ParamError
  type_not_allowed : ParamError

-- "SESSION"
abbrev pub rpc_param_session_type : Bytes
rpc_param_session_type = 83 ∷ 69 ∷ 83 ∷ 83 ∷ 73 ∷ 79 ∷ 78 ∷ []

-- "ProtocolMarshal"
abbrev pub rpc_param_protocol_marshal_type : Bytes
rpc_param_protocol_marshal_type =
    80 ∷ 114 ∷ 111 ∷ 116 ∷ 111 ∷ 99 ∷ 111 ∷ 108 ∷ 77 ∷ 97 ∷ 114 ∷ 115 ∷ 104 ∷ 97 ∷ 108 ∷ []

-- `Serialize`: the type and the bytes.
unfoldable pub serialize : (SessionImp → Option Bytes) → Param → Result ParamError (Bytes × Bytes)
serialize marshal (session_param a) = elim (marshal a.session) [
  | none ↦ err proto_failed
  | some b ↦ ok (rpc_param_session_type, b)
]
serialize marshal (protocol_marshal b) = ok (rpc_param_protocol_marshal_type, b)
serialize marshal not_pointer = err pointer_expected
serialize marshal other = err type_not_allowed

-- `Deserialize`, where the clone gets the given span.
unfoldable pub deserialize :
    Bool
    → Option Judge
    → (Bytes → Option SessionImp)
    → Bytes
    → Bytes
    → Bytes
    → Result ParamError Param
deserialize has_app judge unmarshal span ptype b =
    if same ptype rpc_param_session_type
    then elim (new_session has_app judge (unmarshal b)) [
      | none ↦ err proto_failed
      | some s ↦ ok (session_param (clone span s))
    ]
    else if same ptype rpc_param_protocol_marshal_type
    then ok (protocol_marshal b)
    else err type_not_allowed

-- The reasons why a call gives its caller an error: the RPC server recovers a panic.
pub data ServeError : Type 0 where
  handler : HandlerError → ServeError
  recovered : ServeError
  not_carried : ServeError

module _ (g : Setup) (marshal : SessionImp → Option Bytes) (span : Bytes) where
  -- A session that goes from the gate to the caller: `Serialize`, then `Deserialize` at the caller.
  unfoldable pub carry : SessionAgent → Option SessionImp
  unfolding serialize deserialize
  carry s = elim (serialize marshal (session_param s)) [
    | err e ↦ none
    | panic ↦ none
    | ok (ptype, b) ↦ elim (deserialize g.has_app g.judge g.unmarshal span ptype b) [
      | ok (session_param s') ↦ some s'.session
      | _ ↦ none
    ]
  ]

  abbrev returned :
      {A : Type 0} → Call A → (A → Result ServeError Answer) → Exec ServeError Handler Answer
  returned f answer h =
      let (r, h') = f h in
      (elim r [ ok a ↦ answer a | err e ↦ err (handler e) | panic ↦ err recovered ], h')

  abbrev carried : SessionAgent → Result ServeError Answer
  carried s = elim (carry s) [ none ↦ err not_carried | some s' ↦ ok (session s') ]

  -- The functions that `OnInit` registers, as a caller in another process sees them.
  unfoldable pub serve : Request → Exec ServeError Handler Answer
  unfolding carry
  serve (call_update id) =
      returned (Calls.update id) λ o. elim o [ none ↦ ok nothing | some s ↦ carried s ]
  serve (call_bind id user_id) = returned (Calls.bind g id user_id) carried
  serve (call_unbind id) = returned (Calls.unbind id) carried
  serve (call_push id m) = returned (Calls.push g id m) carried
  serve (call_set id key value) = returned (Calls.set g id key value) carried
  serve (call_remove id key) = returned (Calls.remove g id key) carried
  serve (call_send id topic body) = returned (Calls.send id topic body) λ u. ok success
  serve (call_send_batch ids topic body) =
      λ h. let (n, h') = Calls.send_batch ids topic body h in (ok (count n), h')
  serve (call_is_connect id user_id) = returned (Calls.is_connect user_id) λ b. ok (connected b)
  serve (call_close id) = returned (Calls.close id) λ u. ok nothing

  -- The gate as its callers find it; an answer that nobody waits for is dropped.
  unfoldable pub registered : ServerSession ServeError Handler
  unfolding serve
  registered = record { call = serve; call_nr = λ r h. let (a, h') = serve r h in (ok tt, h') }
