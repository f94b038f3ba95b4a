-- ===== src/Rpc/Server.antt =====
-- rpc/base/rpc_server.go: the functions that a module offers, and the run of one request. Requests run
-- one after another here; the error texts that the server itself makes are numbered. The hooks that
-- hear of an answer are an argument `heard`: the text of the panic that a call of one ends with, if any.
-- A run gives the text of a panic that it ends with, and the server.
pub mod Quiet
pub mod Answering
pub mod Running
pub mod Adding
pub mod Always
pub mod Replying
use mqant.Prelude.{
  ℕ, length, zero, suc, ◌+◌, ◌==◌, not, Bool, true, false, if◌then◌else◌, Option, none, some, List,
  [], ◌∷◌, ◌++◌, map, Bytes, same, Map, insert, Result, ok, err, panic, ◌⊎◌, inl, inr, ℤ, pos,
  suc_ℤ, pred_ℤ,
}
use mqant.Rpc.Args.{null_type}

-- `rpcpb.RPCInfo`
pub record RpcInfo : Type 0 where
  pub cid : Bytes
  pub fn : Bytes
  pub reply : Bool
  pub args : List Bytes
  pub args_type : List Bytes

-- Why a request was answered with an error.
pub data CallError : Type 0 where
  -- What was returned, or a panic said, or the listener or a codec.
  text : Bytes → CallError
  wrong_number : CallError
  wrong_return : CallError
  -- A panic, with the text that it carried.
  exception : Bytes → CallError

-- `rpcpb.ResultInfo`; the empty error is `none`.
pub record ResultInfo : Type 0 where
  pub cid : Bytes
  pub error : Option CallError
  pub result_type : Bytes
  pub result : Bytes

-- `rpcpb.NewResultInfo`
unfoldable pub new_result_info : Bytes → Option CallError → Bytes → Bytes → ResultInfo
new_result_info cid error result_type result = record {
  cid = cid;
  error = error;
  result_type = result_type;
  result = result;
}

-- The second value that a function returned.
pub data Returned : Type 0 where
  no_error : Returned
  error_text : Bytes → Returned
  not_error : Returned

-- How the call of a function ends: a panic with a text, the wrong number of values, or two values.
pub data Outcome (V : Type 0) : Type 0 where
  panics : Bytes → Outcome V
  values : ℕ → Outcome V
  returns : V → Returned → Outcome V

-- `mqrpc.FunctionInfo`: `decode k` reads the argument k from its type and bytes. I are the values
-- that the function takes, V those that it returns.
pub record FunctionInfo (I V : Type 0) : Type 0 where
  pub num_in : ℕ
  pub goroutine : Bool
  pub decode : ℕ → Bytes → Bytes → Result Bytes I
  pub function : List I → Outcome V

-- The error of a result: the empty text is no error.
abbrev pub error_of : Returned → Option CallError
error_of no_error = none
error_of (error_text t) = if same t [] then none else some (text t)
error_of not_error = some wrong_return

-- The listener of the module.
pub record Listener (I V : Type 0) : Type 0 where
  pub no_found_function : Bytes → Result Bytes (FunctionInfo I V)
  pub before_handle : Bytes → RpcInfo → Result Bytes (Unit {0})

-- What goes out while a request runs: `Callback`, `ServerRPCHandler`, `OnError` and `OnComplete` are
-- called, or an error is logged.
pub data Event : Type 0 where
  called_back : ResultInfo → Event
  handled : ResultInfo → Event
  logged : Bytes → Event
  on_error : Bytes → Event
  on_complete : Bytes → Event

-- `tokens` are the places that requests hold in the goroutine control; the `WaitGroup` counts what
-- `executing` counts.
pub record RpcServer (I V : Type 0) : Type 0 where
  pub functions : Map (FunctionInfo I V)
  pub listener : Option (Listener I V)
  pub has_rpc_handler : Bool
  pub has_control : Bool
  pub tokens : ℤ
  pub executing : ℤ
  pub events : List Event

abbrev pub Run : Type 0 → Type 0 → Type 0
Run I V = RpcServer I V → Option Bytes × RpcServer I V

module _ {I V : Type 0} where
  abbrev pub emit : Event → RpcServer I V → RpcServer I V
  emit e s = record s { events = s.events ++ e ∷ [] }

  abbrev pub new_rpc_server : RpcServer I V
  new_rpc_server = record {
    functions = λ id. none;
    listener = none;
    has_rpc_handler = false;
    has_control = false;
    tokens = pos 0;
    executing = pos 0;
    events = [];
  }

  -- `Register` and `RegisterGO`; `none` is the panic on an id that is taken.
  unfoldable pub register : Bytes → FunctionInfo I V → RpcServer I V → Option (RpcServer I V)
  register id f s = elim (s.functions id) [
    | some g ↦ none
    | none ↦ some (record s { functions = insert id f s.functions })
  ]

  -- What follows, unless there was a panic.
  abbrev pub also : Option Bytes × RpcServer I V → Run I V → Option Bytes × RpcServer I V
  also (none, s) next = next s
  also (some t, s) next = (some t, s)

  -- A hook is called.
  abbrev pub out : (Event → Option Bytes) → Event → Run I V
  out heard e s = (heard e, emit e s)

  -- `doCallback`
  unfoldable pub do_callback : (Event → Option Bytes) → RpcInfo → ResultInfo → Run I V
  do_callback heard info r s =
      also
        (if info.reply
          then out heard (called_back r) s
          else (none, elim r.error [ none ↦ s | some e ↦ emit (logged info.fn) s ]))
        (λ s'. if s'.has_rpc_handler then out heard (handled r) s' else (none, s'))

  -- `_errorCallback`
  unfoldable pub error_callback : (Event → Option Bytes) → RpcInfo → CallError → Run I V
  unfolding do_callback
  error_callback heard info e s =
      also (do_callback heard info (new_result_info info.cid (some e) null_type []) s)
        (λ s'. elim s'.listener [ none ↦ (none, s') | some l ↦ out heard (on_error info.fn) s' ])

  -- The loop that reads the arguments, one for each type; a type without an argument is a panic.
  unfoldable pub decode_args :
      FunctionInfo I V → ℕ → List Bytes → List Bytes → Result Bytes (List I)
  decode_args f k [] params = ok []
  decode_args f k (t ∷ types) [] = panic
  decode_args f k (t ∷ types) (b ∷ params) =
      let rest = decode_args f (suc k) types params in
      elim (f.decode k t b) [
        | err e ↦ err e
        | panic ↦ panic
        | ok i ↦ elim rest [ ok is ↦ ok (i ∷ is) | err e ↦ err e | panic ↦ panic ]
      ]

  -- The rest of `_runFunc` after the call: the result is encoded and sent.
  unfoldable pub send_result :
      (Event → Option Bytes) → (V → Result Bytes (Bytes × Bytes)) → RpcInfo → V → Returned → Run I V
  unfolding do_callback error_callback
  send_result heard encode info v not_error s = error_callback heard info wrong_return s
  send_result heard encode info v r s = elim (encode v) [
    | err t ↦ error_callback heard info (text t) s
    | panic ↦ (some [], s)
    | ok (ptype, b) ↦
        also (do_callback heard info (new_result_info info.cid (error_of r) ptype b) s) (λ s'.
          elim s'.listener [ none ↦ (none, s') | some l ↦ out heard (on_complete info.fn) s' ])
  ]

  -- `f.Call(in)` and what follows; a wrong number of inputs is a panic of `reflect`.
  unfoldable pub call_function :
      (Event → Option Bytes)
      → (V → Result Bytes (Bytes × Bytes))
      → FunctionInfo I V
      → RpcInfo
      → List I
      → Run I V
  unfolding send_result error_callback
  call_function heard encode f info is s =
      if length is == f.num_in
      then elim (f.function is) [
        | panics t ↦ (some t, s)
        | values n ↦ error_callback heard info wrong_return s
        | returns v r ↦ send_result heard encode info v r s
      ]
      else (some [], s)

  -- `_runFunc` between the counting.
  unfoldable pub run_body :
      (Event → Option Bytes)
      → (V → Result Bytes (Bytes × Bytes))
      → FunctionInfo I V
      → RpcInfo
      → Run I V
  unfolding decode_args call_function error_callback
  run_body heard encode f info s = elim (decode_args f 0 info.args_type info.args) [
    | panic ↦ (some [], s)
    | err t ↦ error_callback heard info (text t) s
    | ok is ↦ elim s.listener [
      | none ↦ call_function heard encode f info is s
      | some l ↦ elim (l.before_handle info.fn info) [
        | ok u ↦ call_function heard encode f info is s
        | err t ↦ error_callback heard info (text t) s
        | panic ↦ (some [], s)
      ]
    ]
  ]

  abbrev pub finish : RpcServer I V → RpcServer I V
  finish s = if s.has_control then record s { tokens = pred_ℤ s.tokens } else s

  -- `recover`, and the answer that is made after a panic; that may panic itself.
  unfoldable pub recovered :
      (Event → Option Bytes) → RpcInfo → Option Bytes × RpcServer I V → Option Bytes × RpcServer I V
  unfolding error_callback
  recovered heard info (none, s) = (none, s)
  recovered heard info (some t, s) = error_callback heard info (exception t) s

  -- `_runFunc`
  unfoldable pub run_function :
      (Event → Option Bytes)
      → (V → Result Bytes (Bytes × Bytes))
      → FunctionInfo I V
      → RpcInfo
      → Run I V
  unfolding run_body error_callback recovered
  run_function heard encode f info s =
      if length info.args == f.num_in
      then (let (p, s') =
            run_body heard encode f info (record s { executing = suc_ℤ s.executing }) in
          recovered heard info (p, finish (record s' { executing = pred_ℤ s'.executing })))
      else error_callback heard info wrong_number s

  -- `control.Wait`, whose error is dropped.
  abbrev pub wait : RpcServer I V → RpcServer I V
  wait s = if s.has_control then record s { tokens = suc_ℤ s.tokens } else s

  -- The function that is run: that of the server, or the one that the listener names.
  abbrev pub function_of : RpcServer I V → RpcInfo → CallError ⊎ FunctionInfo I V
  function_of s info = elim (s.functions info.fn) [
    | some f ↦ inr f
    | none ↦ elim s.listener [
      | none ↦ inl (exception [])
      | some l ↦ elim (l.no_found_function info.fn) [
        | ok f ↦ inr f
        | err t ↦ inl (text t)
        | panic ↦ inl (exception [])
      ]
    ]
  ]

  -- `runFunc`. A panic that leaves `_runFunc` is recovered once more, but not in a goroutine of its own.
  unfoldable pub run_func :
      (Event → Option Bytes) → (V → Result Bytes (Bytes × Bytes)) → RpcInfo → Run I V
  unfolding run_function error_callback recovered
  run_func heard encode info s =
      let s' = wait s in
      elim (function_of s' info) [
        | inr f ↦
            if f.goroutine
            then run_function heard encode f info s'
            else recovered heard info (run_function heard encode f info s')
        | inl e ↦ elim e [
          | exception t ↦ error_callback heard info (exception t) s'
          | text t ↦ recovered heard info (error_callback heard info (text t) s')
          | wrong_number ↦ recovered heard info (error_callback heard info wrong_number s')
          | wrong_return ↦ recovered heard info (error_callback heard info wrong_return s')
        ]
      ]
