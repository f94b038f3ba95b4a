-- ===== src/Rpc/Server/Quiet.antt =====
-- rpc/base/rpc_server.go: the run of a request while no hook panics, as a function that gives the
-- server after it.
use mqant.Prelude.{
  length, ◌==◌, if◌then◌else◌, Option, none, some, List, [], Bytes, Result, ok, err, panic, ◌⊎◌,
  inl, inr, suc_ℤ, pred_ℤ, ◌≡◌, refl, ap, arith, Bool-cases, Option-cases, Result-cases,
}
use mqant.Rpc.Args.{null_type}
use mqant.Rpc.Server.{
  RpcInfo, CallError, text, wrong_number, wrong_return, exception, ResultInfo, new_result_info,
  Returned, no_error, error_text, not_error, Outcome, panics, values, returns, FunctionInfo,
  error_of, Event, called_back, handled, logged, on_error, on_complete, RpcServer, emit, also, out,
  do_callback, error_callback, decode_args, send_result, call_function, run_body, finish, recovered,
  run_function, wait, function_of, run_func,
}

pub Sum-cases {ℓ} : {A B : Type ℓ} (o : A ⊎ B) → ((a : A) × (o ≡ inl a)) ⊎ ((b : B) × (o ≡ inr b))
Sum-cases (inl a) = inl (a, refl)
Sum-cases (inr b) = inr (b, refl)

module _ {I V : Type 0} where
  unfoldable pub called : RpcInfo → ResultInfo → RpcServer I V → RpcServer I V
  called info r s =
      let s' =
        if info.reply
        then emit (called_back r) s
        else elim r.error [ none ↦ s | some e ↦ emit (logged info.fn) s ] in
      if s'.has_rpc_handler then emit (handled r) s' else s'

  unfoldable pub told : RpcInfo → CallError → RpcServer I V → RpcServer I V
  unfolding called
  told info e s =
      let s' = called info (new_result_info info.cid (some e) null_type []) s in
      elim s'.listener [ none ↦ s' | some l ↦ emit (on_error info.fn) s' ]

  -- The answer with the values of the function.
  unfoldable pub value_answer : RpcInfo → Returned → Bytes → Bytes → RpcServer I V → RpcServer I V
  unfolding called
  value_answer info r ptype b s =
      let s' = called info (new_result_info info.cid (error_of r) ptype b) s in
      elim s'.listener [ none ↦ s' | some l ↦ emit (on_complete info.fn) s' ]

  -- The rest of `_runFunc` after the call: the result is encoded and sent.
  unfoldable pub sent :
      (V → Result Bytes (Bytes × Bytes))
      → RpcInfo
      → V
      → Returned
      → RpcServer I V
      → Option Bytes × RpcServer I V
  unfolding value_answer told
  sent encode info v not_error s = (none, told info wrong_return s)
  sent encode info v r s = elim (encode v) [
    | err t ↦ (none, told info (text t) s)
    | panic ↦ (some [], s)
    | ok (ptype, b) ↦ (none, value_answer info r ptype b s)
  ]

  unfoldable pub function_called :
      (V → Result Bytes (Bytes × Bytes))
      → FunctionInfo I V
      → RpcInfo
      → List I
      → RpcServer I V
      → Option Bytes × RpcServer I V
  unfolding sent told
  function_called encode f info is s =
      if length is == f.num_in
      then elim (f.function is) [
        | panics t ↦ (some t, s)
        | values n ↦ (none, told info wrong_return s)
        | returns v r ↦ sent encode info v r s
      ]
      else (some [], s)

  unfoldable pub body_run :
      (V → Result Bytes (Bytes × Bytes))
      → FunctionInfo I V
      → RpcInfo
      → RpcServer I V
      → Option Bytes × RpcServer I V
  unfolding decode_args function_called told
  body_run encode f info s = elim (decode_args f 0 info.args_type info.args) [
    | panic ↦ (some [], s)
    | err t ↦ (none, told info (text t) s)
    | ok is ↦ elim s.listener [
      | none ↦ function_called encode f info is s
      | some l ↦ elim (l.before_handle info.fn info) [
        | ok u ↦ function_called encode f info is s
        | err t ↦ (none, told info (text t) s)
        | panic ↦ (some [], s)
      ]
    ]
  ]

  unfoldable pub function_run :
      (V → Result Bytes (Bytes × Bytes))
      → FunctionInfo I V
      → RpcInfo
      → RpcServer I V
      → RpcServer I V
  unfolding body_run told
  function_run encode f info s =
      if length info.args == f.num_in
      then (let (p, s') = body_run encode f info (record s { executing = suc_ℤ s.executing }) in
          let s'' = finish (record s' { executing = pred_ℤ s'.executing }) in
          elim p [ none ↦ s'' | some t ↦ told info (exception t) s'' ])
      else told info wrong_number s

  unfoldable pub run_quietly :
      (V → Result Bytes (Bytes × Bytes)) → RpcInfo → RpcServer I V → RpcServer I V
  unfolding function_run told
  run_quietly encode info s =
      let s' = wait s in
      elim (function_of s' info) [ inr f ↦ function_run encode f info s' | inl e ↦ told info e s' ]

-- No hook panics: the run is the same, and it does not end with a panic.
module _ {I V : Type 0} (heard : Event → Option Bytes) (q : (e : Event) → heard e ≡ none) where
  do_callback-called :
      (info : RpcInfo) (r : ResultInfo) (s : RpcServer I V)
      → do_callback heard info r s ≡ (none, called info r s)
  unfolding do_callback called
  do_callback-called info r s = elim (Bool-cases info.reply) [
    | inl e ↦ elim (Bool-cases s.has_rpc_handler) [
      | inl f ↦ ground (arith, e, f, q (called_back r), q (handled r))
      | inr f ↦ ground (arith, e, f, q (called_back r))
    ]
    | inr e ↦ elim (Option-cases r.error) [
      | inl g ↦ elim (Bool-cases s.has_rpc_handler) [
        | inl f ↦ ground (arith, e, f, g, q (handled r))
        | inr f ↦ ground (arith, e, f, g)
      ]
      | inr (x, g) ↦ elim (Bool-cases s.has_rpc_handler) [
        | inl f ↦ ground (arith, e, f, g, q (handled r))
        | inr f ↦ ground (arith, e, f, g)
      ]
    ]
  ]

  pub error_callback-told :
      (info : RpcInfo) (x : CallError) (s : RpcServer I V)
      → error_callback heard info x s ≡ (none, told info x s)
  unfolding error_callback told
  error_callback-told info x s =
      let r = new_result_info info.cid (some x) null_type [] in
      elim (Option-cases (called info r s).listener) [
        | inl e ↦ ground (arith, e, do_callback-called info r s)
        | inr (l, e) ↦ ground (arith, e, do_callback-called info r s, q (on_error info.fn))
      ]

  value-Answered :
      (info : RpcInfo) (x : Returned) (t b : Bytes) (s : RpcServer I V)
      → also (do_callback heard info (new_result_info info.cid (error_of x) t b) s) (λ s'.
        elim s'.listener [ none ↦ (none, s') | some l ↦ out heard (on_complete info.fn) s' ])
        ≡ (none, value_answer info x t b s)
  unfolding value_answer
  value-Answered info x t b s =
      let r = new_result_info info.cid (error_of x) t b in
      elim (Option-cases (called info r s).listener) [
        | inl e ↦ ground (arith, e, do_callback-called info r s)
        | inr (l, e) ↦ ground (arith, e, do_callback-called info r s, q (on_complete info.fn))
      ]

  send_result-sent :
      (encode : V → Result Bytes (Bytes × Bytes)) (info : RpcInfo) (v : V) (r : Returned)
      (s : RpcServer I V)
      → send_result heard encode info v r s ≡ sent encode info v r s
  unfolding send_result sent
  send_result-sent encode info v not_error s = error_callback-told info wrong_return s
  send_result-sent encode info v no_error s = elim (Result-cases (encode v)) [
    | inl ((t, b), e) ↦ ground (arith, e, value-Answered info no_error t b s)
    | inr (inl (t, e)) ↦ ground (arith, e, error_callback-told info (text t) s)
    | inr (inr e) ↦ ground (arith, e)
  ]
  send_result-sent encode info v (error_text m) s = elim (Result-cases (encode v)) [
    | inl ((t, b), e) ↦ ground (arith, e, value-Answered info (error_text m) t b s)
    | inr (inl (t, e)) ↦ ground (arith, e, error_callback-told info (text t) s)
    | inr (inr e) ↦ ground (arith, e)
  ]

  outcome-same :
      (encode : V → Result Bytes (Bytes × Bytes)) (info : RpcInfo) (s : RpcServer I V)
      (o : Outcome V)
      → (elim o as (λ k. Option Bytes × RpcServer I V) [
        | panics t ↦ (some t, s)
        | values n ↦ error_callback heard info wrong_return s
        | returns v r ↦ send_result heard encode info v r s
      ])
        ≡ (elim o as (λ k. Option Bytes × RpcServer I V) [
          | panics t ↦ (some t, s)
          | values n ↦ (none, told info wrong_return s)
          | returns v r ↦ sent encode info v r s
        ])
  outcome-same encode info s (panics t) = refl
  outcome-same encode info s (values n) = error_callback-told info wrong_return s
  outcome-same encode info s (returns v r) = send_result-sent encode info v r s

  call_function-function_called :
      (encode : V → Result Bytes (Bytes × Bytes)) (f : FunctionInfo I V) (info : RpcInfo)
      (is : List I) (s : RpcServer I V)
      → call_function heard encode f info is s ≡ function_called encode f info is s
  unfolding call_function function_called
  call_function-function_called encode f info is s = elim (Bool-cases (length is == f.num_in)) [
    | inl e ↦ ground (arith, e, outcome-same encode info s (f.function is))
    | inr e ↦ ground (arith, e)
  ]

  run_body-body_run :
      (encode : V → Result Bytes (Bytes × Bytes)) (f : FunctionInfo I V) (info : RpcInfo)
      (s : RpcServer I V)
      → run_body heard encode f info s ≡ body_run encode f info s
  unfolding run_body body_run
  run_body-body_run encode f info s =
      elim (Result-cases (decode_args f 0 info.args_type info.args)) [
        | inr (inl (t, e)) ↦ ground (arith, e, error_callback-told info (text t) s)
        | inr (inr e) ↦ ground (arith, e)
        | inl (is, e) ↦ elim (Option-cases s.listener) [
          | inl g ↦ ground (arith, e, g, call_function-function_called encode f info is s)
          | inr (l, g) ↦ elim (Result-cases (l.before_handle info.fn info)) [
            | inl (u, h) ↦ ground (arith, e, g, h, call_function-function_called encode f info is s)
            | inr (inl (t, h)) ↦ ground (arith, e, g, h, error_callback-told info (text t) s)
            | inr (inr h) ↦ ground (arith, e, g, h)
          ]
        ]
      ]

  recovered-told :
      (info : RpcInfo) (p : Option Bytes) (s : RpcServer I V)
      → recovered heard info (p, s)
        ≡ (none, elim p [ none ↦ s | some t ↦ told info (exception t) s ])
  unfolding recovered
  recovered-told info none s = refl
  recovered-told info (some t) s = error_callback-told info (exception t) s

  run_function-function_run :
      (encode : V → Result Bytes (Bytes × Bytes)) (f : FunctionInfo I V) (info : RpcInfo)
      (s : RpcServer I V)
      → run_function heard encode f info s ≡ (none, function_run encode f info s)
  unfolding run_function function_run
  run_function-function_run encode f info s =
      let s' = record s { executing = suc_ℤ s.executing } in
      let y = body_run encode f info s' in
      elim (Bool-cases (length info.args == f.num_in)) [
        | inl e ↦ ground (
          arith,
          e,
          run_body-body_run encode f info s',
          recovered-told info y.0 (finish (record y.1 { executing = pred_ℤ y.1.executing })),
        )
        | inr e ↦ ground (arith, e, error_callback-told info wrong_number s)
      ]

  not_found :
      (info : RpcInfo) (x : CallError) (s : RpcServer I V)
      → recovered heard info (error_callback heard info x s) ≡ (none, told info x s)
  unfolding recovered
  not_found info x s = ap (recovered heard info) (error_callback-told info x s)

  pub run_func-run_quietly :
      (encode : V → Result Bytes (Bytes × Bytes)) (info : RpcInfo) (s : RpcServer I V)
      → run_func heard encode info s ≡ (none, run_quietly encode info s)
  unfolding run_func run_quietly recovered
  run_func-run_quietly encode info s = elim (Sum-cases (function_of (wait s) info)) [
    | inl (exception t, e) ↦ ground (arith, e, error_callback-told info (exception t) (wait s))
    | inl (text t, e) ↦ ground (arith, e, not_found info (text t) (wait s))
    | inl (wrong_number, e) ↦ ground (arith, e, not_found info wrong_number (wait s))
    | inl (wrong_return, e) ↦ ground (arith, e, not_found info wrong_return (wait s))
    | inr (f, e) ↦ elim (Bool-cases f.goroutine) [
      | inl g ↦ ground (arith, e, g, run_function-function_run encode f info (wait s))
      | inr g ↦ ground (arith, e, g, run_function-function_run encode f info (wait s))
    ]
  ]
