-- ===== src/Rpc/Server/Always.antt =====
-- rpc/base/rpc_server.go: how often a request is answered, whatever the hooks do.
use mqant.Prelude.{
  ℕ, length, ◌==◌, true, Option, none, some, List, [], Bytes, Result, ok, err, panic, inl, inr,
  suc_ℤ, pred_ℤ, ◌≡◌, refl, sym, ap, subst, arith, Bool-cases, Option-cases, Result-cases,
}
use mqant.Rpc.Server.{
  RpcInfo, CallError, text, wrong_number, wrong_return, exception, new_result_info, Returned,
  no_error, error_text, not_error, Outcome, panics, values, returns, FunctionInfo, error_of, Event,
  on_complete, RpcServer, also, out, do_callback, error_callback, decode_args, send_result,
  call_function, run_body, finish, recovered, run_function, wait, function_of, run_func,
}
use mqant.Rpc.Server.Quiet.{Sum-cases}
use mqant.Rpc.Server.Answering.{replies}
use mqant.Rpc.Server.Running.{finish-fields}
use mqant.Rpc.Server.Adding.{
  Adds, Adds-quiet, Adds-from, Adds-then, Adds-le, Adds-none, error_callback-Adds, answer-Adds,
}

module _ {I V : Type 0} (info : RpcInfo) where
  module _ (heard : Event → Option Bytes) (wants : info.reply ≡ true) where
    -- A part of the run ends with the one answer, or with a panic after one answer at most.
    abbrev Ends : RpcServer I V → Option Bytes × RpcServer I V → Type 0
    Ends s (none, s') = Adds info 1 1 s s'
    Ends s (some t, s') = Adds info 0 1 s s'

    Ends-Adds :
        (s : RpcServer I V) (x : Option Bytes × RpcServer I V) → Adds info 1 1 s x.1 → Ends s x
    Ends-Adds s (none, s') a = a
    Ends-Adds s (some t, s') a = Adds-le info 0 1 s s' (omega arith) (omega arith) a

    Ends-eq : (s : RpcServer I V) (x y : Option Bytes × RpcServer I V) → y ≡ x → Ends s x → Ends s y
    Ends-eq s x y e w = subst (λ z. Ends s z) (sym e) w

    told-Ends : (x : CallError) (s : RpcServer I V) → Ends s (error_callback heard info x s)
    told-Ends x s =
        Ends-Adds s (error_callback heard info x s) (error_callback-Adds info heard wants x s)

    encoded-Ends :
        (r : Returned) (s : RpcServer I V) (o : Result Bytes (Bytes × Bytes))
        → Ends s (elim o as (λ k. Option Bytes × RpcServer I V) [
          | err t ↦ error_callback heard info (text t) s
          | panic ↦ (some [], s)
          | ok (ptype, b) ↦
              also (do_callback heard info (new_result_info info.cid (error_of r) ptype b) s) (λ s'.
                elim s'.listener [
                  | none ↦ (none, s')
                  | some l ↦ out heard (on_complete info.fn) s'
                ])
        ])
    unfolding new_result_info
    encoded-Ends r s (err t) = told-Ends (text t) s
    encoded-Ends r s panic = Adds-none info s
    encoded-Ends r s (ok (ptype, b)) = Ends-Adds s _ (
        answer-Adds info heard wants (new_result_info info.cid (error_of r) ptype b)
          (on_complete info.fn) s refl refl)

    send_result-Ends :
        (encode : V → Result Bytes (Bytes × Bytes)) (v : V) (r : Returned) (s : RpcServer I V)
        → Ends s (send_result heard encode info v r s)
    unfolding send_result
    send_result-Ends encode v no_error s = encoded-Ends no_error s (encode v)
    send_result-Ends encode v (error_text t) s = encoded-Ends (error_text t) s (encode v)
    send_result-Ends encode v not_error s = told-Ends wrong_return s

    outcome-Ends :
        (encode : V → Result Bytes (Bytes × Bytes)) (s : RpcServer I V) (o : Outcome V)
        → Ends s (elim o as (λ k. Option Bytes × RpcServer I V) [
          | panics t ↦ (some t, s)
          | values n ↦ error_callback heard info wrong_return s
          | returns v r ↦ send_result heard encode info v r s
        ])
    outcome-Ends encode s (panics t) = Adds-none info s
    outcome-Ends encode s (values n) = told-Ends wrong_return s
    outcome-Ends encode s (returns v r) = send_result-Ends encode v r s

    call_function-Ends :
        (encode : V → Result Bytes (Bytes × Bytes)) (f : FunctionInfo I V) (is : List I)
        (s : RpcServer I V)
        → Ends s (call_function heard encode f info is s)
    unfolding call_function
    call_function-Ends encode f is s = elim (Bool-cases (length is == f.num_in)) [
      | inl e ↦ Ends-eq s _ _ (ground (arith, e)) (outcome-Ends encode s (f.function is))
      | inr e ↦ Ends-eq s (some [], s) _ (ground (arith, e)) (Adds-none info s)
    ]

    run_body-Ends :
        (encode : V → Result Bytes (Bytes × Bytes)) (f : FunctionInfo I V) (s : RpcServer I V)
        → Ends s (run_body heard encode f info s)
    unfolding run_body
    run_body-Ends encode f s = elim (Result-cases (decode_args f 0 info.args_type info.args)) [
      | inr (inl (t, e)) ↦
          Ends-eq s (error_callback heard info (text t) s) _ (ground (arith, e))
            (told-Ends (text t) s)
      | inr (inr e) ↦ Ends-eq s (some [], s) _ (ground (arith, e)) (Adds-none info s)
      | inl (is, e) ↦
          let call = call_function heard encode f info is s in
          let w = call_function-Ends encode f is s in
          elim (Option-cases s.listener) [
            | inl g ↦ Ends-eq s call _ (ground (arith, e, g)) w
            | inr (l, g) ↦ elim (Result-cases (l.before_handle info.fn info)) [
              | inl (u, h) ↦ Ends-eq s call _ (ground (arith, e, g, h)) w
              | inr (inl (t, h)) ↦
                  Ends-eq s (error_callback heard info (text t) s) _ (ground (arith, e, g, h))
                    (told-Ends (text t) s)
              | inr (inr h) ↦ Ends-eq s (some [], s) _ (ground (arith, e, g, h)) (Adds-none info s)
            ]
          ]
    ]

    -- After a panic there is one more answer.
    recovered-Adds :
        (s : RpcServer I V) (x : Option Bytes × RpcServer I V)
        → Ends s x
        → Adds info 1 2 s (recovered heard info x).1
    unfolding recovered
    recovered-Adds s (none, s') w = Adds-le info 1 2 s s' (omega arith) (omega arith) w
    recovered-Adds s (some t, s') w =
        Adds-then info s s' _ w (error_callback-Adds info heard wants (exception t) s')

    recovered_again-Adds :
        (s : RpcServer I V) (x : Option Bytes × RpcServer I V)
        → Adds info 1 2 s x.1
        → Adds info 1 3 s (recovered heard info x).1
    unfolding recovered
    recovered_again-Adds s (none, s') w = Adds-le info 1 3 s s' (omega arith) (omega arith) w
    recovered_again-Adds s (some t, s') w =
        Adds-le info 1 3 s _ (omega arith) (omega arith)
          (Adds-then info s s' _ w (error_callback-Adds info heard wants (exception t) s'))

    finished-Ends :
        (s s1 : RpcServer I V) (x : Option Bytes × RpcServer I V)
        → replies s1.events ≡ replies s.events
        → Ends s1 x
        → Ends s (x.0, finish (record x.1 { executing = pred_ℤ x.1.executing }))
    finished-Ends s s1 (none, s') e w =
        Adds-quiet info s s' _
          (ap replies (finish-fields (record s' { executing = pred_ℤ s'.executing })).0)
          (Adds-from info s s1 s' e w)
    finished-Ends s s1 (some t, s') e w =
        Adds-quiet info s s' _
          (ap replies (finish-fields (record s' { executing = pred_ℤ s'.executing })).0)
          (Adds-from info s s1 s' e w)

    Adds-eq :
        {m k : ℕ} (s : RpcServer I V) (x y : Option Bytes × RpcServer I V)
        → y ≡ x
        → Adds info m k s x.1
        → Adds info m k s y.1
    Adds-eq {m = m} {k = k} s x y e w = subst (λ z. Adds info m k s z.1) (sym e) w

    run_function-Adds :
        (encode : V → Result Bytes (Bytes × Bytes)) (f : FunctionInfo I V) (s : RpcServer I V)
        → Adds info 1 2 s (run_function heard encode f info s).1
    unfolding run_function
    run_function-Adds encode f s =
        let s1 : RpcServer I V = record s { executing = suc_ℤ s.executing } in
        let x = run_body heard encode f info s1 in
        elim (Bool-cases (length info.args == f.num_in)) [
          | inl e ↦
              Adds-eq s
                (recovered heard info
                  (x.0, finish (record x.1 { executing = pred_ℤ x.1.executing })))
                (run_function heard encode f info s) (ground (arith, e))
                (recovered-Adds s _ (finished-Ends s s1 x refl (run_body-Ends encode f s1)))
          | inr e ↦
              Adds-eq s (error_callback heard info wrong_number s)
                (run_function heard encode f info s) (ground (arith, e))
                (Adds-le info 1 2 s _ (omega arith) (omega arith)
                  (error_callback-Adds info heard wants wrong_number s))
        ]

    wait-replies : (s : RpcServer I V) → replies (wait s).events ≡ replies s.events
    wait-replies s = elim (Bool-cases s.has_control) [
      | inl e ↦ ground (arith, e)
      | inr e ↦ ground (arith, e)
    ]

    not_found-Adds :
        (x : CallError) (s : RpcServer I V)
        → Adds info 1 3 s (recovered heard info (error_callback heard info x s)).1
    not_found-Adds x s = recovered_again-Adds s _ (
        Adds-le info 1 2 s _ (omega arith) (omega arith) (error_callback-Adds info heard wants x s))

    -- Whatever the hooks do, the ones that hear of an answer included, a request that wants an answer
    -- is answered at least once and at most three times: so many answers are given to `Callback`, all
    -- with the correlation id of the request.
    pub run_func-Adds :
        (encode : V → Result Bytes (Bytes × Bytes)) (s : RpcServer I V)
        → Adds info 1 3 s (run_func heard encode info s).1
    unfolding run_func
    run_func-Adds encode s =
        let s1 = wait s in
        let from : (x : RpcServer I V) → Adds info 1 3 s1 x → Adds info 1 3 s x =
          λ x w. Adds-from info s s1 x (wait-replies s) w in
        elim (Sum-cases (function_of s1 info)) [
          | inl (exception t, e) ↦
              Adds-eq s (error_callback heard info (exception t) s1) (run_func heard encode info s)
                (ground (arith, e))
                (from _ (
                  Adds-le info 1 3 s1 _ (omega arith) (omega arith)
                    (error_callback-Adds info heard wants (exception t) s1)))
          | inl (text t, e) ↦
              Adds-eq s (recovered heard info (error_callback heard info (text t) s1))
                (run_func heard encode info s) (ground (arith, e))
                (from _ (not_found-Adds (text t) s1))
          | inl (wrong_number, e) ↦
              Adds-eq s (recovered heard info (error_callback heard info wrong_number s1))
                (run_func heard encode info s) (ground (arith, e))
                (from _ (not_found-Adds wrong_number s1))
          | inl (wrong_return, e) ↦
              Adds-eq s (recovered heard info (error_callback heard info wrong_return s1))
                (run_func heard encode info s) (ground (arith, e))
                (from _ (not_found-Adds wrong_return s1))
          | inr (f, e) ↦ elim (Bool-cases f.goroutine) [
            | inl g ↦
                Adds-eq s (run_function heard encode f info s1) (run_func heard encode info s)
                  (ground (arith, e, g))
                  (from _ (
                    Adds-le info 1 3 s1 _ (omega arith) (omega arith)
                      (run_function-Adds encode f s1)))
            | inr g ↦
                Adds-eq s (recovered heard info (run_function heard encode f info s1))
                  (run_func heard encode info s) (ground (arith, e, g))
                  (from _ (recovered_again-Adds s1 _ (run_function-Adds encode f s1)))
          ]
        ]
