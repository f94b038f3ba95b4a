-- ===== src/Rpc/Server/Replying.antt =====
-- rpc/base/rpc_server.go: the answer that each end of a function makes.
use mqant.Prelude.{
  ◌==◌, length, true, Option, none, some, List, [], ◌∷◌, ◌++◌, append-nil, Bytes, Result, ok, suc_ℤ,
  pred_ℤ, ◌≡◌, refl, ap, ◌∙◌, inl, inr, arith, Bool-cases,
}
use mqant.Rpc.Args.{null_type}
use mqant.Rpc.Server.{
  RpcInfo, CallError, wrong_return, exception, ResultInfo, new_result_info, Returned, Outcome,
  panics, values, returns, error_of, FunctionInfo, Listener, Event, called_back, handled, on_error,
  on_complete, RpcServer, emit, decode_args, finish, wait,
}
use mqant.Rpc.Server.Quiet.{
  called, told, value_answer, sent, function_called, body_run, function_run, run_quietly,
}
use mqant.Rpc.Server.Answering.{replies, replies-append}
use mqant.Rpc.Server.Running.{leave, finish-fields}

-- The answers that the parts of the run add, to a request that wants one.
module _ {I V : Type 0} where
  abbrev heard : Event → Option (Listener I V) → RpcServer I V → RpcServer I V
  heard e o s = elim o [ none ↦ s | some l ↦ emit e s ]

  emit-replies :
      (e : Event) (s : RpcServer I V)
      → replies (e ∷ []) ≡ []
      → replies (emit e s).events ≡ replies s.events
  emit-replies e s q =
      replies-append s.events e ∙ ap (λ l. replies s.events ++ l) q ∙ append-nil (replies s.events)

  heard-replies :
      (e : Event) (o : Option (Listener I V)) (s : RpcServer I V)
      → replies (e ∷ []) ≡ []
      → replies (heard e o s).events ≡ replies s.events
  heard-replies e none s q = refl
  heard-replies e (some l) s q = emit-replies e s q

  called-replies :
      (info : RpcInfo) (r : ResultInfo) (s : RpcServer I V)
      → info.reply ≡ true
      → replies (called info r s).events ≡ replies s.events ++ r ∷ []
  unfolding called
  called-replies info r s w =
      let s' = emit (called_back r) s in
      elim (Bool-cases s.has_rpc_handler) [
        | inl e ↦
            ground (arith, w, e)
            ∙ emit-replies (handled r) s' refl
            ∙ replies-append s.events (called_back r)
        | inr e ↦ ground (arith, w, e) ∙ replies-append s.events (called_back r)
      ]

  pub told-replies :
      (info : RpcInfo) (e : CallError) (s : RpcServer I V)
      → info.reply ≡ true
      → replies (told info e s).events
        ≡ replies s.events ++ new_result_info info.cid (some e) null_type [] ∷ []
  unfolding told
  told-replies info e s w =
      heard-replies (on_error info.fn) _
        (called info (new_result_info info.cid (some e) null_type []) s) refl
      ∙ called-replies info (new_result_info info.cid (some e) null_type []) s w

  pub value_answer-replies :
      (info : RpcInfo) (r : Returned) (t b : Bytes) (s : RpcServer I V)
      → info.reply ≡ true
      → replies (value_answer info r t b s).events
        ≡ replies s.events ++ new_result_info info.cid (error_of r) t b ∷ []
  unfolding value_answer
  value_answer-replies info r t b s w =
      heard-replies (on_complete info.fn) _
        (called info (new_result_info info.cid (error_of r) t b) s) refl
      ∙ called-replies info (new_result_info info.cid (error_of r) t b) s w

  -- The listener, if there is one, lets the request pass.
  pub data Passes (s : RpcServer I V) (info : RpcInfo) : Type 0 where
    no_listener : s.listener ≡ none → Passes s info
    let_by :
        (l : Listener I V)
        → s.listener ≡ some l
        → l.before_handle info.fn info ≡ ok tt
        → Passes s info

  unfoldable pub outcome :
      (V → Result Bytes (Bytes × Bytes))
      → RpcInfo
      → RpcServer I V
      → Outcome V
      → Option Bytes × RpcServer I V
  outcome encode info s (panics t) = (some t, s)
  outcome encode info s (values n) = (none, told info wrong_return s)
  outcome encode info s (returns v r) = sent encode info v r s

  function_called-outcome :
      (encode : V → Result Bytes (Bytes × Bytes)) (f : FunctionInfo I V) (info : RpcInfo)
      (s : RpcServer I V) (is : List I) (o : Outcome V)
      → (length is == f.num_in) ≡ true
      → f.function is ≡ o
      → function_called encode f info is s ≡ outcome encode info s o
  unfolding function_called outcome
  function_called-outcome encode f info s is (panics t) r e = ground (arith, r, e)
  function_called-outcome encode f info s is (values n) r e = ground (arith, r, e)
  function_called-outcome encode f info s is (returns v x) r e = ground (arith, r, e)

  pub body_run-outcome :
      (encode : V → Result Bytes (Bytes × Bytes)) (f : FunctionInfo I V) (info : RpcInfo)
      (s : RpcServer I V) (is : List I) (o : Outcome V)
      → Passes s info
      → decode_args f 0 info.args_type info.args ≡ ok is
      → (length is == f.num_in) ≡ true
      → f.function is ≡ o
      → body_run encode f info s ≡ outcome encode info s o
  unfolding body_run
  body_run-outcome encode f info s is o (no_listener q) e r u =
      ground (arith, q, e) ∙ function_called-outcome encode f info s is o r u
  body_run-outcome encode f info s is o (let_by l q w) e r u =
      ground (arith, q, w, e) ∙ function_called-outcome encode f info s is o r u

  pub Passes-quiet :
      (s : RpcServer I V) (info : RpcInfo) → Passes s info → Passes (record s { events = [] }) info
  Passes-quiet s info (no_listener q) = no_listener q
  Passes-quiet s info (let_by l q w) = let_by l q w

  -- The state in which the function is called.
  abbrev pub entered : RpcServer I V → RpcServer I V
  entered s = record (wait s) { executing = suc_ℤ (wait s).executing }

  pub entered-events : (s : RpcServer I V) → (entered s).events ≡ s.events
  entered-events s = elim (Bool-cases s.has_control) [
    | inl e ↦ ground (arith, e)
    | inr e ↦ ground (arith, e)
  ]

  entered-listener : (s : RpcServer I V) → (entered s).listener ≡ s.listener
  entered-listener s = elim (Bool-cases s.has_control) [
    | inl e ↦ ground (arith, e)
    | inr e ↦ ground (arith, e)
  ]

  pub entered-Passes :
      (s : RpcServer I V) (info : RpcInfo) → Passes s info → Passes (entered s) info
  entered-Passes s info (no_listener q) = no_listener (entered-listener s ∙ q)
  entered-Passes s info (let_by l q w) = let_by l (entered-listener s ∙ q) w

  entered-functions : (s : RpcServer I V) (id : Bytes) → (wait s).functions id ≡ s.functions id
  entered-functions s id = elim (Bool-cases s.has_control) [
    | inl e ↦ ground (arith, e)
    | inr e ↦ ground (arith, e)
  ]

  pub run_quietly-leave :
      (encode : V → Result Bytes (Bytes × Bytes)) (f : FunctionInfo I V) (info : RpcInfo)
      (s : RpcServer I V)
      → s.functions info.fn ≡ some f
      → (length info.args == f.num_in) ≡ true
      → run_quietly encode info s ≡ leave info (body_run encode f info (entered s))
  unfolding run_quietly function_run leave
  run_quietly-leave encode f info s e r = ground (arith, e, r, entered-functions s info.fn)

  -- The one answer for an outcome.
  pub leave-none :
      (info : RpcInfo) (s : RpcServer I V)
      → replies (leave info (none, s)).events ≡ replies s.events
  unfolding leave
  leave-none info s = ap replies (finish-fields (record s { executing = pred_ℤ s.executing })).0

  pub leave-some :
      (info : RpcInfo) (t : Bytes) (s : RpcServer I V)
      → info.reply ≡ true
      → replies (leave info (some t, s)).events
        ≡ replies s.events ++ new_result_info info.cid (some (exception t)) null_type [] ∷ []
  unfolding leave
  leave-some info t s w =
      told-replies info (exception t) (finish (record s { executing = pred_ℤ s.executing })) w
      ∙ ap (λ es. replies es ++ new_result_info info.cid (some (exception t)) null_type [] ∷ [])
          (finish-fields (record s { executing = pred_ℤ s.executing })).0
