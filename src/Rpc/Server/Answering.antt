-- ===== src/Rpc/Server/Answering.antt =====
-- rpc/base/rpc_server.go: every request is answered, and the counters go back.
use mqant.Prelude.{
  length, zero, suc, ◌==◌, if◌then◌else◌, Option, none, some, List, [], ◌∷◌, ◌++◌, append-nil,
  Bytes, Result, ok, err, panic, ℤ, pos, negsuc, suc_ℤ, pred_ℤ, ◌≡◌, refl, sym, ap, ◌∙◌, subst, inl,
  inr, arith, Bool-cases, Option-cases, Result-cases,
}
use mqant.Rpc.Args.{null_type}
use mqant.Rpc.Server.{
  RpcInfo, CallError, text, wrong_return, ResultInfo, new_result_info, Returned, no_error,
  error_text, not_error, Outcome, panics, values, returns, error_of, FunctionInfo, Listener, Event,
  called_back, handled, logged, on_error, on_complete, RpcServer, emit, decode_args,
}
use mqant.Rpc.Server.Quiet.{called, told, value_answer, sent, function_called, body_run}

-- The answers that went out.
abbrev pub replies : List Event → List ResultInfo
replies [] = []
replies (called_back r ∷ es) = r ∷ replies es
replies (handled r ∷ es) = replies es
replies (logged f ∷ es) = replies es
replies (on_error f ∷ es) = replies es
replies (on_complete f ∷ es) = replies es

pub replies-append :
    (es : List Event) (e : Event) → replies (es ++ e ∷ []) ≡ replies es ++ replies (e ∷ [])
replies-append [] e = elim e [
  | called_back r ↦ refl
  | handled r ↦ refl
  | logged f ↦ refl
  | on_error f ↦ refl
  | on_complete f ↦ refl
]
replies-append (called_back r ∷ es) e = ap (λ l. r ∷ l) (replies-append es e)
replies-append (handled r ∷ es) e = replies-append es e
replies-append (logged f ∷ es) e = replies-append es e
replies-append (on_error f ∷ es) e = replies-append es e
replies-append (on_complete f ∷ es) e = replies-append es e

pub pred_ℤ-suc_ℤ : (z : ℤ) → pred_ℤ (suc_ℤ z) ≡ z
pred_ℤ-suc_ℤ (pos n) = refl
pred_ℤ-suc_ℤ (negsuc zero) = refl
pred_ℤ-suc_ℤ (negsuc (suc n)) = refl

module _ {I V : Type 0} where
  -- One answer with the correlation id goes out if the request wants one, and nothing else changes.
  pub record Answers (info : RpcInfo) (s s' : RpcServer I V) : Type 0 where
    pub answer : ResultInfo
    pub cid : answer.cid ≡ info.cid
    pub replied :
        replies s'.events
        ≡ (if info.reply then replies s.events ++ answer ∷ [] else replies s.events)
    pub executing : s'.executing ≡ s.executing
    pub tokens : s'.tokens ≡ s.tokens
    pub control : s'.has_control ≡ s.has_control

  Answers-eq :
      (info : RpcInfo) (s s1 s2 : RpcServer I V) → s2 ≡ s1 → Answers info s s1 → Answers info s s2
  Answers-eq info s s1 s2 e x = subst (λ s'. Answers info s s') (sym e) x

  -- What is not an answer may go out after it.
  Answers-emit :
      (info : RpcInfo) (s s' : RpcServer I V) (e : Event)
      → replies (e ∷ []) ≡ []
      → Answers info s s'
      → Answers info s (emit e s')
  Answers-emit info s s' e q x = record {
    answer = x.answer;
    cid = x.cid;
    replied =
        replies-append s'.events e
        ∙ ap (λ l. replies s'.events ++ l) q
        ∙ append-nil (replies s'.events)
        ∙ x.replied;
    executing = x.executing;
    tokens = x.tokens;
    control = x.control;
  }

  -- The answer, or what is logged in its place.
  abbrev first_called : RpcInfo → ResultInfo → RpcServer I V → RpcServer I V
  first_called info r s =
      if info.reply
      then emit (called_back r) s
      else elim r.error [ none ↦ s | some e ↦ emit (logged info.fn) s ]

  first_called-Answers :
      (info : RpcInfo) (r : ResultInfo) (s : RpcServer I V)
      → r.cid ≡ info.cid
      → Answers info s (first_called info r s)
  first_called-Answers info r s e = elim (Bool-cases info.reply) [
    | inl f ↦
        Answers-eq info s (emit (called_back r) s) (first_called info r s) (ground (arith, f))
          (record {
            answer = r;
            cid = e;
            replied = ground (arith, f, replies-append s.events (called_back r));
            executing = refl;
            tokens = refl;
            control = refl;
          })
    | inr f ↦
        let quiet : Answers info s s = record {
          answer = r;
          cid = e;
          replied = ground (arith, f);
          executing = refl;
          tokens = refl;
          control = refl;
        } in
        elim (Option-cases r.error) [
          | inl q ↦ Answers-eq info s s (first_called info r s) (ground (arith, f, q)) quiet
          | inr (x, q) ↦
              Answers-eq info s (emit (logged info.fn) s) (first_called info r s)
                (ground (arith, f, q)) (Answers-emit info s s (logged info.fn) refl quiet)
        ]
  ]

  handled-Answers :
      (info : RpcInfo) (r : ResultInfo) (s s' : RpcServer I V)
      → Answers info s s'
      → Answers info s (if s'.has_rpc_handler then emit (handled r) s' else s')
  handled-Answers info r s s' x = elim (Bool-cases s'.has_rpc_handler) [
    | inl e ↦
        Answers-eq info s (emit (handled r) s') _ (ground (arith, e))
          (Answers-emit info s s' (handled r) refl x)
    | inr e ↦ Answers-eq info s s' _ (ground (arith, e)) x
  ]

  pub called-Answers :
      (info : RpcInfo) (r : ResultInfo) (s : RpcServer I V)
      → r.cid ≡ info.cid
      → Answers info s (called info r s)
  unfolding called
  called-Answers info r s e =
      handled-Answers info r s (first_called info r s) (first_called-Answers info r s e)

  -- The listener hears of the answer after it.
  heard-Answers :
      (info : RpcInfo) (e : Event) (o : Option (Listener I V)) (s s' : RpcServer I V)
      → replies (e ∷ []) ≡ []
      → Answers info s s'
      → Answers info s (elim o [ none ↦ s' | some l ↦ emit e s' ])
  heard-Answers info e none s s' q x = x
  heard-Answers info e (some l) s s' q x = Answers-emit info s s' e q x

  pub told-Answers :
      (info : RpcInfo) (e : CallError) (s : RpcServer I V) → Answers info s (told info e s)
  unfolding told new_result_info
  told-Answers info e s =
      heard-Answers info (on_error info.fn) _ s _ refl
        (called-Answers info (new_result_info info.cid (some e) null_type []) s refl)

  -- A part of the run ends with the answer, or with a panic before it.
  abbrev pub Ends : RpcInfo → RpcServer I V → Option Bytes × RpcServer I V → Type 0
  Ends info s (none, s') = Answers info s s'
  Ends info s (some t, s') = s' ≡ s

  Ends-eq :
      (info : RpcInfo) (s : RpcServer I V) (x y : Option Bytes × RpcServer I V)
      → y ≡ x
      → Ends info s x
      → Ends info s y
  Ends-eq info s x y e w = subst (λ z. Ends info s z) (sym e) w

  value_answer-Answers :
      (info : RpcInfo) (r : Returned) (ptype b : Bytes) (s : RpcServer I V)
      → Answers info s (value_answer info r ptype b s)
  unfolding value_answer new_result_info
  value_answer-Answers info r ptype b s =
      heard-Answers info (on_complete info.fn) _ s _ refl
        (called-Answers info (new_result_info info.cid (error_of r) ptype b) s refl)

  encoded-Ends :
      (info : RpcInfo) (r : Returned) (s : RpcServer I V) (o : Result Bytes (Bytes × Bytes))
      → Ends info s (elim o [
        | err t ↦ (none, told info (text t) s)
        | panic ↦ (some [], s)
        | ok (ptype, b) ↦ (none, value_answer info r ptype b s)
      ])
  encoded-Ends info r s (err t) = told-Answers info (text t) s
  encoded-Ends info r s panic = refl
  encoded-Ends info r s (ok (ptype, b)) = value_answer-Answers info r ptype b s

  sent-Ends :
      (encode : V → Result Bytes (Bytes × Bytes)) (info : RpcInfo) (v : V) (r : Returned)
      (s : RpcServer I V)
      → Ends info s (sent encode info v r s)
  unfolding sent value_answer
  sent-Ends encode info v no_error s = encoded-Ends info no_error s (encode v)
  sent-Ends encode info v (error_text t) s = encoded-Ends info (error_text t) s (encode v)
  sent-Ends encode info v not_error s = told-Answers info wrong_return s

  outcome-Ends :
      (encode : V → Result Bytes (Bytes × Bytes)) (info : RpcInfo) (s : RpcServer I V)
      (o : Outcome V)
      → Ends info s (elim o [
        | panics t ↦ (some t, s)
        | values n ↦ (none, told info wrong_return s)
        | returns v r ↦ sent encode info v r s
      ])
  outcome-Ends encode info s (panics t) = refl
  outcome-Ends encode info s (values n) = told-Answers info wrong_return s
  outcome-Ends encode info s (returns v r) = sent-Ends encode info v r s

  function_called-Ends :
      (encode : V → Result Bytes (Bytes × Bytes)) (f : FunctionInfo I V) (info : RpcInfo)
      (is : List I) (s : RpcServer I V)
      → Ends info s (function_called encode f info is s)
  unfolding function_called
  function_called-Ends encode f info is s = elim (Bool-cases (length is == f.num_in)) [
    | inl e ↦
        Ends-eq info s _ (function_called encode f info is s) (ground (arith, e))
          (outcome-Ends encode info s (f.function is))
    | inr e ↦
        Ends-eq info s (some [], s) (function_called encode f info is s) (ground (arith, e)) refl
  ]

  pub body_run-Ends :
      (encode : V → Result Bytes (Bytes × Bytes)) (f : FunctionInfo I V) (info : RpcInfo)
      (s : RpcServer I V)
      → Ends info s (body_run encode f info s)
  unfolding body_run
  body_run-Ends encode f info s = elim (Result-cases (decode_args f 0 info.args_type info.args)) [
    | inl (is, e) ↦ elim (Option-cases s.listener) [
      | inl q ↦
          Ends-eq info s (function_called encode f info is s) (body_run encode f info s)
            (ground (arith, e, q)) (function_called-Ends encode f info is s)
      | inr (l, q) ↦ elim (Result-cases (l.before_handle info.fn info)) [
        | inl (u, r) ↦
            Ends-eq info s (function_called encode f info is s) (body_run encode f info s)
              (ground (arith, e, q, r)) (function_called-Ends encode f info is s)
        | inr (inl (t, r)) ↦
            Ends-eq info s (none, told info (text t) s) (body_run encode f info s)
              (ground (arith, e, q, r)) (told-Answers info (text t) s)
        | inr (inr r) ↦
            Ends-eq info s (some [], s) (body_run encode f info s) (ground (arith, e, q, r)) refl
      ]
    ]
    | inr (inl (t, e)) ↦
        Ends-eq info s (none, told info (text t) s) (body_run encode f info s) (ground (arith, e))
          (told-Answers info (text t) s)
    | inr (inr e) ↦ Ends-eq info s (some [], s) (body_run encode f info s) (ground (arith, e)) refl
  ]
