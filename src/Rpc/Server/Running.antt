-- ===== src/Rpc/Server/Running.antt =====
-- rpc/base/rpc_server.go: the counting around a request, and the request as a whole.
use mqant.Prelude.{
  length, ◌==◌, Bool, false, if◌then◌else◌, Option, none, some, [], ◌∷◌, ◌++◌, Bytes, Result, ℤ,
  suc_ℤ, pred_ℤ, ◌≡◌, sym, ap, ◌∙◌, subst, inl, inr, arith, Bool-cases,
}
use mqant.Rpc.Server.{
  RpcInfo, Event, wrong_number, exception, ResultInfo, RpcServer, finish, wait, function_of,
  run_func,
}
use mqant.Rpc.Server.Quiet.{
  Sum-cases, told, body_run, function_run, run_quietly, run_func-run_quietly,
}
use mqant.Rpc.Server.Answering.{replies, pred_ℤ-suc_ℤ, Answers, told-Answers, Ends, body_run-Ends}

module _ {I V : Type 0} where
  -- The counters before the request, and a token that is given back.
  unfoldable pub leave : RpcInfo → Option Bytes × RpcServer I V → RpcServer I V
  leave info (p, s') =
      let s'' = finish (record s' { executing = pred_ℤ s'.executing }) in
      elim p [ none ↦ s'' | some t ↦ told info (exception t) s'' ]

  -- A request that was answered, and whose token is still held or was given back.
  pub record Runs (info : RpcInfo) (s s' : RpcServer I V) (tokens_after : ℤ) : Type 0 where
    pub answer : ResultInfo
    pub cid : answer.cid ≡ info.cid
    pub replied :
        replies s'.events
        ≡ (if info.reply then replies s.events ++ answer ∷ [] else replies s.events)
    pub executing : s'.executing ≡ s.executing
    pub tokens : s'.tokens ≡ tokens_after
    pub control : s'.has_control ≡ s.has_control

  pub finish-fields :
      (s : RpcServer I V)
      → ((finish s).events ≡ s.events)
        × ((finish s).executing ≡ s.executing)
        × ((finish s).tokens ≡ (if s.has_control then pred_ℤ s.tokens else s.tokens))
        × ((finish s).has_control ≡ s.has_control)
  finish-fields s = elim (Bool-cases s.has_control) [
    | inl e ↦ (ground (arith, e), ground (arith, e), ground (arith, e), ground (arith, e))
    | inr e ↦ (ground (arith, e), ground (arith, e), ground (arith, e), ground (arith, e))
  ]

  leave-Runs :
      (info : RpcInfo) (s : RpcServer I V) (x : Option Bytes × RpcServer I V)
      → Ends info (record s { executing = suc_ℤ s.executing }) x
      → Runs info s (leave info x) (if s.has_control then pred_ℤ s.tokens else s.tokens)
  unfolding leave
  leave-Runs info s (none, s') w =
      let (a, b, c, d) = finish-fields (record s' { executing = pred_ℤ s'.executing }) in
      record {
        answer = w.answer;
        cid = w.cid;
        replied = ap replies a ∙ w.replied;
        executing = b ∙ ap pred_ℤ w.executing ∙ pred_ℤ-suc_ℤ s.executing;
        tokens = c ∙ ground (arith, w.tokens, w.control);
        control = d ∙ w.control;
      }
  leave-Runs info s (some t, s') w =
      let (a, b, c, d) = finish-fields (record s' { executing = pred_ℤ s'.executing }) in
      let y =
        told-Answers info (exception t) (finish (record s' { executing = pred_ℤ s'.executing })) in
      record {
        answer = y.answer;
        cid = y.cid;
        replied = y.replied ∙ ground (arith, a, w);
        executing = y.executing ∙ b ∙ ap (λ s. pred_ℤ s.executing) w ∙ pred_ℤ-suc_ℤ s.executing;
        tokens = y.tokens ∙ c ∙ ground (arith, w);
        control = y.control ∙ d ∙ ap (λ s. s.has_control) w;
      }

  -- Whether a function is found that takes as many parameters as the request has.
  abbrev pub is_callable : RpcServer I V → RpcInfo → Bool
  is_callable s info = elim (function_of s info) [
    | inr f ↦ length info.args == f.num_in
    | inl e ↦ false
  ]

  wait-Runs :
      (info : RpcInfo) (s s' : RpcServer I V) (t u : ℤ)
      → Runs info (wait s) s' t
      → t ≡ u
      → Runs info s s' u
  wait-Runs info s s' t u w e = elim (Bool-cases s.has_control) [
    | inl f ↦ record {
      answer = w.answer;
      cid = w.cid;
      replied = w.replied ∙ ground (arith, f);
      executing = w.executing ∙ ground (arith, f);
      tokens = w.tokens ∙ e;
      control = w.control ∙ ground (arith, f);
    }
    | inr f ↦ record {
      answer = w.answer;
      cid = w.cid;
      replied = w.replied ∙ ground (arith, f);
      executing = w.executing ∙ ground (arith, f);
      tokens = w.tokens ∙ e;
      control = w.control ∙ ground (arith, f);
    }
  ]

  function_of-wait :
      (s : RpcServer I V) (info : RpcInfo) → function_of (wait s) info ≡ function_of s info
  function_of-wait s info = elim (Bool-cases s.has_control) [
    | inl e ↦ ground (arith, e)
    | inr e ↦ ground (arith, e)
  ]

  wait-tokens :
      (s : RpcServer I V) → (wait s).tokens ≡ (if s.has_control then suc_ℤ s.tokens else s.tokens)
  wait-tokens s = elim (Bool-cases s.has_control) [
    | inl e ↦ ground (arith, e)
    | inr e ↦ ground (arith, e)
  ]

  wait-finish-tokens :
      (s : RpcServer I V)
      → (if (wait s).has_control then pred_ℤ (wait s).tokens else (wait s).tokens) ≡ s.tokens
  wait-finish-tokens s = elim (Bool-cases s.has_control) [
    | inl e ↦ ground (arith, e, pred_ℤ-suc_ℤ s.tokens)
    | inr e ↦ ground (arith, e)
  ]

  Answers-Runs :
      (info : RpcInfo) (s s' : RpcServer I V) → Answers info s s' → Runs info s s' s.tokens
  Answers-Runs info s s' w = record {
    answer = w.answer;
    cid = w.cid;
    replied = w.replied;
    executing = w.executing;
    tokens = w.tokens;
    control = w.control;
  }

  Runs-eq :
      (info : RpcInfo) (s x y : RpcServer I V) (t : ℤ) → y ≡ x → Runs info s x t → Runs info s y t
  Runs-eq info s x y t e w = subst (λ z. Runs info s z t) (sym e) w

  run_quietly-Runs :
      (encode : V → Result Bytes (Bytes × Bytes)) (info : RpcInfo) (s : RpcServer I V)
      → Runs info s (run_quietly encode info s) (
          if is_callable s info
          then s.tokens
          else if s.has_control
          then suc_ℤ s.tokens
          else s.tokens)
  unfolding run_quietly function_run leave
  run_quietly-Runs encode info s = elim (Sum-cases (function_of s info)) [
    | inl (e, q) ↦
        Runs-eq info s (told info e (wait s)) (run_quietly encode info s) _
          (ground (arith, q, function_of-wait s info))
          (wait-Runs info s _ _ _ (Answers-Runs info (wait s) _ (told-Answers info e (wait s)))
            (wait-tokens s ∙ ground (arith, q)))
    | inr (f, q) ↦ elim (Bool-cases (length info.args == f.num_in)) [
      | inl r ↦
          Runs-eq info s
            (leave info
              (body_run encode f info (record (wait s) { executing = suc_ℤ (wait s).executing })))
            (run_quietly encode info s) _ (ground (arith, q, r, function_of-wait s info))
            (wait-Runs info s _ _ _
              (leave-Runs info (wait s) _ (
                body_run-Ends encode f info
                  (record (wait s) { executing = suc_ℤ (wait s).executing })))
              (wait-finish-tokens s ∙ ground (arith, q, r)))
      | inr r ↦
          Runs-eq info s (told info wrong_number (wait s)) (run_quietly encode info s) _
            (ground (arith, q, r, function_of-wait s info))
            (wait-Runs info s _ _ _
              (Answers-Runs info (wait s) _ (told-Answers info wrong_number (wait s)))
              (wait-tokens s ∙ ground (arith, q, r)))
    ]
  ]

  -- If no call of a hook panics (`Callback`, `ServerRPCHandler`, `OnError`, `OnComplete`), every request
  -- runs to an end without a panic at which exactly one answer with its correlation id was given to
  -- `Callback`, if it wants one, and none otherwise, whatever the function and the codec do, and
  -- whatever the listener does before the call; the number of executing requests is that of before. A
  -- place in the goroutine control is given back only if a function is found that takes as many
  -- parameters as the request has; otherwise the request keeps it.
  pub run_func-Runs :
      (heard : Event → Option Bytes)
      → ((e : Event) → heard e ≡ none)
      → (encode : V → Result Bytes (Bytes × Bytes)) (info : RpcInfo) (s : RpcServer I V)
      → ((run_func heard encode info s).0 ≡ none)
        × Runs info s (run_func heard encode info s).1 (
            if is_callable s info
            then s.tokens
            else if s.has_control
            then suc_ℤ s.tokens
            else s.tokens)
  run_func-Runs heard q encode info s =
      let e = run_func-run_quietly heard q encode info s in
      (ap (λ x. x.0) e, Runs-eq info s _ _ _ (ap (λ x. x.1) e) (run_quietly-Runs encode info s))
