-- ===== src/Gate/Agent/Places.antt =====
-- gate/base/mqtt_agent.go: the places that the workers of an agent take.
use mqant.Prelude.{
  ℕ, suc, ◌+◌, ◌-◌, ◌==◌, ltb, Bool, true, Option, none, some, [], ◌∷◌, ◌++◌, Bytes, Result, ok,
  err, panic, ◌≡◌, refl, ap, ◌∙◌, inl, inr, arith, Bool-cases, Option-cases,
}
use mqant.Gate.Session.{SessionAgent}
use mqant.Mqtt.Pack.{Pack, Publish}
use mqant.Gate.Agent.{
  as_publish, queue_full, marshalled, result, Answered, failed, Environment, GateAgent, Action,
  ignore, reject, ask, tell, write_msg, to_result, route_message, run_action, handle_publish,
  end_work, recover_worker, on_recover,
}

module _ {S R E : Type 0} (env : Environment S R E) where
  write_msg-ch : (topic body : Bytes) (a : GateAgent S) → (write_msg env topic body a).ch ≡ a.ch
  unfolding write_msg
  write_msg-ch topic body a = elim (Bool-cases a.has_client) [
    | inr e ↦ ground (arith, e)
    | inl e ↦ elim (Option-cases env.hook) [
      | inl f ↦ ground (arith, e, f)
      | inr (hook, f) ↦ elim (Option-cases (hook a.session topic body)) [
        | inl q ↦ ground (arith, e, f, q)
        | inr (bb, q) ↦ ground (arith, e, f, q)
      ]
    ]
  ]

  -- `toResult` of what is not marshalled yet, by what the two tries give.
  retried :
      Bytes → Result E (Option Bytes) → GateAgent S → Result (Unit {0}) (Unit {0}) × GateAgent S
  retried topic r a = elim r [ ok (some b) ↦ (ok tt, write_msg env topic b a) | _ ↦ (panic, a) ]

  tried :
      (E → Result E (Option Bytes))
      → Bytes
      → Result E (Option Bytes)
      → GateAgent S
      → Result (Unit {0}) (Unit {0}) × GateAgent S
  tried second topic r a = elim r [
    | ok (some b) ↦ (ok tt, write_msg env topic b a)
    | ok none ↦ (ok tt, a)
    | panic ↦ (panic, a)
    | err e ↦ retried topic (second e) a
  ]

  retried-ch :
      (topic : Bytes) (r : Result E (Option Bytes)) (a : GateAgent S)
      → (retried topic r a).1.ch ≡ a.ch
  unfolding retried
  retried-ch topic (ok (some b)) a = write_msg-ch topic b a
  retried-ch topic (ok none) a = refl
  retried-ch topic (err e) a = refl
  retried-ch topic panic a = refl

  tried-ch :
      (second : E → Result E (Option Bytes)) (topic : Bytes) (r : Result E (Option Bytes))
      (a : GateAgent S)
      → (tried second topic r a).1.ch ≡ a.ch
  unfolding tried
  tried-ch second topic (ok (some b)) a = write_msg-ch topic b a
  tried-ch second topic (ok none) a = refl
  tried-ch second topic (err e) a = retried-ch topic (second e) a
  tried-ch second topic panic a = refl

  answered-ch :
      (again : E → Answered R E) (topic : Bytes) (x : Answered R E) (o : Option SessionAgent)
      (a : GateAgent S) (r : Result (Unit {0}) (Unit {0}) × GateAgent S)
      → r ≡ (elim o [
        | none ↦ (panic, a)
        | some s ↦
            tried
              (λ e. env.protocol_marshal s.session.trace_id (again e))
              topic
              (env.protocol_marshal s.session.trace_id x)
              a
      ])
      → r.1.ch ≡ a.ch
  answered-ch again topic x none a r e = ap (λ z. z.1.ch) e
  answered-ch again topic x (some s) a r e =
      ap (λ z. z.1.ch) e
      ∙ tried-ch (λ e. env.protocol_marshal s.session.trace_id (again e)) topic
          (env.protocol_marshal s.session.trace_id x) a

  to_result-ch :
      (again : E → Answered R E) (topic : Bytes) (x : Answered R E) (a : GateAgent S)
      → (to_result env again topic x a).1.ch ≡ a.ch
  unfolding to_result tried retried
  to_result-ch again topic (marshalled b) a = write_msg-ch topic b a
  to_result-ch again topic (result r e) a = answered-ch again topic (result r e) a.session a _ refl
  to_result-ch again topic (failed e) a = answered-ch again topic (failed e) a.session a _ refl

  run_action-ch :
      (again : E → Answered R E) (topic : Bytes) (x : Action env) (a : GateAgent S)
      → (run_action env again topic x a).1.ch ≡ a.ch
  unfolding run_action
  run_action-ch again topic ignore a = refl
  run_action-ch again topic (reject e) a = to_result-ch again topic (failed e) a
  run_action-ch again topic (ask call) a =
      to_result-ch again topic (env.call_args call) (record a { calls = a.calls ++ call ∷ [] })
  run_action-ch again topic (tell call) a = refl

  handle_publish-ch :
      (again : E → Answered R E) (p : Publish) (a : GateAgent S)
      → (handle_publish env again p a).1.ch ≡ a.ch
  unfolding handle_publish
  handle_publish-ch again p a =
      let a' : GateAgent S = record a { rev_num = suc a.rev_num } in
      elim (Option-cases p.topic_name) [
        | inl e ↦ ground (arith, e)
        | inr (topic, e) ↦ elim (Option-cases env.router) [
          | inl f ↦ elim (Option-cases (route_message env a.session topic p.msg)) [
            | inl q ↦ ground (arith, e, f, q)
            | inr (x, q) ↦ ground (arith, e, f, q, run_action-ch again topic x a')
          ]
          | inr (on_route, f) ↦ elim (Bool-cases (on_route a.session topic p.msg).0) [
            | inl q ↦
                ground
                  (arith, e, f, q, to_result-ch again topic (on_route a.session topic p.msg).1 a')
            | inr q ↦ ground (arith, e, f, q)
          ]
        ]
      ]

  -- The storage, if there is one, returns from every `Heartbeat`.
  abbrev pub IsReturning : Type 0
  IsReturning =
      (returns : Option SessionAgent → Bool)
      → env.storage ≡ some returns
      → (s : Option SessionAgent) → returns s ≡ true

  end_work-ch : IsReturning → (now : ℕ) (a : GateAgent S) → (end_work env now a).1.ch ≡ a.ch - 1
  unfolding end_work
  end_work-ch h now a = elim (Bool-cases (ltb (a.last_heartbeat + env.heartbeat) now)) [
    | inl e ↦ elim (Option-cases env.storage) [
      | inl f ↦ ground (arith, e, f)
      | inr (returns, f) ↦ ground (arith, e, f, h returns f a.session)
    ]
    | inr e ↦ ground (arith, e)
  ]

  recover_worker-ch :
      IsReturning
      → (again : E → Answered R E) (now : ℕ) (p : Pack) (a : GateAgent S)
      → (recover_worker env again now p a).1.ch ≡ a.ch - 1
  unfolding recover_worker
  recover_worker-ch h again now p a = elim (Bool-cases (p.msg_type == 3)) [
    | inr e ↦ ground (arith, e, end_work-ch h now a)
    | inl e ↦ elim (Option-cases (as_publish p.variable)) [
      | inl f ↦ ground (arith, e, f, end_work-ch h now (record a { rev_num = suc a.rev_num }))
      | inr (q, f) ↦ ground (
        arith,
        e,
        f,
        end_work-ch h now (handle_publish env again q a).1,
        handle_publish-ch again q a,
      )
    ]
  ]

  -- A packet that comes up to the agent leaves as many workers counted as before, whether there was
  -- room or not, what type it has, and whether its worker panics, if the storage, where there is one,
  -- returns from every heartbeat.
  pub on_recover-ch :
      IsReturning
      → (again : E → Answered R E) (now : ℕ) (p : Pack) (a : GateAgent S)
      → (on_recover env again now p a).1.ch ≡ a.ch
  unfolding on_recover
  on_recover-ch h again now p a = elim (Bool-cases (ltb a.ch env.concurrent_tasks)) [
    | inl e ↦ ground (arith, e, recover_worker-ch h again now p (record a { ch = suc a.ch }))
    | inr e ↦ elim (Option-cases (as_publish p.variable)) [
      | inl f ↦ ground (arith, e, f)
      | inr (q, f) ↦ elim (Option-cases q.topic_name) [
        | inl r ↦ ground (arith, e, f, r)
        | inr (topic, r) ↦ ground (arith, e, f, r, to_result-ch again topic (failed queue_full) a)
      ]
    ]
  ]
