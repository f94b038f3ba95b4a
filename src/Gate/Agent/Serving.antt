-- ===== src/Gate/Agent/Serving.antt =====
-- gate/base/mqtt_agent.go: the messages that a device gets for those that it sends.
use mqant.Prelude.{
  suc, Bool, true, if◌then◌else◌, none, some, [], ◌∷◌, ◌++◌, Bytes, Result, ok, ◌≡◌, refl, ap, ◌∙◌,
  arith,
}
use mqant.Gate.Session.{SessionAgent}
use mqant.Gate.Handler.{split}
use mqant.Mqtt.Pack.{Publish}
use mqant.Gate.Agent.{
  marshalled, result, Answered, failed, Environment, GateAgent, Action, ignore, reject, ask, tell,
  write_msg, to_result, sent_session, run_action, handle_publish,
}
use mqant.Gate.Agent.Routing.{wants_answer, answers, route_message-answers}

module _ {S R E : Type 0} (env : Environment S R E) where
  -- The call returns, with one more message for the device, or none.
  Delivers : Bool → Bytes → GateAgent S → Result (Unit {0}) (Unit {0}) × GateAgent S → Type 0
  Delivers w topic a r =
      (x : Bytes) × (r.0 ≡ ok tt)
      × (r.1.written ≡ (if w then a.written ++ (topic, x) ∷ [] else a.written))

  -- A device that is connected, without a hook, and whose answers are all written as some bytes.
  pub record IsServed (s : SessionAgent) (a : GateAgent S) : Type 0 where
    pub has_session : a.session ≡ some s
    pub has_client : a.has_client ≡ true
    pub no_hook : env.hook ≡ none
    pub data_of : Answered R E → Bytes
    pub marshals :
        (x : Answered R E) → env.protocol_marshal s.session.trace_id x ≡ ok (some (data_of x))

  to_result-Delivers :
      (s : SessionAgent) (again : E → Answered R E) (topic : Bytes) (x : Answered R E)
      (a : GateAgent S)
      → IsServed s a
      → Delivers true topic a (to_result env again topic x a)
  unfolding Delivers to_result write_msg
  to_result-Delivers s again topic (marshalled b) a h =
      (b, refl, ground (arith, h.has_client, h.no_hook))
  to_result-Delivers s again topic (result r e) a h =
      let m = h.marshals (result r e) in
      (
        h.data_of (result r e),
        ground (arith, h.has_session, m),
        ground (arith, h.has_session, m, h.has_client, h.no_hook),
      )
  to_result-Delivers s again topic (failed e) a h =
      let m = h.marshals (failed e) in
      (
        h.data_of (failed e),
        ground (arith, h.has_session, m),
        ground (arith, h.has_session, m, h.has_client, h.no_hook),
      )

  IsServed-as :
      (s : SessionAgent) (a a' : GateAgent S)
      → a'.session ≡ a.session
      → a'.has_client ≡ a.has_client
      → IsServed s a
      → IsServed s a'
  IsServed-as s a a' e f h = record {
    has_session = e ∙ h.has_session;
    has_client = f ∙ h.has_client;
    no_hook = h.no_hook;
    data_of = h.data_of;
    marshals = h.marshals;
  }

  run_action-Delivers :
      (s : SessionAgent) (again : E → Answered R E) (topic : Bytes) (x : Action env)
      (a : GateAgent S)
      → IsServed s a
      → Delivers (answers env x) topic a (run_action env again topic x a)
  unfolding Delivers run_action
  run_action-Delivers s again topic ignore a h = ([], refl, refl)
  run_action-Delivers s again topic (reject e) a h = to_result-Delivers s again topic (failed e) a h
  run_action-Delivers s again topic (ask call) a h =
      to_result-Delivers s again topic (env.call_args call)
        (record a { calls = a.calls ++ call ∷ [] }) (IsServed-as s a _ refl refl h)
  run_action-Delivers s again topic (tell call) a h = ([], refl, refl)

  -- Without a router and without a hook on what is sent, a message of a device that has a session and
  -- a client, whose session can be written and whose answers are all written as some bytes, is handled
  -- without a panic. It is answered with one message under its topic if the topic has fewer than two
  -- parts, or three of which the last is not empty, and not at all otherwise, whatever the method, the
  -- service and the message are.
  pub handle_publish-answers :
      (s : SessionAgent) (again : E → Answered R E) (p : Publish) (topic b : Bytes)
      (a : GateAgent S)
      → IsServed s a
      → env.router ≡ none
      → sent_session env topic s ≡ some b
      → p.topic_name ≡ some topic
      → (x : Bytes) × ((handle_publish env again p a).0 ≡ ok tt)
        × ((handle_publish env again p a).1.written
            ≡ (if wants_answer (split 47 topic) then a.written ++ (topic, x) ∷ [] else a.written))
  unfolding Delivers handle_publish
  handle_publish-answers s again p topic b a h n e t =
      let (act, q, r) = route_message-answers env s topic p.msg b e in
      let a' : GateAgent S = record a { rev_num = suc a.rev_num } in
      let (x, u, v) = run_action-Delivers s again topic act a' (IsServed-as s a a' refl refl h) in
      let eq : handle_publish env again p a ≡ run_action env again topic act a' =
        ground (arith, h.has_session, n, t, q) in
      (x, ap (λ z. z.0) eq ∙ u, ap (λ z. z.1.written) eq ∙ v ∙ ground (arith, r))
