-- ===== src/Gate/Agent/Routing.antt =====
-- gate/base/mqtt_agent.go: which messages of a device are answered.
use mqant.Prelude.{
  Bool, true, false, Option, some, List, [], ◌∷◌, Bytes, ◌≡◌, refl, inl, inr, arith, Bool-cases,
  Option-cases,
}
use mqant.Gate.Session.{SessionAgent}
use mqant.Gate.Handler.{split}
use mqant.Rpc.Args.{has_prefix}
use mqant.Gate.Agent.{
  RouteError, method_prefix, service_not_found, json_incorrect, topic_too_short, Environment,
  Action, ignore, reject, ask, tell, sent_session, call_of, message_type, if_wanted, route_parts,
  route_message, handler_prefix,
}

-- The device waits for an answer: its topic has no method, or has three parts with an id.
abbrev pub wants_answer : List Bytes → Bool
wants_answer [] = true
wants_answer (service ∷ []) = true
wants_answer (service ∷ method ∷ []) = false
wants_answer (service ∷ method ∷ [] ∷ []) = false
wants_answer (service ∷ method ∷ (c ∷ id) ∷ []) = true
wants_answer (service ∷ method ∷ id ∷ more ∷ rest) = false

module _ {S R E : Type 0} (env : Environment S R E) where
  abbrev pub answers : Action env → Bool
  answers ignore = false
  answers (reject e) = true
  answers (ask call) = true
  answers (tell call) = false

  abbrev pub nonempty : Bytes → Bool
  nonempty [] = false
  nonempty (c ∷ s) = true

  Routes : Option (Action env) → Bool → Type 0
  Routes o b = (x : Action env) × (o ≡ some x) × (answers x ≡ b)

  if_wanted-answers :
      (msgid : Bytes) (e : RouteError) → answers (if_wanted env msgid e) ≡ nonempty msgid
  if_wanted-answers [] e = refl
  if_wanted-answers (c ∷ msgid) e = refl

  call_of-answers :
      (server : S) (fn ptype b msg msgid : Bytes)
      → answers (call_of env server fn ptype b msg msgid) ≡ nonempty msgid
  call_of-answers server fn ptype b msg [] = refl
  call_of-answers server fn ptype b msg (c ∷ msgid) = refl

  route_parts-Routes :
      (s : SessionAgent) (topic msg service method msgid b : Bytes)
      → sent_session env topic s ≡ some b
      → Routes (route_parts env (some s) topic msg service method msgid) (nonempty msgid)
  unfolding Routes route_parts
  route_parts-Routes s topic msg service method msgid b e =
      elim (Bool-cases (has_prefix method (handler_prefix env))) [
        | inr f ↦ (
          if_wanted env msgid (method_prefix method),
          ground (arith, f),
          if_wanted-answers msgid (method_prefix method),
        )
        | inl f ↦ elim (Option-cases (env.get_route_server service)) [
          | inl q ↦ (
            if_wanted env msgid (service_not_found service),
            ground (arith, f, q),
            if_wanted-answers msgid (service_not_found service),
          )
          | inr (server, q) ↦ elim (Option-cases (message_type env msg)) [
            | inl r ↦ (
              if_wanted env msgid json_incorrect,
              ground (arith, f, q, r),
              if_wanted-answers msgid json_incorrect,
            )
            | inr (ptype, r) ↦ (
              call_of env server method ptype b msg msgid,
              ground (arith, f, q, r, e),
              call_of-answers server method ptype b msg msgid,
            )
          ]
        ]
      ]

  route_split :
      (s : SessionAgent) (topic msg b : Bytes) (parts : List Bytes)
      → split 47 topic ≡ parts
      → sent_session env topic s ≡ some b
      → Routes (route_message env (some s) topic msg) (wants_answer parts)
  unfolding Routes route_message
  route_split s topic msg b [] p e = (reject topic_too_short, ground (arith, p), refl)
  route_split s topic msg b (service ∷ []) p e = (reject topic_too_short, ground (arith, p), refl)
  route_split s topic msg b (service ∷ method ∷ []) p e =
      let (x, q, r) = route_parts-Routes s topic msg service method [] b e in
      (x, ground (arith, p, q), r)
  route_split s topic msg b (service ∷ method ∷ [] ∷ []) p e =
      let (x, q, r) = route_parts-Routes s topic msg service method [] b e in
      (x, ground (arith, p, q), r)
  route_split s topic msg b (service ∷ method ∷ (c ∷ id) ∷ []) p e =
      let (x, q, r) = route_parts-Routes s topic msg service method (c ∷ id) b e in
      (x, ground (arith, p, q), r)
  route_split s topic msg b (service ∷ method ∷ id ∷ more ∷ rest) p e =
      let (x, q, r) = route_parts-Routes s topic msg service method [] b e in
      (x, ground (arith, p, q), r)

  -- Without a router, a message of a device whose session can be written is answered exactly if its
  -- topic has fewer than two parts, or three of which the last is not empty, whatever the method,
  -- the service and the message are.
  pub route_message-answers :
      (s : SessionAgent) (topic msg b : Bytes)
      → sent_session env topic s ≡ some b
      → (x : Action env) × (route_message env (some s) topic msg ≡ some x)
        × (answers x ≡ wants_answer (split 47 topic))
  unfolding Routes
  route_message-answers s topic msg b e = route_split s topic msg b (split 47 topic) refl e
