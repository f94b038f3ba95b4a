-- ===== src/Gate/UriRoute/Waiting.antt =====
-- gate/uriroute/uri_route.go: which messages are answered, and the calls that are made for them.
use mqant.Prelude.{
  Bool, true, false, Option, none, some, List, [], ◌∷◌, Bytes, ◌≡◌, refl, sym, subst, inl, inr,
  arith, Option-cases, Result-cases, Bool-cases, Dict, find, has_key, same, false, ◌∙◌, ◌∷◌,
}
use mqant.Gate.Session.{SessionAgent, clone, set_topic}
use mqant.Gate.UriRoute.{
  msg_id, Url, UriRoute, Routed, Route, RouteCall, Made, waited, told, not_uri, query_error, fails,
  json_incorrect, not_serializable, with_bytes, with_bean, param_type, select_server, bean_of,
  make_call, route_bytes, route_to, on_route,
}

module _ {S R E B : Type 0} (u : UriRoute S R E B) where
  abbrev pub is_waited : Made S B → Bool
  is_waited (waited c) = true
  is_waited (told c) = false

  -- At most one call, that waits exactly if the device is answered.
  abbrev pub CallsOnce : Bool → List (Made S B) → Type 0
  CallsOnce need [] = Unit
  CallsOnce need (c ∷ []) = is_waited c ≡ need
  CallsOnce need (c ∷ d ∷ cs) = ⊥

  -- What is wanted by the topic: an answer, unless it is a URI with a query that has no "msg_id".
  abbrev pub wants_answer : Bytes → Bool
  wants_answer topic = elim (u.parse topic) [
    | none ↦ true
    | some uu ↦ elim (u.parse_query uu.raw_query) [
      | none ↦ true
      | some m ↦ elim (find (109 ∷ 115 ∷ 103 ∷ 95 ∷ 105 ∷ 100 ∷ []) m) [
        | none ↦ false
        | some values ↦ true
      ]
    ]
  ]

  -- What the result of a route is, if it needs an answer exactly as `need` says.
  IsRight : Bool → Routed S R E B → Type 0
  IsRight need r = (r.need_return ≡ need) × CallsOnce need r.calls

  make_call-IsRight :
      (need : Bool) (s : SessionAgent) (c : RouteCall S B) → IsRight need (make_call u need s c)
  unfolding IsRight make_call
  make_call-IsRight true s c = (refl, refl)
  make_call-IsRight false s c = elim (Option-cases (u.call_nr c)) [
    | inl f ↦ (ground (arith, f), ground (arith, f))
    | inr (x, f) ↦ (ground (arith, f), ground (arith, f))
  ]

  fails-IsRight : (need : Bool) (r : Route R E) (s : SessionAgent) → IsRight need (fails u need r s)
  unfolding IsRight
  fails-IsRight need r s = (refl, tt)

  IsRight-as : (need : Bool) {r r' : Routed S R E B} → r' ≡ r → IsRight need r → IsRight need r'
  IsRight-as need e h = subst (IsRight need) (sym e) h

  route_bytes-IsRight :
      (need : Bool) (s : SessionAgent) (topic : Bytes) (uu : Url) (msg : Bytes) (server : S)
      → IsRight need (route_bytes u need s topic uu msg server)
  unfolding route_bytes
  route_bytes-IsRight need s topic uu msg server = elim (Option-cases (param_type u msg)) [
    | inl e ↦ IsRight-as need (ground (arith, e)) (fails-IsRight need json_incorrect s)
    | inr (t, e) ↦ elim (Option-cases (u.marshal (set_topic topic (clone u.span s)).session)) [
      | inl f ↦ IsRight-as need (ground (arith, e, f)) ((fails-IsRight need not_serializable s))
      | inr (b, f) ↦ IsRight-as need (ground (arith, e, f)) (
          (make_call-IsRight need s
            (record { server = server; fn = uu.path; args = with_bytes t b msg })))
    ]
  ]

  IsRightIfAny : Bool → Option (Routed S R E B) → Type 0
  IsRightIfAny need none = Unit
  IsRightIfAny need (some x) = IsRight need x

  IsRightIfAny-as :
      (need : Bool) (r : Option (Routed S R E B)) {r' : Option (Routed S R E B)}
      → r' ≡ r
      → IsRightIfAny need r
      → IsRightIfAny need r'
  IsRightIfAny-as need r e h = subst (IsRightIfAny need) (sym e) h

  route_to-IsRight :
      (need : Bool) (s : SessionAgent) (topic : Bytes) (uu : Url) (msg : Bytes)
      → IsRightIfAny need (route_to u need s topic uu msg)
  unfolding route_to IsRightIfAny
  route_to-IsRight need s topic uu msg = elim (Result-cases (select_server u s topic uu)) [
    | inl (server, e) ↦ elim (Option-cases (bean_of u topic uu msg)) [
      | inl f ↦
          IsRightIfAny-as need (some (route_bytes u need s topic uu msg server))
            (ground (arith, e, f)) ((route_bytes-IsRight need s topic uu msg server))
      | inr (bean, f) ↦
          IsRightIfAny-as need
            (some (
              make_call u need s
                (record { server = server; fn = uu.path; args = with_bean s bean })))
            (ground (arith, e, f))
            ((make_call-IsRight need s
              (record { server = server; fn = uu.path; args = with_bean s bean })))
    ]
    | inr (inl (r, e)) ↦
        IsRightIfAny-as need (some (fails u need r s)) (ground (arith, e)) (fails-IsRight need r s)
    | inr (inr e) ↦ IsRightIfAny-as need none (ground (arith, e)) tt
  ]

  wanted_as :
      (need : Bool) (r : Option (Routed S R E B)) {need' : Bool} {r' : Option (Routed S R E B)}
      → need' ≡ need
      → r' ≡ r
      → IsRightIfAny need r
      → IsRightIfAny need' r'
  wanted_as need r {r' = r'} d e h =
      subst (λ n. IsRightIfAny n r') (sym d) (IsRightIfAny-as need r e h)

  has_key-find :
      {A : Type 0} (k : Bytes) (m : Dict A)
      → has_key k m ≡ (elim (find k m) [ none ↦ false | some v ↦ true ])
  has_key-find k [] = refl
  has_key-find k ((k', v) ∷ m) = elim (Bool-cases (same k' k)) [
    | inl e ↦ ground (arith, e)
    | inr e ↦ ground (arith, e, has_key-find k m)
  ]

  on_route-IsRight :
      (s : SessionAgent) (topic msg : Bytes)
      → IsRightIfAny (wants_answer topic) (on_route u s topic msg)
  unfolding on_route IsRightIfAny
  on_route-IsRight s topic msg = elim (Option-cases (u.parse topic)) [
    | inl e ↦
        wanted_as true (some (fails u true not_uri s)) (ground (arith, e)) (ground (arith, e))
          (fails-IsRight true not_uri s)
    | inr (uu, e) ↦ elim (Option-cases (u.parse_query uu.raw_query)) [
      | inl f ↦
          wanted_as true (some (fails u true query_error s)) (ground (arith, e, f))
            (ground (arith, e, f)) (fails-IsRight true query_error s)
      | inr (m, f) ↦
          wanted_as (has_key msg_id m)
            (route_to u (has_key msg_id m) (set_topic topic s) topic uu msg)
            (ground (arith, e, f) ∙ sym (has_key-find msg_id m)) (ground (arith, e, f))
            (route_to-IsRight (has_key msg_id m) (set_topic topic s) topic uu msg)
    ]
  ]

  -- Unless the selector panics, a topic that is a URI whose query has no "msg_id" is not answered and
  -- every other one is, and for a message at most one call is made, that waits for its result exactly
  -- if the device is answered.
  pub on_route-CallsOnce :
      (s : SessionAgent) (topic msg : Bytes) (x : Routed S R E B)
      → on_route u s topic msg ≡ some x
      → (x.need_return ≡ wants_answer topic) × CallsOnce (wants_answer topic) x.calls
  unfolding IsRight IsRightIfAny
  on_route-CallsOnce s topic msg x e =
      subst (IsRightIfAny (wants_answer topic)) e (on_route-IsRight s topic msg)
