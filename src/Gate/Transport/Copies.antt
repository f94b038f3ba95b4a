-- ===== src/Gate/Transport/Copies.antt =====
-- gate/base/session.go with gate/base/gate_handler.go: the methods by which a module changes a session
-- through the gate that owns it, and what the module's copy holds then.
use mqant.Prelude.{
  Bool, true, false, ◌&&◌, if◌then◌else◌, Option, none, some, [], Bytes, same, Dict, find, put,
  find-put, IsDict, or_else, Result, ok, ◌≡◌, refl, ◌∙◌, arith, same_refl,
}
use mqant.Gate.Session
use mqant.Gate.Session.{SessionImp, SessionAgent, copied}
use mqant.Gate.Session.Settings.{find-copied, IsDict-put, IsDict-copy_loop}
use mqant.Gate.Handler as Calls
use mqant.Gate.Handler.{Handler, Setup, HandlerError}
use mqant.Gate.Handler.Settings.{
  Holds, setting, settings_of, Answers-known, set-Answers, push-Answers,
}
use mqant.Gate.Remote as Remote
use mqant.Gate.Remote.{
  Request, Answer, ServerSession, call_set, call_push, session, refresh, ask, gate_server, take_in,
}
use mqant.Gate.Transport.{ServeError, serve, registered, carry}
use mqant.Gate.Transport.RoundTrip.{IsCarried, carry-Alike}

-- A copy of a map, nil or not, has the pairs of the map.
find-copied_or_nil :
    (k : Bytes) (o : Option (Dict Bytes))
    → IsDict {A = Bytes} (elim o [ none ↦ [] | some m ↦ m ])
    → find k (copied o) ≡ find k (elim o [ none ↦ [] | some m ↦ m ])
find-copied_or_nil k none d = refl
find-copied_or_nil k (some m) d = find-copied k m d

-- What `SetPush` sends: a copy of the settings with one more.
find-sent :
    (k key value : Bytes) (m : Dict Bytes)
    → IsDict m
    → find k (copied (some (put key value m))) ≡ (if same key k then some value else find k m)
find-sent k key value m d =
    find-copied k (put key value m) (IsDict-put key value m d) ∙ find-put key k value m

or_else_sent :
    (b : Bool) (value : Bytes) (o p : Option Bytes)
    → or_else (if b then some value else o) p ≡ (if b then some value else or_else o p)
or_else_sent b value o p = ground arith

module _ (g : Setup) (marshal : SessionImp → Option Bytes) (span : Bytes)
    (locate : Bytes → Handler → Option (ServerSession ServeError Handler)) where
  -- The module's copy names an instance of the gate, and it is found.
  pub record Reaches (a : SessionAgent) (h : Handler) : Type 0 where
    pub has_app : a.has_app ≡ true
    pub named : same a.session.gate_instance_id [] ≡ false
    pub located : locate a.session.gate_instance_id h ≡ some (registered g marshal span)

  refresh-session :
      (request : Bytes → Request) (a : SessionAgent) (h h' : Handler) (s : SessionImp)
      → Reaches a h
      → serve g marshal span (request a.session.session_id) h ≡ (ok (session s), h')
      → refresh locate request (a, h) ≡ (ok tt, (Session.update s a, h'))
  unfolding refresh ask gate_server take_in registered
  refresh-session request a h h' s x e = ground (arith, x.has_app, x.named, x.located, e)

  -- The method returns without an error, the gate is then in the state h', and the copy has the user
  -- of the session s and under each key what is said.
  abbrev pub Copies :
      (Result (Remote.SessionError ServeError) (Unit {0}) × (SessionAgent × Handler))
      → Handler
      → SessionAgent
      → (Bytes → Option Bytes)
      → Type 0
  Copies r h' s after =
      (a' : SessionAgent) × (r ≡ (ok tt, (a', h')))
      × (a'.session.user_id ≡ s.session.user_id)
      × ((k : Bytes) → find k (settings_of a') ≡ after k)

  refresh-Copies :
      (request : Bytes → Request) (a : SessionAgent) (h h' : Handler) (s : SessionAgent)
      (after : Bytes → Option Bytes)
      → Reaches a h
      → IsCarried marshal g.unmarshal s.session
      → ((i : SessionImp)
          → carry g marshal span s ≡ some i
          → serve g marshal span (request a.session.session_id) h ≡ (ok (session i), h'))
      → ((k : Bytes) → find k (settings_of s) ≡ after k)
      → Copies (refresh locate request (a, h)) h' s after
  unfolding Session.update
  refresh-Copies request a h h' s after x c e f =
      let (i, q, alike, topic, d) = carry-Alike g marshal span s c in
      (
        Session.update i a,
        refresh-session request a h h' i x (e i q),
        alike.user_id,
        λ k. find-copied_or_nil k i.settings d ∙ alike.settings k ∙ f k,
      )

  -- A module has a copy of a session that names an instance of the gate, which is found, and the
  -- gate holds the session with a map of settings; the session that the gate answers is carried by
  -- protobuf. Then `Set` returns no error, the key has the value in the gate, no other key and no
  -- other session of the gate changes, and the copy has the user and the settings of the gate's
  -- session.
  pub set-Copies :
      (a : SessionAgent) (key value : Bytes) (h h' : Handler) (s : SessionAgent)
      → Reaches a h
      → Holds a.session.session_id h
      → Calls.set g a.session.session_id key value h ≡ (ok s, h')
      → IsCarried marshal g.unmarshal s.session
      → Copies
          (Remote.set locate key value (a, h))
          h'
          s
          (λ k. if same key k then some value else setting a.session.session_id k h)
        × ((j k : Bytes)
            → setting j k h'
              ≡ (if same a.session.session_id j && same key k then some value else setting j k h))
  unfolding Remote.set serve
  set-Copies a key value h h' s x y e c =
      let (u, v) = Answers-known s h' e (set-Answers g a.session.session_id key value h y) in
      (
        refresh-Copies (λ id. call_set id key value) a h h' s _ x c (λ i q. ground (arith, e, q))
            (λ k. v k ∙ ground (arith, same_refl a.session.session_id)),
        u,
      )

  -- Under the same conditions, with a map of settings in the copy, `SetPush` returns no error: the
  -- session of the gate has the value under the key, all other settings of the copy, and its own
  -- where the copy has none; no other session changes, and the copy has the user and the settings of
  -- the gate's session.
  pub set_push-Copies :
      (a : SessionAgent) (m : Dict Bytes) (key value : Bytes) (h h' : Handler) (s : SessionAgent)
      → Reaches a h
      → Holds a.session.session_id h
      → a.session.settings ≡ some m
      → IsDict m
      → Calls.push g a.session.session_id (copied (some (put key value m))) h ≡ (ok s, h')
      → IsCarried marshal g.unmarshal s.session
      → Copies (Remote.set_push locate key value (a, h)) h' s (λ k.
        if same key k then some value else or_else (find k m) (setting a.session.session_id k h))
        × ((j k : Bytes)
            → setting j k h' ≡ (
                if same a.session.session_id j
                then (if same key k then some value else or_else (find k m) (setting j k h))
                else setting j k h))
  unfolding Remote.set_push Remote.push Session.clone_settings serve
  set_push-Copies a m key value h h' s x y o d e c =
      let a1 : SessionAgent = record a {
        session = record a.session { settings = some (put key value m) };
      } in
      let sent : Dict Bytes = copied (some (put key value m)) in
      let (u, v) =
        Answers-known s h' e (
          push-Answers g a.session.session_id sent h y
            (IsDict-copy_loop [] (put key value m) tt)) in
      let (a', q, r, w) =
        refresh-Copies (λ id. call_push id sent) a1 h h' s _
          (record { has_app = x.has_app; named = x.named; located = x.located }) c
          (λ i q. ground (arith, e, q))
          (λ k.
            v k
            ∙ ground (
              arith,
              same_refl a.session.session_id,
              find-sent k key value m d,
              or_else_sent (same key k) value (find k m) (setting a.session.session_id k h),
            )) in
      (
        (a', ground (arith, o, x.has_app) ∙ q, r, w),
        λ j k.
            u j k
            ∙ ground (
              arith,
              find-sent k key value m d,
              or_else_sent (same key k) value (find k m) (setting j k h),
            ),
      )
