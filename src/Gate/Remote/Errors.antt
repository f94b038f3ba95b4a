-- ===== src/Gate/Remote/Errors.antt =====
-- gate/base/session.go: the methods of a session whose gate cannot be called.
use mqant.Prelude.{true, false, if◌then◌else◌, Option, none, [], Bytes, same, Dict, err, ◌≡◌, arith}
use mqant.Gate.Session.{SessionAgent, clone_settings}
use mqant.Gate.Remote.{
  Request, call_push, call_send, call_send_batch, call_is_connect, call_close, ServerSession,
  SessionError, app_is_nil, instance_id_empty, instance_not_found, Method, gate_server, ask,
  refresh, update, bind, unbind, push, set, set_push, set_batch, remove, send, send_batch,
  is_connect, send_nr, close, put_setting,
}

module _ {E W : Type 0} (locate : Bytes → W → Option (ServerSession E W)) where
  -- A method returns an error and changes nothing.
  abbrev pub Fails : {A : Type 0} → Method locate A → SessionAgent → W → SessionError E → Type 0
  Fails method a w e = method (a, w) ≡ (err e, (a, w))

  -- Why no gate is called.
  pub data IsUnreachable (a : SessionAgent) (w : W) : SessionError E → Type 0 where
    no_app : a.has_app ≡ false → IsUnreachable a w app_is_nil
    no_instance :
        a.has_app ≡ true
        → same a.session.gate_instance_id [] ≡ true
        → IsUnreachable a w instance_id_empty
    not_found :
        a.has_app ≡ true
        → same a.session.gate_instance_id [] ≡ false
        → locate a.session.gate_instance_id w ≡ none
        → IsUnreachable a w (instance_not_found a.session.gate_instance_id)

  gate_server-Fails :
      (a : SessionAgent) (w : W) (e : SessionError E)
      → IsUnreachable a w e
      → Fails (gate_server locate) a w e
  unfolding gate_server
  gate_server-Fails a w e (no_app p) = ground (arith, p)
  gate_server-Fails a w e (no_instance p q) = ground (arith, p, q)
  gate_server-Fails a w e (not_found p q r) = ground (arith, p, q, r)

  ask-Fails :
      (request : Bytes → Request) (a : SessionAgent) (w : W) (e : SessionError E)
      → IsUnreachable a w e
      → Fails (ask locate request) a w e
  unfolding ask
  ask-Fails request a w e u = ground (arith, gate_server-Fails a w e u)

  refresh-Fails :
      (request : Bytes → Request) (a : SessionAgent) (w : W) (e : SessionError E)
      → IsUnreachable a w e
      → Fails (refresh locate request) a w e
  unfolding refresh
  refresh-Fails request a w e u = ground (arith, ask-Fails request a w e u)

  -- `SetPush` has written the setting by then.
  set_push-Fails :
      (key value : Bytes) (a : SessionAgent) (w : W) (e : SessionError E)
      → IsUnreachable a w e
      → set_push locate key value (a, w)
        ≡ (err e, (if a.has_app then put_setting locate key value a else a, w))
  unfolding set_push push
  set_push-Fails key value a w e (no_app p) = ground (arith, p)
  set_push-Fails key value a w e (no_instance p q) = ground (
    arith,
    p,
    refresh-Fails (λ id. call_push id (clone_settings (put_setting locate key value a)))
        (put_setting locate key value a) w e (no_instance p q),
  )
  set_push-Fails key value a w e (not_found p q r) = ground (
    arith,
    p,
    refresh-Fails (λ id. call_push id (clone_settings (put_setting locate key value a)))
        (put_setting locate key value a) w e (not_found p q r),
  )

  -- Where the application is not set, the session names no instance of the gate, or the instance is
  -- not found, every method that asks the gate returns the error of that case and changes neither
  -- the session nor the world; only `SetPush`, if the application is set, has already written the
  -- setting to the session.
  pub methods-Fails :
      (a : SessionAgent) (w : W) (e : SessionError E)
      → IsUnreachable a w e
      → Fails (update locate) a w e
        × ((user_id : Bytes) → Fails (bind locate user_id) a w e)
        × Fails (unbind locate) a w e
        × Fails (push locate) a w e
        × ((key value : Bytes) → Fails (set locate key value) a w e)
        × ((m : Dict Bytes) → Fails (set_batch locate m) a w e)
        × ((key : Bytes) → Fails (remove locate key) a w e)
        × ((topic body : Bytes) → Fails (send locate topic body) a w e)
        × ((ids topic body : Bytes) → Fails (send_batch locate ids topic body) a w e)
        × ((user_id : Bytes) → Fails (is_connect locate user_id) a w e)
        × ((topic body : Bytes) → Fails (send_nr locate topic body) a w e)
        × Fails (close locate) a w e
        × ((key value : Bytes)
            → set_push locate key value (a, w)
              ≡ (err e, (if a.has_app then put_setting locate key value a else a, w)))
  unfolding update bind unbind push set set_batch remove send send_batch is_connect send_nr close
      set_push
  methods-Fails a w e u = (
    refresh-Fails _ a w e u,
    (λ user_id. refresh-Fails _ a w e u),
    refresh-Fails _ a w e u,
    refresh-Fails _ a w e u,
    (λ key value. refresh-Fails _ a w e u),
    (λ m. refresh-Fails _ a w e u),
    (λ key. refresh-Fails _ a w e u),
    (λ topic body. ground (arith, ask-Fails (λ id. call_send id topic body) a w e u)),
    (λ ids topic body. ground (arith, ask-Fails (λ id. call_send_batch ids topic body) a w e u)),
    (λ user_id. ground (arith, ask-Fails (λ id. call_is_connect id user_id) a w e u)),
    (λ topic body. ground (arith, gate_server-Fails a w e u)),
    ground (arith, ask-Fails call_close a w e u),
    (λ key value. set_push-Fails key value a w e u),
  )
