-- ===== src/Gate/Remote.antt =====
-- gate/base/session.go: the methods that ask the gate which owns the session. The application and
-- RPC are parameters: `locate` is `app.GetServerByInstanceID`, and the server that it finds changes
-- the state of the world when it is called.
pub mod Errors
use mqant.Prelude.{
  ℕ, Bool, true, false, if◌then◌else◌, Option, none, some, [], Bytes, same, Dict, put, Result, ok,
  err, panic, Exec, pure, raise, crash, ◌>>=◌, ◌>>◌,
}
use mqant.Gate.Session
use mqant.Gate.Session.{SessionImp, SessionAgent, clone_settings}

-- The function that is called, and its arguments.
pub data Request : Type 0 where
  call_update : Bytes → Request
  call_bind : Bytes → Bytes → Request
  call_unbind : Bytes → Request
  call_push : Bytes → Dict Bytes → Request
  call_set : Bytes → Bytes → Bytes → Request
  call_remove : Bytes → Bytes → Request
  call_send : Bytes → Bytes → Bytes → Request
  call_send_batch : Bytes → Bytes → Bytes → Request
  call_is_connect : Bytes → Bytes → Request
  call_close : Bytes → Request

-- What a call returned; of a session that came back, its fields.
pub data Answer : Type 0 where
  nothing : Answer
  session : SessionImp → Answer
  count : ℕ → Answer
  connected : Bool → Answer
  success : Answer

-- `module.ServerSession`: `Call`, and `CallNR`, which does not wait.
pub record ServerSession (E W : Type 0) : Type 0 where
  pub call : Request → Exec E W Answer
  pub call_nr : Request → Exec E W (Unit {0})

pub data SessionError (E : Type 0) : Type 0 where
  app_is_nil : SessionError E
  instance_id_empty : SessionError E
  instance_not_found : Bytes → SessionError E
  failed : E → SessionError E

module _ {E W : Type 0} (locate : Bytes → W → Option (ServerSession E W)) where
  -- A method changes the session and the world.
  abbrev pub Method : Type 0 → Type 0
  Method A = Exec (SessionError E) (SessionAgent × W) A

  -- `gateServer`, with the test that comes before it in every method.
  unfoldable pub gate_server : Method (ServerSession E W)
  gate_server (a, w) =
      if a.has_app
      then if same a.session.gate_instance_id []
        then (err instance_id_empty, (a, w))
        else elim (locate a.session.gate_instance_id w) [
          | none ↦ (err (instance_not_found a.session.gate_instance_id), (a, w))
          | some server ↦ (ok server, (a, w))
        ]
      else (err app_is_nil, (a, w))

  abbrev in_world : {A : Type 0} → Exec E W A → Method A
  in_world f (a, w) =
      let (r, w') = f w in
      elim r [
        | ok x ↦ (ok x, (a, w'))
        | err e ↦ (err (failed e), (a, w'))
        | panic ↦ (panic, (a, w'))
      ]

  abbrev session_id_of : Method Bytes
  session_id_of (a, w) = (ok a.session.session_id, (a, w))

  -- The answer of a call of the gate about the session.
  unfoldable pub ask : (Bytes → Request) → Method Answer
  unfolding gate_server
  ask request = do server ← gate_server; id ← session_id_of; in_world (server.call (request id))

  -- `if result != nil { sesAgent.update(result.(gate.Session)) }`
  unfoldable pub take_in : Answer → Method (Unit {0})
  take_in nothing (a, w) = (ok tt, (a, w))
  take_in (session s) (a, w) = (ok tt, (Session.update s a, w))
  take_in (count n) (a, w) = (panic, (a, w))
  take_in (connected b) (a, w) = (panic, (a, w))
  take_in success (a, w) = (panic, (a, w))

  -- The methods that ask for the session and take it in.
  unfoldable pub refresh : (Bytes → Request) → Method (Unit {0})
  unfolding ask take_in
  refresh request = do answer ← ask request; take_in answer

  -- `Update`
  unfoldable pub update : Method (Unit {0})
  unfolding refresh
  update = refresh call_update

  -- `Bind`
  unfoldable pub bind : Bytes → Method (Unit {0})
  unfolding refresh
  bind user_id = refresh λ id. call_bind id user_id

  -- `UnBind`
  unfoldable pub unbind : Method (Unit {0})
  unfolding refresh
  unbind = refresh call_unbind

  -- `Push`: the gate gets a copy of the settings.
  unfoldable pub push : Method (Unit {0})
  unfolding refresh
  push (a, w) = refresh (λ id. call_push id (clone_settings a)) (a, w)

  -- `Set`
  unfoldable pub set : Bytes → Bytes → Method (Unit {0})
  unfolding refresh
  set key value = refresh λ id. call_set id key value

  abbrev pub put_setting : Bytes → Bytes → SessionAgent → SessionAgent
  put_setting key value a = record a {
    session = record a.session {
      settings = some (put key value (elim a.session.settings [ none ↦ [] | some m ↦ m ]));
    };
  }

  -- `SetPush`: the session is changed before the gate is asked.
  unfoldable pub set_push : Bytes → Bytes → Method (Unit {0})
  unfolding push
  set_push key value (a, w) =
      if a.has_app then push (put_setting key value a, w) else (err app_is_nil, (a, w))

  -- `SetBatch`
  unfoldable pub set_batch : Dict Bytes → Method (Unit {0})
  unfolding refresh
  set_batch m = refresh λ id. call_push id m

  -- `Remove`
  unfoldable pub remove : Bytes → Method (Unit {0})
  unfolding refresh
  remove key = refresh λ id. call_remove id key

  -- `Send`
  unfoldable pub send : Bytes → Bytes → Method (Unit {0})
  unfolding ask
  send topic body = do answer ← ask λ id. call_send id topic body; pure tt

  -- `SendBatch`
  unfoldable pub send_batch : Bytes → Bytes → Bytes → Method ℕ
  unfolding ask
  send_batch ids topic body = do
    answer ← ask λ id. call_send_batch ids topic body
    elim answer [ count n ↦ pure n | _ ↦ crash ]

  -- `IsConnect`
  unfoldable pub is_connect : Bytes → Method Bool
  unfolding ask
  is_connect user_id = do
    answer ← ask λ id. call_is_connect id user_id
    elim answer [ connected b ↦ pure b | _ ↦ crash ]

  -- `SendNR`
  unfoldable pub send_nr : Bytes → Bytes → Method (Unit {0})
  unfolding gate_server
  send_nr topic body = do
    server ← gate_server
    id ← session_id_of
    in_world (server.call_nr (call_send id topic body))

  -- `Close`
  unfoldable pub close : Method (Unit {0})
  unfolding ask
  close = do answer ← ask call_close; pure tt
