-- ===== src/Gate/Handler.antt =====
-- gate/base/gate_handler.go: the table of the agents that are connected, and the functions of the
-- gate that other modules call. The agents stand in the order of one `Range` of the `sync.Map`. A
-- call that panics leaves the state as it was then; the RPC server recovers it.
pub mod Settings
pub mod Keeping
pub mod Sending
use mqant.Prelude.{
  ℕ, zero, suc, ◌+◌, ◌==◌, Bool, true, false, not, ◌&&◌, if◌then◌else◌, Option, none, some, List,
  [], ◌∷◌, ◌++◌, Bytes, same, Dict, find, put, erase, Result, ok, err, panic, Exec, pure, raise,
  crash, ◌>>=◌, ◌>>◌, ℤ, pos, suc_ℤ, pred_ℤ,
}
use mqant.Gate.Session.{
  SessionImp, SessionAgent, Judge, new_session, set_user_id, import_settings, clone_settings,
  set_local_kv, remove_local_kv,
}

-- A `gate.Agent`: `refuses` is the error that its `WriteMsg` returns, if it does; `sent` lists the
-- topics and bodies that it took.
pub record Agent : Type 0 where
  pub session : Option SessionAgent
  pub protocol_ok : Bool
  pub is_closed : Bool
  pub refuses : Option Bytes
  pub sent : List (Bytes × Bytes)

-- A call of the listener for sessions.
pub data Heard : Type 0 where
  joined : Option SessionAgent → Heard
  left : SessionAgent → Heard

-- `stored` lists what the storage was given, `closing` the keys of the agents that were told to
-- close, `heard` the calls of the listener.
pub record Handler : Type 0 where
  pub sessions : Dict Agent
  pub agent_num : ℤ
  pub stored : List SessionImp
  pub closing : List Bytes
  pub heard : List Heard

-- What the gate offers: the storage, whose `query` is the data that were found, with
-- `proto.Unmarshal` on them; whether there is a listener; and whether the application is set, with
-- `gate.JudgeGuest`.
pub record Setup : Type 0 where
  pub storage : Option (Bytes → Option Bytes)
  pub unmarshal : Bytes → Option SessionImp
  pub has_learner : Bool
  pub has_app : Bool
  pub judge : Option Judge

pub data HandlerError : Type 0 where
  no_session : HandlerError
  user_not_found : Bytes → HandlerError
  write_failed : Bytes → HandlerError

abbrev pub Call : Type 0 → Type 0
Call A = Exec HandlerError Handler A

abbrev pub new_gate_handler : Handler
new_gate_handler = record {
  sessions = [];
  agent_num = pos 0;
  stored = [];
  closing = [];
  heard = [];
}

abbrev hear : Setup → Heard → Handler → Handler
hear g x h = if g.has_learner then record h { heard = h.heard ++ x ∷ [] } else h

abbrev count_up : Agent → Handler → Handler
count_up a h = if a.protocol_ok then record h { agent_num = suc_ℤ h.agent_num } else h

abbrev count_down : Agent → Handler → Handler
count_down a h = if a.protocol_ok then record h { agent_num = pred_ℤ h.agent_num } else h

-- `Connect`
unfoldable pub connect : Setup → Agent → Handler → Handler
connect g a h = hear g (joined a.session) (elim a.session [
  | none ↦ h
  | some s ↦ count_up a (record h { sessions = put s.session.session_id a h.sessions })
])

-- `DisConnect`
unfoldable pub dis_connect : Setup → Agent → Handler → Handler
dis_connect g a h = elim a.session [
  | none ↦ h
  | some s ↦
      let h' = hear g (left s) h in
      count_down a (record h' { sessions = erase s.session.session_id h'.sessions })
]

abbrev keys : Dict Agent → List Bytes
keys [] = []
keys ((k, a) ∷ m) = k ∷ keys m

-- `OnDestroy`
pub on_destroy : Handler → Handler
on_destroy h = record h { sessions = []; closing = h.closing ++ keys h.sessions }

-- `GetAgentNum`
abbrev pub get_agent_num : Handler → ℤ
get_agent_num h = h.agent_num

-- `GetAgent`, and the start of most calls: `h.sessions.Load(Sessionid)`.
abbrev pub get_agent : Bytes → Call Agent
get_agent id h = elim (find id h.sessions) [ none ↦ (err no_session, h) | some a ↦ (ok a, h) ]

abbrev session_of : Agent → Call SessionAgent
session_of a = elim a.session [ none ↦ crash | some s ↦ pure s ]

-- The agent's session is changed in place.
abbrev pub write_session : Bytes → Agent → SessionAgent → Handler → Handler
write_session id a s h = record h { sessions = put id (record a { session = some s }) h.sessions }

abbrev save : Bytes → Agent → SessionAgent → Call (Unit {0})
save id a s h = (ok tt, write_session id a s h)

-- The storage, if there is one, is given the session of a user.
abbrev store : Setup → SessionAgent → Call (Unit {0})
store g s h = if same s.session.user_id [] then (ok tt, h) else elim g.storage [
  | none ↦ (ok tt, h)
  | some query ↦ (ok tt, record h { stored = h.stored ++ s.session ∷ [] })
]

-- `Update`
unfoldable pub update : Bytes → Call (Option SessionAgent)
update id = do a ← get_agent id; pure a.session

-- The settings that were stored for the user, if they can be read.
abbrev pub stored_settings : Setup → Bytes → Option (Dict Bytes)
stored_settings g user_id = elim g.storage [
  | none ↦ none
  | some query ↦ elim (query user_id) [
    | none ↦ none
    | some data' ↦ elim (new_session g.has_app g.judge (g.unmarshal data')) [
      | none ↦ none
      | some s ↦ some (clone_settings s)
    ]
  ]
]

abbrev pub import_stored : Setup → Bytes → SessionAgent → SessionAgent
import_stored g user_id s =
    if same s.session.user_id []
    then s
    else elim (stored_settings g user_id) [ none ↦ s | some m ↦ import_settings (some m) s ]

-- `Bind`
unfoldable pub bind : Setup → Bytes → Bytes → Call SessionAgent
bind g id user_id = do
  a ← get_agent id
  s ← session_of a
  let s' = import_stored g user_id (set_user_id user_id s)
  save id a s'
  store g s'
  pure s'

-- The loop of `IsConnect` over the table.
unfoldable pub is_connect_loop : Bytes → Dict Agent → Call Bool
is_connect_loop user_id [] = raise (user_not_found user_id)
is_connect_loop user_id ((k, a) ∷ m) =
    let rest = is_connect_loop user_id m in
    elim a.session [
      | none ↦ crash
      | some s ↦ if same s.session.user_id user_id then pure (not a.is_closed) else rest
    ]

-- `IsConnect`
unfoldable pub is_connect : Bytes → Call Bool
unfolding is_connect_loop
is_connect user_id h = is_connect_loop user_id h.sessions h

-- `UnBind`
unfoldable pub unbind : Bytes → Call SessionAgent
unbind id = do a ← get_agent id; s ← session_of a; let s' = set_user_id [] s; save id a s'; pure s'

abbrev or_crash : {A : Type 0} → Option A → Call A
or_crash none = crash
or_crash (some a) = pure a

-- The loop of `Push`.
unfoldable pub push_loop : Bytes → Agent → Dict Bytes → SessionAgent → Call SessionAgent
push_loop id a [] s = pure s
push_loop id a ((k, v) ∷ m) s = do
  s' ← or_crash (set_local_kv k v s)
  save id a s'
  push_loop id a m s'

-- `Push`
unfoldable pub push : Setup → Bytes → Dict Bytes → Call SessionAgent
unfolding push_loop
push g id m = do a ← get_agent id; s ← session_of a; s' ← push_loop id a m s; store g s'; pure s'

-- `Set`
unfoldable pub set : Setup → Bytes → Bytes → Bytes → Call SessionAgent
set g id key value = do
  a ← get_agent id
  s ← session_of a
  s' ← or_crash (set_local_kv key value s)
  save id a s'
  store g s'
  pure s'

-- `Remove`
unfoldable pub remove : Setup → Bytes → Bytes → Call SessionAgent
remove g id key = do
  a ← get_agent id
  s ← session_of a
  let s' = remove_local_kv key s
  save id a s'
  store g s'
  pure s'

-- `agent.WriteMsg(topic, body)`: the agent after it, unless it refused.
abbrev pub write_msg : Bytes → Bytes → Agent → Result Bytes Agent
write_msg topic body a = elim a.refuses [
  | some e ↦ err e
  | none ↦ ok (record a { sent = a.sent ++ (topic, body) ∷ [] })
]

-- `Send`
unfoldable pub send : Bytes → Bytes → Bytes → Call (Unit {0})
send id topic body h = elim (find id h.sessions) [
  | none ↦ (err no_session, h)
  | some a ↦ elim (write_msg topic body a) [
    | ok a' ↦ (ok tt, record h { sessions = put id a' h.sessions })
    | err e ↦ (err (write_failed e), h)
    | panic ↦ (panic, h)
  ]
]

-- strings.Split(s, ","): `field` is what was read of the field so far.
unfoldable pub split_loop : ℕ → Bytes → Bytes → List Bytes
split_loop sep field [] = field ∷ []
split_loop sep field (c ∷ s) =
    if c == sep then field ∷ split_loop sep [] s else split_loop sep (field ++ c ∷ []) s

abbrev pub split : ℕ → Bytes → List Bytes
split sep = split_loop sep []

-- The loop of `SendBatch`: how many agents took the message.
unfoldable pub send_loop : Bytes → Bytes → List Bytes → ℕ → Handler → ℕ × Handler
send_loop topic body [] count h = (count, h)
send_loop topic body (id ∷ ids) count h = elim (find id h.sessions) [
  | none ↦ send_loop topic body ids count h
  | some a ↦ elim (write_msg topic body a) [
    | ok a' ↦ send_loop topic body ids (count + 1) (record h { sessions = put id a' h.sessions })
    | err e ↦ send_loop topic body ids count h
    | panic ↦ send_loop topic body ids count h
  ]
]

-- `SendBatch`
unfoldable pub send_batch : Bytes → Bytes → Bytes → Handler → ℕ × Handler
unfolding send_loop split_loop
send_batch ids topic body h = send_loop topic body (split 44 ids) 0 h

-- The loop of `BroadCast`: the count, and the table after it.
unfoldable pub broadcast_loop : Bytes → Bytes → Dict Agent → ℕ × Dict Agent
broadcast_loop topic body [] = (0, [])
broadcast_loop topic body ((k, a) ∷ m) =
    let (n, m') = broadcast_loop topic body m in
    elim (write_msg topic body a) [
      | ok a' ↦ (n + 1, (k, a') ∷ m')
      | err e ↦ (n, (k, a) ∷ m')
      | panic ↦ (n, (k, a) ∷ m')
    ]

-- `BroadCast`
unfoldable pub broadcast : Bytes → Bytes → Handler → ℕ × Handler
unfolding broadcast_loop
broadcast topic body h =
    let (n, m) = broadcast_loop topic body h.sessions in (n, record h { sessions = m })

-- `Close`: the agent leaves the table when its connection has ended.
unfoldable pub close : Bytes → Call (Unit {0})
close id = do a ← get_agent id; λ h. (ok tt, record h { closing = h.closing ++ id ∷ [] })
