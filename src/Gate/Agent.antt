-- ===== src/Gate/Agent.antt =====
-- gate/base/mqtt_agent.go: the agent of one connection, from a packet that came up to the messages and
-- calls that come of it. The router, the application, RPC, JSON and the hooks are parameters. A worker
-- runs to its end before the next starts here; the goroutines that close the connection are left out.
pub mod Routing
pub mod Serving
pub mod Places
use mqant.Prelude.{
  ℕ, zero, suc, ◌+◌, ◌-◌, ◌==◌, ltb, not, ◌&&◌, Bool, true, false, if◌then◌else◌, Option, none,
  some, List, [], ◌∷◌, ◌++◌, Bytes, length, get_or, Result, ok, err, panic, Exec, pure, crash,
  ◌>>=◌, ◌>>◌,
}
use mqant.Gate.Session.{SessionImp, SessionAgent, clone, set_topic}
use mqant.Gate.Handler.{split}
use mqant.Gate.Transport.{rpc_param_session_type}
use mqant.Rpc.Args.{has_prefix, map_type, bytes_type}
use mqant.Mqtt.MsgType as MsgType
use mqant.Mqtt.Pack.{Pack, Publish, Variable, publish}

-- pack.GetVariable().(*mqtt.Publish), which panics on another body.
abbrev pub as_publish : Variable → Option Publish
as_publish (publish p) = some p
as_publish _ = none

-- The errors that the agent makes itself.
pub data RouteError : Type 0 where
  queue_full : RouteError
  topic_too_short : RouteError
  method_prefix : Bytes → RouteError
  service_not_found : Bytes → RouteError
  json_incorrect : RouteError

-- What an answer is made from: R are the results of calls and E their errors.
pub data Answered (R E : Type 0) : Type 0 where
  marshalled : Bytes → Answered R E
  result : R → Option E → Answered R E
  failed : RouteError → Answered R E

-- A call of a module of the list S: the function, and the types and bytes of its two arguments.
pub record ModuleCall (S : Type 0) : Type 0 where
  pub server : S
  pub fn : Bytes
  pub args_type : List Bytes
  pub args : List Bytes
  pub waits : Bool

pub record GateAgent (S : Type 0) : Type 0 where
  pub session : Option SessionAgent
  pub has_client : Bool
  pub ch : ℕ
  pub is_close : Bool
  pub protocol_ok : Bool
  pub rev_num : ℕ
  pub send_num : ℕ
  pub last_heartbeat : ℕ
  pub written : List (Bytes × Bytes)
  pub calls : List (ModuleCall S)
  pub heartbeats : ℕ

pub record Environment (S R E : Type 0) : Type 0 where
  pub concurrent_tasks : ℕ
  pub hook : Option (Option SessionAgent → Bytes → Bytes → Option Bytes)
  -- `app.ProtocolMarshal`: an error, or the data if there are any.
  pub protocol_marshal : Bytes → Answered R E → Result E (Option Bytes)
  pub router : Option (Option SessionAgent → Bytes → Bytes → Bool × Answered R E)
  pub get_route_server : Bytes → Option S
  pub is_json : Bytes → Bool
  -- The span of a clone.
  pub span : Bytes
  pub marshal : SessionImp → Option Bytes
  pub call_args : ModuleCall S → Answered R E
  -- The storage, if there is one: whether its `Heartbeat` of a session returns, or panics.
  pub storage : Option (Option SessionAgent → Bool)
  pub heartbeat : ℕ

module _ {S R E : Type 0} (env : Environment S R E) where
  abbrev pub Work : Type 0 → Type 0
  Work A = Exec (Unit {0}) (GateAgent S) A

  -- `OnInit` at a time.
  abbrev pub on_init : ℕ → GateAgent S
  on_init now = record {
    session = none;
    has_client = false;
    ch = 0;
    is_close = false;
    protocol_ok = false;
    rev_num = 0;
    send_num = 0;
    last_heartbeat = now;
    written = [];
    calls = [];
    heartbeats = 0;
  }

  -- `Wait`: whether there was room.
  abbrev pub wait : GateAgent S → Bool × GateAgent S
  wait a = if ltb a.ch env.concurrent_tasks then (true, record a { ch = suc a.ch }) else (false, a)

  -- `Finish`
  abbrev pub finish : GateAgent S → GateAgent S
  finish a = record a { ch = a.ch - 1 }

  -- `WriteMsg`, without its result, which the agent drops.
  unfoldable pub write_msg : Bytes → Bytes → GateAgent S → GateAgent S
  write_msg topic body a =
      if a.has_client
      then (let a' = record a { send_num = suc a.send_num } in
          elim env.hook [
            | none ↦ record a' { written = a'.written ++ (topic, body) ∷ [] }
            | some hook ↦ elim (hook a.session topic body) [
              | none ↦ a'
              | some bb ↦ record a' { written = a'.written ++ (topic, bb) ∷ [] }
            ]
          ])
      else a

  abbrev write : Bytes → Bytes → Work (Unit {0})
  write topic body a = (ok tt, write_msg topic body a)

  -- `toResult`; the second `ProtocolMarshal` gets the error of the first.
  unfoldable pub to_result : (E → Answered R E) → Bytes → Answered R E → Work (Unit {0})
  unfolding write_msg
  to_result again topic (marshalled b) a = write topic b a
  to_result again topic x a = elim a.session [
    | none ↦ (panic, a)
    | some s ↦ elim (env.protocol_marshal s.session.trace_id x) [
      | ok (some b) ↦ write topic b a
      | ok none ↦ (ok tt, a)
      | panic ↦ (panic, a)
      | err e ↦ elim (env.protocol_marshal s.session.trace_id (again e)) [
        | ok (some b) ↦ write topic b a
        | _ ↦ (panic, a)
      ]
    ]
  ]

  -- The session that goes along: a clone with the topic.
  abbrev pub sent_session : Bytes → SessionAgent → Option Bytes
  sent_session topic s = env.marshal (set_topic topic (clone env.span s)).session

  -- What is done with a message, where there is no router.
  pub data Action : Type 0 where
    ignore : Action
    reject : RouteError → Action
    ask : ModuleCall S → Action
    tell : ModuleCall S → Action

  abbrev if_wanted : Bytes → RouteError → Action
  if_wanted msgid e = elim msgid [ [] ↦ ignore | c ∷ rest ↦ reject e ]

  abbrev last_is : ℕ → Bytes → Bool
  last_is c [] = false
  last_is c (x ∷ []) = x == c
  last_is c (x ∷ y ∷ s) = last_is c (y ∷ s)

  abbrev first_is : ℕ → Bytes → Bool
  first_is c [] = false
  first_is c (x ∷ s) = x == c

  -- The type of the message: a map if it looks like an object and is JSON.
  abbrev message_type : Bytes → Option Bytes
  message_type msg =
      if first_is 123 msg && last_is 125 msg
      then if env.is_json msg then some map_type else none
      else some bytes_type

  -- "HD_"
  abbrev pub handler_prefix : Bytes
  handler_prefix = 72 ∷ 68 ∷ 95 ∷ []

  abbrev call_of : S → Bytes → Bytes → Bytes → Bytes → Bytes → Action
  call_of server fn ptype b msg msgid = elim msgid [
    | [] ↦ tell (record {
      server = server;
      fn = fn;
      args_type = rpc_param_session_type ∷ ptype ∷ [];
      args = b ∷ msg ∷ [];
      waits = false;
    })
    | c ∷ rest ↦ ask (record {
      server = server;
      fn = fn;
      args_type = rpc_param_session_type ∷ ptype ∷ [];
      args = b ∷ msg ∷ [];
      waits = true;
    })
  ]

  -- `recoverworker`, the parts of a topic of two or more: `none` is the panic on an agent without a
  -- session.
  unfoldable pub route_parts :
      Option SessionAgent → Bytes → Bytes → Bytes → Bytes → Bytes → Option Action
  route_parts session topic msg service method msgid =
      if not (has_prefix method handler_prefix)
      then some (if_wanted msgid (method_prefix method))
      else elim (env.get_route_server service) [
        | none ↦ some (if_wanted msgid (service_not_found service))
        | some server ↦ elim (message_type msg) [
          | none ↦ some (if_wanted msgid json_incorrect)
          | some ptype ↦ elim session [
            | none ↦ none
            | some s ↦ elim (sent_session topic s) [
              | none ↦ some ignore
              | some b ↦ some (call_of server method ptype b msg msgid)
            ]
          ]
        ]
      ]

  -- `recoverworker`, the message of a topic: service and method, with the id of an answer if there are
  -- three parts.
  unfoldable pub route_message : Option SessionAgent → Bytes → Bytes → Option Action
  unfolding route_parts
  route_message session topic msg = elim (split 47 topic) [
    | [] ↦ some (reject topic_too_short)
    | service ∷ [] ↦ some (reject topic_too_short)
    | service ∷ method ∷ msgid ∷ [] ↦ route_parts session topic msg service method msgid
    | service ∷ method ∷ rest ↦ route_parts session topic msg service method []
  ]

  -- The calls are made, and answered where they are waited for.
  unfoldable pub run_action : (E → Answered R E) → Bytes → Action → Work (Unit {0})
  unfolding to_result
  run_action again topic ignore a = (ok tt, a)
  run_action again topic (reject e) a = to_result again topic (failed e) a
  run_action again topic (ask call) a =
      to_result again topic (env.call_args call) (record a { calls = a.calls ++ call ∷ [] })
  run_action again topic (tell call) a = (ok tt, record a { calls = a.calls ++ call ∷ [] })

  -- `recoverworker`, the case `PUBLISH`.
  unfoldable pub handle_publish : (E → Answered R E) → Publish → Work (Unit {0})
  unfolding to_result route_message run_action
  handle_publish again pub' a =
      let a' = record a { rev_num = suc a.rev_num } in
      elim pub'.topic_name [
        | none ↦ (panic, a')
        | some topic ↦ elim env.router [
          | some on_route ↦
              let (need_return, x) = on_route a'.session topic pub'.msg in
              if need_return then to_result again topic x a' else (ok tt, a')
          | none ↦ elim (route_message a'.session topic pub'.msg) [
            | none ↦ (panic, a')
            | some action ↦ run_action again topic action a'
          ]
        ]
      ]

  -- The deferred end of `recoverworker`, which recovers a panic of the worker. `Heartbeat` is called
  -- before: its own panic is not recovered, and the place of the worker is not given back.
  unfoldable pub end_work : ℕ → Work (Unit {0})
  end_work now a =
      if ltb (a.last_heartbeat + env.heartbeat) now
      then elim env.storage [
        | none ↦ (ok tt, finish a)
        | some returns ↦
            let a' = record a { last_heartbeat = now; heartbeats = suc a.heartbeats } in
            if returns a.session then (ok tt, finish a') else (panic, a')
      ]
      else (ok tt, finish a)

  -- `recoverworker`; `panic` ends the process.
  unfoldable pub recover_worker : (E → Answered R E) → ℕ → Pack → Work (Unit {0})
  unfolding handle_publish end_work
  recover_worker again now pack a =
      if pack.msg_type == MsgType.publish
      then elim (as_publish pack.variable) [
        | some pub' ↦ let (r, a') = handle_publish again pub' a in end_work now a'
        | none ↦ end_work now (record a { rev_num = suc a.rev_num })
      ]
      else end_work now a

  -- `OnRecover`: a packet that is no PUBLISH is a panic while the queue is full.
  unfoldable pub on_recover : (E → Answered R E) → ℕ → Pack → Work (Unit {0})
  unfolding recover_worker to_result
  on_recover again now pack a =
      let (room, a') = wait a in
      if room then recover_worker again now pack a' else elim (as_publish pack.variable) [
        | none ↦ (panic, a')
        | some pub' ↦ elim pub'.topic_name [
          | none ↦ (panic, a')
          | some topic ↦ to_result again topic (failed queue_full) a'
        ]
      ]
