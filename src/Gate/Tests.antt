-- ===== src/Gate/Tests.antt =====
-- gate/base: a gate with two agents, run through its calls.
use mqant.Prelude.{
  ap, sym, ◌++◌, true, false, Option, none, some, [], ◌∷◌, Bytes, same, Dict, IsDict, find, put,
  or_else, ◌&&◌, if◌then◌else◌, ok, err, ◌≡◌, refl, pos,
}
use mqant.Gate.Session.{SessionImp, SessionAgent, new_session_imp, set_local_kv, copied}
use mqant.Gate.Handler as Calls
use mqant.Gate.Handler.{Agent, Handler, Setup, new_gate_handler}
use mqant.Gate.Handler.Settings.{Holds, Answers, stored_of, setting, bind-Answers}
use mqant.Gate.Handler.Sending.{Sends, send_batch-Sends}
use mqant.Gate.Remote as Remote
use mqant.Gate.Remote.{ServerSession}
use mqant.Gate.Transport.{
  ServeError, registered, serialize, deserialize, rpc_param_session_type, session_param,
}
use mqant.Gate.Transport.RoundTrip.{IsCarried, Alike, deserialize-serialize}
use mqant.Gate.Transport.Copies.{Reaches, Copies, set-Copies, set_push-Copies}
use mqant.Gate.Counting.{Reach, IsCounted, Reach-IsCounted, connects, starts, goes}
use mqant.Gate.Remote.Errors.{Fails, no_app, methods-Fails}
use mqant.Mqtt.Pack.{Pack, Publish, publish}
use mqant.Gate.Agent.{Environment, GateAgent, result, on_init, on_recover, handle_publish}
use mqant.Gate.Agent.Routing.{wants_answer}
use mqant.Gate.Agent.Serving.{IsServed, handle_publish-answers}
use mqant.Gate.Agent.Places.{IsReturning, on_recover-ch}

-- The fields of a session with the id 1 at the gate 9, and some settings.
abbrev fields : Option (Dict Bytes) → SessionImp
fields m = record new_session_imp {
  session_id = 1 ∷ [];
  gate_instance_id = 9 ∷ [];
  topic = 5 ∷ [];
  settings = m;
}

abbrev session_with : Dict Bytes → SessionAgent
session_with m = record {
  has_app = true;
  session = fields (some m);
  user_data = none;
  judge_guest = none;
}

abbrev agent_with : Dict Bytes → Agent
agent_with m = record {
  session = some (session_with m);
  protocol_ok = true;
  is_closed = false;
  refuses = none;
  sent = [];
}

abbrev old : Dict Bytes
old = (7 ∷ [], 70 ∷ []) ∷ []

abbrev gate : Handler
gate = record new_gate_handler {
  sessions = (1 ∷ [], agent_with old) ∷ (2 ∷ [], agent_with []) ∷ [];
  agent_num = pos 2;
}

-- An application whose bytes stand for one session.
abbrev setup : SessionImp → Setup
setup s = record {
  storage = none;
  unmarshal = λ b. some s;
  has_learner = false;
  has_app = true;
  judge = none;
}

abbrev marshal : SessionImp → Option Bytes
marshal s = some (3 ∷ [])

is_carried :
    (m : Dict Bytes) → IsDict m → IsCarried marshal (λ b. some (fields (some m))) (fields (some m))
is_carried m d = record {
  bytes = 3 ∷ [];
  read = fields (some m);
  written = refl;
  is_read = refl;
  alike = record {
    ip = refl;
    network = refl;
    user_id = refl;
    session_id = refl;
    server_id = refl;
    trace_id = refl;
    gate_instance_id = refl;
    settings = λ k. refl;
  };
  topic = refl;
  is_dict = d;
}

gate-Holds : Holds (1 ∷ []) gate
gate-Holds = record {
  agent = agent_with old;
  session = session_with old;
  settings = old;
  found = refl;
  of_agent = refl;
  of_session = refl;
}

-- Everything is at one gate.
abbrev here : SessionImp → Bytes → Handler → Option (ServerSession ServeError Handler)
here s id h = some (registered (setup s) marshal [])

reaches :
    (s : SessionImp) (m : Dict Bytes) (h : Handler)
    → Reaches (setup s) marshal [] (here s) (session_with m) h
reaches s m h = record { has_app = refl; named = refl; located = refl }

-- The settings after the call.
abbrev changed : Dict Bytes
changed = (7 ∷ [], 70 ∷ []) ∷ (8 ∷ [], 80 ∷ []) ∷ []

abbrev changed_gate : Handler
changed_gate = record gate {
  sessions = (1 ∷ [], agent_with changed) ∷ (2 ∷ [], agent_with []) ∷ [];
}

set_here :
    Calls.set (setup (fields (some changed))) (1 ∷ []) (8 ∷ []) (80 ∷ []) gate
    ≡ (ok (session_with changed), changed_gate)
unfolding Calls.set set_local_kv
set_here = refl

push_here :
    Calls.push
      (setup (fields (some changed)))
      (1 ∷ [])
      (copied (some (put (8 ∷ []) (80 ∷ []) old)))
      gate
    ≡ (ok (session_with changed), changed_gate)
unfolding Calls.push Calls.push_loop set_local_kv
push_here = refl

set-Copies_example :
    Copies
      (setup (fields (some changed)))
      marshal
      []
      (here (fields (some changed)))
      (Remote.set (here (fields (some changed))) (8 ∷ []) (80 ∷ []) (session_with old, gate))
      changed_gate
      (session_with changed)
      (λ k. if same (8 ∷ []) k then some (80 ∷ []) else setting (1 ∷ []) k gate)
    × ((j k : Bytes)
        → setting j k changed_gate
          ≡ (if same (1 ∷ []) j && same (8 ∷ []) k then some (80 ∷ []) else setting j k gate))
set-Copies_example =
    set-Copies (setup (fields (some changed))) marshal [] (here (fields (some changed)))
      (session_with old) (8 ∷ []) (80 ∷ []) gate changed_gate (session_with changed)
      (reaches (fields (some changed)) old gate) gate-Holds set_here
      (is_carried changed (refl, (refl, tt)))

set_push-Copies_example :
    Copies
      (setup (fields (some changed)))
      marshal
      []
      (here (fields (some changed)))
      (Remote.set_push (here (fields (some changed))) (8 ∷ []) (80 ∷ []) (session_with old, gate))
      changed_gate
      (session_with changed)
      (λ k.
        if same (8 ∷ []) k then some (80 ∷ []) else or_else (find k old) (setting (1 ∷ []) k gate))
    × ((j k : Bytes)
        → setting j k changed_gate ≡ (
            if same (1 ∷ []) j
            then (if same (8 ∷ []) k
                then some (80 ∷ [])
                else or_else (find k old) (setting j k gate))
            else setting j k gate))
set_push-Copies_example =
    set_push-Copies (setup (fields (some changed))) marshal [] (here (fields (some changed)))
      (session_with old) old (8 ∷ []) (80 ∷ []) gate changed_gate (session_with changed)
      (reaches (fields (some changed)) old gate) gate-Holds refl (refl, tt) push_here
      (is_carried changed (refl, (refl, tt)))

-- A storage that knows the user 6.
abbrev storing : Setup
storing = record (setup (fields (some changed))) { storage = some (λ u. some (4 ∷ [])) }

bind-Answers_example : Answers (Calls.bind storing (1 ∷ []) (6 ∷ []) gate) (1 ∷ []) (λ j k.
    if same (1 ∷ []) j
    then or_else (setting j k gate) (stored_of storing (6 ∷ []) k)
    else setting j k gate)
bind-Answers_example = bind-Answers storing (1 ∷ []) (6 ∷ []) gate gate-Holds

deserialize-serialize_example :
    (b : Bytes) × (a' : SessionAgent) × (serialize marshal (session_param (session_with old))
      ≡ ok (rpc_param_session_type, b))
    × (deserialize true none (λ b. some (fields (some old))) (2 ∷ []) rpc_param_session_type b
        ≡ ok (session_param a'))
    × Alike (fields (some old)) a'.session
    × (a'.session.span_id ≡ 2 ∷ [])
    × (a'.session.topic ≡ [])
deserialize-serialize_example =
    deserialize-serialize true none marshal (λ b. some (fields (some old))) (2 ∷ [])
      (session_with old) (is_carried old (refl, tt))

-- Two agents connect.
abbrev one_joined : Handler
one_joined = Calls.connect (setup (fields none)) (agent_with old) new_gate_handler

one_joins : Reach (setup (fields none)) marshal [] one_joined
one_joins = goes starts (connects (agent_with old) (session_with old) refl refl)

Reach-IsCounted_example : IsCounted one_joined
Reach-IsCounted_example = Reach-IsCounted (setup (fields none)) marshal [] one_joined one_joins

send_batch-Sends_example :
    Sends
      (5 ∷ [], 6 ∷ [])
      ((1 ∷ []) ∷ (3 ∷ []) ∷ [])
      0
      gate
      (Calls.send_batch (1 ∷ 44 ∷ 3 ∷ []) (5 ∷ []) (6 ∷ []) gate)
send_batch-Sends_example =
    send_batch-Sends (1 ∷ []) ((3 ∷ []) ∷ []) (5 ∷ []) (6 ∷ []) gate (refl, (refl, tt))

-- An agent of the gate whose modules all answer, with room for one worker.
abbrev environment : Environment (Unit {0}) (Unit {0}) (Unit {0})
environment = record {
  concurrent_tasks = 1;
  hook = none;
  protocol_marshal = λ trace x. ok (some (1 ∷ []));
  router = none;
  get_route_server = λ t. some tt;
  is_json = λ b. false;
  span = [];
  marshal = marshal;
  call_args = λ call. result tt none;
  storage = some (λ s. true);
  heartbeat = 0;
}

abbrev connected_agent : GateAgent (Unit {0})
connected_agent = record (on_init environment 0) {
  session = some (session_with old);
  has_client = true;
}

-- A topic "a/HD_b/1".
abbrev topic : Bytes
topic = 97 ∷ 47 ∷ 72 ∷ 68 ∷ 95 ∷ 98 ∷ 47 ∷ 49 ∷ []

abbrev packet : Pack
packet = record {
  msg_type = 3;
  dup_flag = 0;
  qos_level = 0;
  retain = 0;
  length = 0;
  variable = publish (record { topic_name = some topic; mid = 0; msg = [] });
}

environment-IsReturning : IsReturning environment
environment-IsReturning r e s = ap (λ o. elim o [ none ↦ true | some f ↦ f s ]) (sym e)

served : IsServed environment (session_with old) connected_agent
served = record {
  has_session = refl;
  has_client = refl;
  no_hook = refl;
  data_of = λ x. 1 ∷ [];
  marshals = λ x. refl;
}

on_recover-ch_example :
    (on_recover environment (λ e. result tt none) 5 packet connected_agent).1.ch
    ≡ connected_agent.ch
on_recover-ch_example =
    on_recover-ch environment environment-IsReturning (λ e. result tt none) 5 packet connected_agent

abbrev message : Publish
message = record { topic_name = some topic; mid = 0; msg = [] }

handle_publish-answers_example :
    (x : Bytes) × ((handle_publish environment (λ e. result tt none) message connected_agent).0
      ≡ ok tt)
    × ((handle_publish environment (λ e. result tt none) message connected_agent).1.written ≡ (
        if wants_answer (Calls.split 47 topic)
        then connected_agent.written ++ (topic, x) ∷ []
        else connected_agent.written))
handle_publish-answers_example =
    handle_publish-answers environment (session_with old) (λ e. result tt none) message topic
      (3 ∷ []) connected_agent served refl refl refl

-- A session without an application.
abbrev alone : SessionAgent
alone = record (session_with old) { has_app = false }

methods-Fails_example :
    Fails (here (fields none)) (Remote.update (here (fields none))) alone gate Remote.app_is_nil
    × ((user_id : Bytes)
        → Fails
            (here (fields none))
            (Remote.bind (here (fields none)) user_id)
            alone
            gate
            Remote.app_is_nil)
    × Fails (here (fields none)) (Remote.unbind (here (fields none))) alone gate Remote.app_is_nil
    × Fails (here (fields none)) (Remote.push (here (fields none))) alone gate Remote.app_is_nil
    × ((key value : Bytes)
        → Fails
            (here (fields none))
            (Remote.set (here (fields none)) key value)
            alone
            gate
            Remote.app_is_nil)
    × ((m : Dict Bytes)
        → Fails
            (here (fields none))
            (Remote.set_batch (here (fields none)) m)
            alone
            gate
            Remote.app_is_nil)
    × ((key : Bytes)
        → Fails
            (here (fields none))
            (Remote.remove (here (fields none)) key)
            alone
            gate
            Remote.app_is_nil)
    × ((topic body : Bytes)
        → Fails
            (here (fields none))
            (Remote.send (here (fields none)) topic body)
            alone
            gate
            Remote.app_is_nil)
    × ((ids topic body : Bytes)
        → Fails
            (here (fields none))
            (Remote.send_batch (here (fields none)) ids topic body)
            alone
            gate
            Remote.app_is_nil)
    × ((user_id : Bytes)
        → Fails
            (here (fields none))
            (Remote.is_connect (here (fields none)) user_id)
            alone
            gate
            Remote.app_is_nil)
    × ((topic body : Bytes)
        → Fails
            (here (fields none))
            (Remote.send_nr (here (fields none)) topic body)
            alone
            gate
            Remote.app_is_nil)
    × Fails (here (fields none)) (Remote.close (here (fields none))) alone gate Remote.app_is_nil
    × ((key value : Bytes)
        → Remote.set_push (here (fields none)) key value (alone, gate)
          ≡ (err Remote.app_is_nil, (alone, gate)))
methods-Fails_example =
    methods-Fails (here (fields none)) alone gate Remote.app_is_nil (no_app refl)
