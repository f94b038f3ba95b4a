-- ===== src/Gate/Session.antt =====
-- gate/base/session.go: the session of a device, as every module holds a copy of it. Locks leave no
-- trace in the state. A map that two sessions share is two equal maps here.

pub mod Settings
use mqant.Prelude.{
  ℕ, Bool, true, false, not, ◌&&◌, if◌then◌else◌, Option, none, some, List, [], ◌∷◌, Bytes, same,
  Dict, find, put, erase, or_else,
}

-- The fields of the generated `SessionImp` that the code uses; a nil map is `none`.
pub record SessionImp : Type 0 where
  pub ip : Bytes
  pub network : Bytes
  pub user_id : Bytes
  pub session_id : Bytes
  pub server_id : Bytes
  pub trace_id : Bytes
  pub span_id : Bytes
  pub settings : Option (Dict Bytes)
  pub topic : Bytes
  pub gate_instance_id : Bytes

abbrev pub new_session_imp : SessionImp
new_session_imp = record {
  ip = [];
  network = [];
  user_id = [];
  session_id = [];
  server_id = [];
  trace_id = [];
  span_id = [];
  settings = none;
  topic = [];
  gate_instance_id = [];
}

-- A function that says whether a session is that of a guest. It sees the session's fields.
abbrev pub Judge : Type 0
Judge = SessionImp → Bool

-- `has_app` says whether the application is set; the local data of the user are a number.
pub record SessionAgent : Type 0 where
  pub has_app : Bool
  pub session : SessionImp
  pub user_data : Option ℕ
  pub judge_guest : Option Judge

-- A nil map is replaced by an empty one.
abbrev with_settings : SessionImp → SessionImp
with_settings s = elim s.settings [ none ↦ record s { settings = some [] } | some m ↦ s ]

-- `NewSession` on the answer of `proto.Unmarshal`; `global` is `gate.JudgeGuest`.
unfoldable pub new_session : Bool → Option Judge → Option SessionImp → Option SessionAgent
new_session has_app global none = none
new_session has_app global (some se) = some (record {
  has_app = has_app;
  session = with_settings se;
  user_data = none;
  judge_guest = if has_app then global else none;
})

-- A value behind an `interface{}`.
pub data Any : Type 0 where
  nil : Any
  text : Bytes → Any
  settings : Option (Dict Bytes) → Any
  other : Any

-- The argument of `updateMap`. A missing key reads as nil, but for `Topic` and `GateInstanceID`,
-- where the code asks whether the key is there.
pub record SessionMap : Type 0 where
  pub userid : Any
  pub ip : Any
  pub topic : Option Any
  pub network : Any
  pub sessionid : Any
  pub serverid : Any
  pub gate_instance_id : Option Any
  pub settings : Any

-- `if x != nil { field = x.(string) }`; `none` is the panic of the assertion.
abbrev text_or : Bytes → Any → Option Bytes
text_or old nil = some old
text_or old (text t) = some t
text_or old _ = none

-- `if x, ok := s[key]; ok { field = x.(string) }`
abbrev text_if : Bytes → Option Any → Option Bytes
text_if old none = some old
text_if old (some (text t)) = some t
text_if old (some _) = none

abbrev settings_or : Option (Dict Bytes) → Any → Option (Option (Dict Bytes))
settings_or old nil = some old
settings_or old (settings m) = some m
settings_or old _ = none

abbrev then_some : {A B : Type 0} → Option A → (A → Option B) → Option B
then_some none f = none
then_some (some a) f = f a

-- `updateMap`; `none` is a panic.
unfoldable pub update_map : SessionMap → SessionImp → Option SessionImp
update_map m s = then_some (text_or s.user_id m.userid) λ user_id.
    then_some (text_or s.ip m.ip) λ ip. then_some (text_if s.topic m.topic) λ topic.
      then_some (text_or s.network m.network) λ network.
        then_some (text_or s.session_id m.sessionid) λ session_id.
          then_some (text_or s.server_id m.serverid) λ server_id.
            then_some (text_if s.gate_instance_id m.gate_instance_id) λ instance_id.
              then_some (settings_or s.settings m.settings) λ settings'. some (record s {
                user_id = user_id;
                ip = ip;
                topic = topic;
                network = network;
                session_id = session_id;
                server_id = server_id;
                gate_instance_id = instance_id;
                settings = settings';
              })

-- `NewSessionByMap`
unfoldable pub new_session_by_map : Bool → Option Judge → SessionMap → Option SessionAgent
unfolding update_map
new_session_by_map has_app global m = elim (update_map m new_session_imp) [
  | none ↦ none
  | some s ↦ some (record {
    has_app = has_app;
    session = with_settings s;
    user_data = none;
    judge_guest = if has_app then global else none;
  })
]

abbrev on_session : (SessionImp → SessionImp) → SessionAgent → SessionAgent
on_session f a = record a { session = f a.session }

-- The loop of `ImportSettings`: the keys that are there keep their values.
abbrev pub import_one : Bytes → Bytes → Dict Bytes → Dict Bytes
import_one k v old = elim (find k old) [ some x ↦ old | none ↦ put k v old ]

unfoldable pub import_loop : Dict Bytes → Dict Bytes → Dict Bytes
import_loop old [] = old
import_loop old ((k, v) ∷ m) = import_loop (import_one k v old) m

-- `ImportSettings`
unfoldable pub import_settings : Option (Dict Bytes) → SessionAgent → SessionAgent
unfolding import_loop
import_settings m = on_session λ s. elim s.settings [
  | none ↦ record s { settings = m }
  | some old ↦ elim m [ none ↦ s | some new ↦ record s { settings = some (import_loop old new) } ]
]

unfoldable pub set_user_id : Bytes → SessionAgent → SessionAgent
set_user_id user_id = on_session λ s. record s { user_id = user_id }

unfoldable pub set_topic : Bytes → SessionAgent → SessionAgent
set_topic topic = on_session λ s. record s { topic = topic }

pub set_settings : Option (Dict Bytes) → SessionAgent → SessionAgent
set_settings m = on_session λ s. record s { settings = m }

-- The loop that copies a map.
abbrev pub copy_loop : Dict Bytes → Dict Bytes → Dict Bytes
copy_loop tmp [] = tmp
copy_loop tmp ((k, v) ∷ m) = copy_loop (put k v tmp) m

abbrev pub copied : Option (Dict Bytes) → Dict Bytes
copied none = []
copied (some m) = copy_loop [] m

-- `CloneSettings`
unfoldable pub clone_settings : SessionAgent → Dict Bytes
clone_settings a = copied a.session.settings

-- `SetLocalKV`; `none` is the panic of a write to a nil map.
unfoldable pub set_local_kv : Bytes → Bytes → SessionAgent → Option SessionAgent
set_local_kv key value a = elim a.session.settings [
  | none ↦ none
  | some m ↦ some (record a { session = record a.session { settings = some (put key value m) } })
]

-- `RemoveLocalKV`
unfoldable pub remove_local_kv : Bytes → SessionAgent → SessionAgent
remove_local_kv key =
    on_session
      λ s. elim s.settings [ none ↦ s | some m ↦ record s { settings = some (erase key m) } ]

-- `Get`: the empty text on a missing key.
unfoldable pub get : Bytes → SessionAgent → Bytes
get key a = elim a.session.settings [
  | none ↦ []
  | some m ↦ elim (find key m) [ none ↦ [] | some v ↦ v ]
]

-- `Load`
unfoldable pub load : Bytes → SessionAgent → Bytes × Bool
load key a = elim a.session.settings [
  | none ↦ ([], false)
  | some m ↦ elim (find key m) [ none ↦ ([], false) | some v ↦ (v, true) ]
]

-- `update`: the fields and a copy of the settings of another session.
unfoldable pub update : SessionImp → SessionAgent → SessionAgent
update from = on_session λ s. record s {
  user_id = from.user_id;
  ip = from.ip;
  topic = from.topic;
  network = from.network;
  session_id = from.session_id;
  server_id = from.server_id;
  gate_instance_id = from.gate_instance_id;
  settings = some (copied from.settings);
}

-- `Unmarshal` on the answer of `proto.Unmarshal`: whether it succeeded.
unfoldable pub unmarshal : Option SessionImp → SessionAgent → Bool × SessionAgent
unmarshal none a = (false, a)
unmarshal (some se) a = (true, record a { session = with_settings se })

-- `Clone` with a new span.
unfoldable pub clone : Bytes → SessionAgent → SessionAgent
clone span a = record {
  has_app = a.has_app;
  session = record a.session {
    topic = [];
    span_id = span;
    settings = some (copied a.session.settings);
  };
  user_data = a.user_data;
  judge_guest = none;
}

-- `ExtractSpan` with a new span.
pub extract_span : Bytes → SessionAgent → SessionAgent
extract_span span a = record {
  has_app = a.has_app;
  session = record a.session { topic = []; span_id = span };
  user_data = a.user_data;
  judge_guest = none;
}

-- `CreateTrace` with two new identities.
pub create_trace : Bytes → Bytes → SessionAgent → SessionAgent
create_trace trace span = on_session λ s. record s { trace_id = trace; span_id = span }

-- `IsGuest`
unfoldable pub is_guest : SessionAgent → Bool
is_guest a = elim a.judge_guest [ some judge ↦ judge a.session | none ↦ same a.session.user_id [] ]

-- `JudgeGuest`
pub set_judge_guest : Option Judge → SessionAgent → SessionAgent
set_judge_guest judge a = record a { judge_guest = judge }
