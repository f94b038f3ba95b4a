-- ===== src/Gate/Transport/RoundTrip.antt =====
-- gate/base/mqtt_gate.go: what is left of a session that the gate has written and a caller has read.
use mqant.Prelude.{
  Bool, if◌then◌else◌, Option, none, some, [], Bytes, Dict, find, IsDict, ok, ◌≡◌, refl, ◌∙◌, inl,
  inr, arith, Option-cases,
}
use mqant.Gate.Session.{SessionImp, SessionAgent, Judge, new_session, clone}
use mqant.Gate.Session.Settings.{find-copied, IsDict-copy_loop}
use mqant.Gate.Handler.{Setup}
use mqant.Gate.Transport.{session_param, serialize, deserialize, rpc_param_session_type, carry}

-- The settings of the fields; a nil map has no keys.
abbrev pub fields_settings : SessionImp → Dict Bytes
fields_settings s = elim s.settings [ none ↦ [] | some m ↦ m ]

-- All that two sessions have in common but the topic and the span.
pub record Alike (s s' : SessionImp) : Type 0 where
  pub ip : s'.ip ≡ s.ip
  pub network : s'.network ≡ s.network
  pub user_id : s'.user_id ≡ s.user_id
  pub session_id : s'.session_id ≡ s.session_id
  pub server_id : s'.server_id ≡ s.server_id
  pub trace_id : s'.trace_id ≡ s.trace_id
  pub gate_instance_id : s'.gate_instance_id ≡ s.gate_instance_id
  pub settings : (k : Bytes) → find k (fields_settings s') ≡ find k (fields_settings s)

-- What the code relies on in `proto.Marshal` and `proto.Unmarshal` for a session: it is written, and
-- read back with the same fields and the same pairs in its map, in some order; a key stands once.
pub record IsCarried (marshal : SessionImp → Option Bytes) (unmarshal : Bytes → Option SessionImp)
    (s : SessionImp) : Type 0 where
  pub bytes : Bytes
  pub read : SessionImp
  pub written : marshal s ≡ some bytes
  pub is_read : unmarshal bytes ≡ some read
  pub alike : Alike s read
  pub topic : read.topic ≡ s.topic
  pub is_dict : IsDict (fields_settings read)

module _ (has_app : Bool) (judge : Option Judge) (marshal : SessionImp → Option Bytes)
    (unmarshal : Bytes → Option SessionImp) (span : Bytes) (a : SessionAgent)
    (c : IsCarried marshal unmarshal a.session) where
  -- What the reader makes of the bytes: a session agent with a clone of the fields.
  abbrev arrived : SessionAgent
  arrived = clone span (record {
    has_app = has_app;
    session = record c.read { settings = some (fields_settings c.read) };
    user_data = none;
    judge_guest = if has_app then judge else none;
  })

  arrived_eq :
      deserialize has_app judge unmarshal span rpc_param_session_type c.bytes
      ≡ ok (session_param arrived)
  unfolding deserialize new_session clone
  arrived_eq = elim (Option-cases c.read.settings) [
    | inl e ↦ ground (arith, c.is_read, e)
    | inr (m, e) ↦ ground (arith, c.is_read, e)
  ]

  arrived-Alike : Alike a.session arrived.session
  unfolding clone
  arrived-Alike =
      let x = c.alike in
      record {
        ip = x.ip;
        network = x.network;
        user_id = x.user_id;
        session_id = x.session_id;
        server_id = x.server_id;
        trace_id = x.trace_id;
        gate_instance_id = x.gate_instance_id;
        settings = λ k. find-copied k (fields_settings c.read) c.is_dict ∙ x.settings k;
      }

  -- A session that protobuf carries is written by `Serialize` and read by `Deserialize` with all its
  -- settings and fields but two: it has the new span, and its topic is empty.
  pub deserialize-serialize :
      (b : Bytes) × (a' : SessionAgent) × (serialize marshal (session_param a)
        ≡ ok (rpc_param_session_type, b))
      × (deserialize has_app judge unmarshal span rpc_param_session_type b ≡ ok (session_param a'))
      × Alike a.session a'.session
      × (a'.session.span_id ≡ span)
      × (a'.session.topic ≡ [])
  unfolding serialize clone
  deserialize-serialize =
      (c.bytes, arrived, ground (arith, c.written), arrived_eq, arrived-Alike, refl, refl)

-- The same for a session that goes from the gate to the caller; its settings have no key twice.
pub carry-Alike :
    (g : Setup) (marshal : SessionImp → Option Bytes) (span : Bytes) (a : SessionAgent)
    → IsCarried marshal g.unmarshal a.session
    → (s : SessionImp) × (carry g marshal span a ≡ some s)
      × Alike a.session s
      × (s.topic ≡ [])
      × IsDict (fields_settings s)
unfolding carry serialize clone
carry-Alike g marshal span a c =
    let s = arrived g.has_app g.judge marshal g.unmarshal span a c in
    (
      s.session,
      ground (arith, c.written, arrived_eq g.has_app g.judge marshal g.unmarshal span a c),
      arrived-Alike g.has_app g.judge marshal g.unmarshal span a c,
      refl,
      IsDict-copy_loop [] (fields_settings c.read) tt,
    )
