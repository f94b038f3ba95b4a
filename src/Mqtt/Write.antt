-- ===== src/Mqtt/Write.antt =====
-- gate/base/mqtt/mqtt.go: `DelayWritePack`, one function for each message type, and `WritePack`.
use mqant.Prelude.{
  ℕ, ◌+◌, List, [], ◌∷◌, Bytes, length, Option, none, some, ltb, ◌==◌, if◌then◌else◌, crash, pure,
  ◌>>=◌, ◌>>◌, bit_or, shl8,
}
use mqant.Mqtt.MsgType
use mqant.Mqtt.Pack.{
  Connack, Publish, Puback, Topics, Subscribe, Suback, UnSubscribe, UnSuback, Variable, Pack,
}
use mqant.Mqtt.Pack.Variable.{connack, publish, puback, subscribe, suback, unsubscribe, unsuback}
use mqant.Mqtt.Output.{
  Output, write_byte, write_full, write_int, write_string, get_remaining_length, flush,
}

-- A value that Go takes through a nil pointer, a failed assertion or an index out of range.
abbrev or_crash : {A : Type 0} → Option A → Output A
or_crash none = crash
or_crash (some a) = pure a

-- The type assertions `pack.variable.(*T)`.
abbrev pub as_connack : Variable → Option Connack
as_connack (connack v) = some v
as_connack _ = none

abbrev pub as_publish : Variable → Option Publish
as_publish (publish v) = some v
as_publish _ = none

abbrev pub as_puback : Variable → Option Puback
as_puback (puback v) = some v
as_puback _ = none

abbrev pub as_subscribe : Variable → Option Subscribe
as_subscribe (subscribe v) = some v
as_subscribe _ = none

abbrev pub as_suback : Variable → Option Suback
as_suback (suback v) = some v
as_suback _ = none

abbrev pub as_unsubscribe : Variable → Option UnSubscribe
as_unsubscribe (unsubscribe v) = some v
as_unsubscribe _ = none

abbrev pub as_unsuback : Variable → Option UnSuback
as_unsuback (unsuback v) = some v
as_unsuback _ = none

-- The first byte: `retain` is not written.
unfoldable pub fixed_header : Pack → ℕ
fixed_header pack =
    bit_or (bit_or (shl8 pack.msg_type 4) (shl8 pack.dup_flag 3)) (shl8 pack.qos_level 1)

abbrev first_byte : Bytes → Output (Unit {0})
first_byte [] = crash
first_byte (b ∷ bs) = write_byte b

-- w.WriteByte(getRemainingLength(n)[0])
unfoldable pub write_length_byte : ℕ → Output (Unit {0})
write_length_byte n = or_crash (get_remaining_length n) >>= first_byte

-- case CONNACK
unfoldable pub write_connack : Pack → Output (Unit {0})
unfolding write_length_byte
write_connack pack = do
  ack ← or_crash (as_connack pack.variable)
  write_length_byte 2
  write_full (ack.reserved ∷ ack.return_code ∷ [])

-- case PUBLISH
unfoldable pub write_publish : Pack → Output (Unit {0})
write_publish pack = do
  pub' ← or_crash (as_publish pack.variable)
  topic ← or_crash pub'.topic_name
  let head = if ltb 0 pack.qos_level then 4 else 2
  size ← or_crash (get_remaining_length (head + length topic + length pub'.msg))
  write_full size
  write_string pub'.topic_name
  if ltb 0 pack.qos_level then write_int pub'.mid else pure tt
  write_full pub'.msg

-- cases PUBACK, PUBREC, PUBREL and PUBCOMP
unfoldable pub write_puback : Pack → Output (Unit {0})
unfolding write_length_byte
write_puback pack = do
  ack ← or_crash (as_puback pack.variable)
  write_length_byte 2
  write_int ack.mid

-- The loops that add up `tnum`; each topic takes `extra` bytes beside its name.
unfoldable pub topics_length : ℕ → List Topics → Option ℕ
topics_length extra [] = some 0
topics_length extra (top ∷ tops) = elim top.name [
  | none ↦ none
  | some name ↦ elim (topics_length extra tops) [
    | none ↦ none
    | some n ↦ some (extra + length name + n)
  ]
]

unfoldable pub write_topic : Topics → Output (Unit {0})
write_topic top = do name ← or_crash top.name; write_int (length name); write_full name

unfoldable pub write_topics : List Topics → Output (Unit {0})
unfolding write_topic
write_topics [] = pure tt
write_topics (top ∷ tops) = do write_topic top; write_byte top.qos; write_topics tops

unfoldable pub write_untopics : List Topics → Output (Unit {0})
unfolding write_topic
write_untopics [] = pure tt
write_untopics (top ∷ tops) = do write_topic top; write_untopics tops

-- case SUBSCRIBE: one byte of the length is written.
unfoldable pub write_subscribe : Pack → Output (Unit {0})
unfolding write_length_byte topics_length write_topics
write_subscribe pack = do
  sub ← or_crash (as_subscribe pack.variable)
  tnum ← or_crash (topics_length 3 sub.topics)
  write_length_byte tnum
  write_int sub.mid
  write_topics sub.topics

-- case SUBACK
unfoldable pub write_suback : Pack → Output (Unit {0})
unfolding write_length_byte
write_suback pack = do
  ack ← or_crash (as_suback pack.variable)
  write_length_byte 3
  write_int ack.mid
  write_byte ack.qos

-- case UNSUBSCRIBE
unfoldable pub write_unsubscribe : Pack → Output (Unit {0})
unfolding write_length_byte topics_length write_untopics
write_unsubscribe pack = do
  sub ← or_crash (as_unsubscribe pack.variable)
  tnum ← or_crash (topics_length 2 sub.topics)
  write_length_byte tnum
  write_int sub.mid
  write_untopics sub.topics

-- case UNSUBACK
unfoldable pub write_unsuback : Pack → Output (Unit {0})
unfolding write_length_byte
write_unsuback pack = do
  ack ← or_crash (as_unsuback pack.variable)
  write_length_byte 2
  write_int ack.mid

-- switch pack.msg_type: the other types write no more than the first byte.
unfoldable pub write_variable : Pack → Output (Unit {0})
write_variable pack =
    if typ == MsgType.connack
    then write_connack pack
    else if typ == MsgType.publish
    then write_publish pack
    else if typ == MsgType.puback
    then write_puback pack
    else if typ == MsgType.pubrec
    then write_puback pack
    else if typ == MsgType.pubrel
    then write_puback pack
    else if typ == MsgType.pubcomp
    then write_puback pack
    else if typ == MsgType.subscribe
    then write_subscribe pack
    else if typ == MsgType.suback
    then write_suback pack
    else if typ == MsgType.unsubscribe
    then write_unsubscribe pack
    else if typ == MsgType.unsuback
    then write_unsuback pack
    else if typ == MsgType.pingresp
    then write_byte 0
    else pure tt
  where
    typ : ℕ
    typ = pack.msg_type

-- `DelayWritePack(pack, w)`
unfoldable pub delay_write_pack : Pack → Output (Unit {0})
unfolding fixed_header write_variable
delay_write_pack pack = write_byte (fixed_header pack) >> write_variable pack

-- `WritePack(pack, w)`
unfoldable pub write_pack : Pack → Output (Unit {0})
write_pack pack = delay_write_pack pack >> flush
