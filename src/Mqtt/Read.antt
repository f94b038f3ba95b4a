-- ===== src/Mqtt/Read.antt =====
-- gate/base/mqtt/mqtt.go: `ReadPack`, one function for each message type. An error ends the
-- reading of a connection, so the half-filled packet beside an error is not modelled.
pub mod Safe
pub mod Cases
use mqant.Prelude.{
  ℕ, zero, suc, ◌+◌, ◌-◌, ◌*◌, List, [], ◌∷◌, ◌++◌, Bytes, ltb, leb, ◌==◌, ◌&&◌, ◌||◌, not, Bool,
  false, if◌then◌else◌, ok, err, panic, crash, pure, guard, ◌>>=◌, ◌>>◌, some, none, shr, low_bits,
  Result,
}
use mqant.Mqtt.MsgType
use mqant.Mqtt.Pack.{
  Connect, Topics, Variable, Pack, Error, out_of_max_length, out_of_range, identifier_rejected,
  length_error, bad_length, nil,
}
use mqant.Mqtt.Pack.Variable.{connect, publish, puback, subscribe, suback, unsubscribe, unsuback}
use mqant.Mqtt.Input.{Input, read_byte, read_full, read_lossy, read_int, read_string}

-- x>>k != 0
abbrev bit_set : ℕ → ℕ → Bool
bit_set x k = not (shr x k == 0)

-- `parse_flags(b, flag)`: each test is on `b` masked by the tests before it.
unfoldable pub parse_flags : ℕ → Connect → Connect
parse_flags b flag = record flag {
  user_name = bit_set b 7 || flag.user_name;
  password = bit_set (low_bits b 7) 6 || flag.password;
  will_retain = bit_set (low_bits b 6) 5 || flag.will_retain;
  will_qos = shr (low_bits b 5) 3;
  will_flag = bit_set (low_bits b 3) 2 || flag.will_flag;
  clean_session = bit_set (low_bits b 2) 1 || flag.clean_session;
  rserved = bit_set (low_bits b 1) 0 || flag.rserved;
}

-- The loop over the remaining length, on the byte read last; `left` is 4 - count_len.
unfoldable pub length_loop : ℕ → ℕ → ℕ → ℕ → Input ℕ
length_loop zero temp_byte len multiplier = pure (len + low_bits temp_byte 7 * multiplier)
length_loop (suc left) temp_byte len multiplier =
    let len' = len + low_bits temp_byte 7 * multiplier in
    let more = read_byte >>= λ b. length_loop left b len' (multiplier * 128) in
    if bit_set temp_byte 7 then more else pure len'

unfoldable pub read_length : Input ℕ
unfolding length_loop read_byte
read_length = do temp_byte ← read_byte; length_loop 2 temp_byte 0 1

abbrev new_connect : Connect
new_connect = record {
  protocol = none;
  version = 0;
  keep_alive_timer = 0;
  return_code = 0;
  user_name = false;
  password = false;
  will_retain = false;
  will_qos = 0;
  will_flag = false;
  clean_session = false;
  rserved = false;
  id = none;
  will_topic = none;
  will_msg = none;
  uname = none;
  upassword = none;
}

-- `playload_len` is a Go `int` that may fall below 0: it is `len` less `used`, and the tests on its
-- sign compare the two. A pair is the packet and the new `used`.
unfoldable pub read_will : ℕ → ℕ → Connect → Input (Connect × ℕ)
read_will len used conn =
    if conn.will_flag
    then (do
      (topic, n) ← read_string
      guard (leb (used + n) len) length_error
      (msg, m) ← read_string
      pure (record conn { will_topic = some topic; will_msg = some msg }, used + n + m))
    else pure (conn, used)

unfoldable pub read_uname : ℕ → ℕ → Connect → Input (Connect × ℕ)
read_uname len used conn =
    if conn.user_name && ltb used len
    then (do
      (name, n) ← read_string
      guard (leb (used + n) len) length_error
      pure (record conn { uname = some name }, used + n))
    else pure (conn, used)

unfoldable pub read_upassword : ℕ → ℕ → Connect → Input Connect
read_upassword len used conn =
    if conn.password && ltb used len
    then (do
      (text, n) ← read_string
      guard (leb (used + n) len) length_error
      pure (record conn { upassword = some text }))
    else pure conn

-- case CONNECT
unfoldable pub read_connect : ℕ → Input Variable
unfolding parse_flags read_will read_uname read_upassword
read_connect len = do
  (name, n) ← read_string
  guard (leb (n + 4) len) out_of_range
  version ← read_byte
  flags ← read_byte
  timer ← read_int 2
  let conn =
      parse_flags flags
        (record new_connect { protocol = some name; version = version; keep_alive_timer = timer })
  (id, m) ← read_string
  guard (leb m 64 && leb 1 m) (identifier_rejected m)
  guard (not (ltb m 1 && (conn.will_flag || conn.password))) length_error
  (conn, used) ← read_will len (2 + n + 4 + m) (record conn { id = some id })
  (conn, used) ← read_uname len used conn
  conn ← read_upassword len used conn
  pure (connect conn)

-- case PUBLISH. `vlen` may fall below 0, and is then smaller than all that it is compared with.
unfoldable pub read_publish : ℕ → ℕ → Input Variable
read_publish len qos = do
  (topic, n) ← read_string
  let vlen = len - n - 2
  guard (leb 1 n) length_error
  (mid, vlen) ←
      (if ltb 0 qos
        then (do guard (leb 2 vlen) length_error; mid ← read_int 2; pure (mid, vlen - 2))
        else pure (0, vlen))
  msg ← read_full vlen
  pure (publish (record { topic_name = some topic; mid = mid; msg = msg }))

-- cases PUBACK, PUBREL, PUBREC and PUBCOMP
unfoldable pub read_puback : ℕ → ℕ → Input Variable
read_puback typ len = do
  guard (len == 2) (bad_length typ len)
  mid ← read_int 2
  pure (puback (record { mid = mid }))

-- One round of the loop of SUBSCRIBE: the bytes that the topic takes off `vlen`, and the topic. The
-- error of reading the name is overwritten by that of the byte after it.
abbrev pub next_topic : Input (ℕ × Topics)
next_topic = do
  nlen ← read_int 2
  name ← read_lossy nlen
  qos ← read_byte
  pure (2 + nlen + 1, record { name = some name; qos = qos })

-- One round of the loop of UNSUBSCRIBE: the error of reading the name is never looked at.
abbrev pub next_untopic : Input (ℕ × Topics)
next_untopic = do
  nlen ← read_int 2
  name ← read_lossy nlen
  pure (2 + nlen, record { name = some name; qos = 0 })

-- `err` is a new variable in the loop: an error ends the loop and is not reported.
abbrev pub or_stop :
    Result Error (ℕ × Topics) × Bytes
    → (ℕ × Topics → Input (List Topics))
    → List Topics
    → Result Error (List Topics) × Bytes
or_stop (ok t, r) f topics = f t r
or_stop (err e, r) f topics = (ok topics, r)
or_stop (panic, r) f topics = (panic, r)

-- `for vlen > 3`, with the topics read so far; `panic` at no fuel.
unfoldable pub read_topics : Input (ℕ × Topics) → ℕ → ℕ → List Topics → Input (List Topics)
read_topics next zero vlen topics = crash
read_topics next (suc fuel) vlen topics = λ r.
    if ltb 3 vlen
    then or_stop (next r) (λ t. read_topics next fuel (vlen - t.0) (topics ++ t.1 ∷ [])) topics
    else (ok topics, r)

-- case SUBSCRIBE: each round takes 3 of `vlen` at least, so `len + 1` rounds are enough.
unfoldable pub read_subscribe : ℕ → Input Variable
unfolding read_topics
read_subscribe len = do
  mid ← read_int 2
  topics ← read_topics next_topic (suc len) len []
  pure (subscribe (record { mid = mid; topics = topics }))

-- case UNSUBSCRIBE
unfoldable pub read_unsubscribe : ℕ → Input Variable
unfolding read_topics
read_unsubscribe len = do
  mid ← read_int 2
  topics ← read_topics next_untopic (suc len) len []
  pure (unsubscribe (record { mid = mid; topics = topics }))

-- case SUBACK
unfoldable pub read_suback : ℕ → ℕ → Input Variable
read_suback typ len = do
  guard (len == 3) (bad_length typ len)
  mid ← read_int 2
  qos ← read_byte
  pure (suback (record { mid = mid; qos = qos }))

-- case UNSUBACK
unfoldable pub read_unsuback : ℕ → ℕ → Input Variable
read_unsuback typ len = do
  guard (len == 2) (bad_length typ len)
  mid ← read_int 2
  pure (unsuback (record { mid = mid }))

-- default: the rest of the packet is read and dropped.
unfoldable pub read_unknown : ℕ → Input Variable
read_unknown len = do buf ← read_full len; pure nil

-- switch pack.msg_type
unfoldable pub read_variable : ℕ → ℕ → ℕ → Input Variable
unfolding read_publish read_puback read_suback read_unsuback read_unknown
read_variable typ qos len =
    if typ == MsgType.connect
    then read_connect len
    else if typ == MsgType.publish
    then read_publish len qos
    else if typ == MsgType.puback
    then read_puback typ len
    else if typ == MsgType.pubrel
    then read_puback typ len
    else if typ == MsgType.pubrec
    then read_puback typ len
    else if typ == MsgType.pubcomp
    then read_puback typ len
    else if typ == MsgType.subscribe
    then read_subscribe len
    else if typ == MsgType.suback
    then read_suback typ len
    else if typ == MsgType.unsubscribe
    then read_unsubscribe len
    else if typ == MsgType.unsuback
    then read_unsuback typ len
    else if typ == MsgType.pingreq
    then pure nil
    else if typ == MsgType.disconnect
    then pure nil
    else read_unknown len

-- `ReadPack` after its first byte, whose fields are taken by shifts and masks.
unfoldable pub read_rest : ℕ → ℕ → Input Pack
unfolding read_length
read_rest max_pack_length fixed = do
  len ← read_length
  guard (leb len max_pack_length) (out_of_max_length max_pack_length)
  let typ = shr fixed 4
  let qos = shr (low_bits fixed 3) 1
  variable ← read_variable typ qos len
  pure (record {
    msg_type = typ;
    dup_flag = shr (low_bits fixed 4) 3;
    qos_level = qos;
    retain = low_bits fixed 1;
    length = len;
    variable = variable;
  })

-- `ReadPack(r, max_pack_length)`
unfoldable pub read_pack : ℕ → Input Pack
unfolding read_rest read_byte
read_pack max_pack_length = do fixed ← read_byte; read_rest max_pack_length fixed
