-- ===== src/Mqtt/Reply.antt =====
-- gate/base/mqtt/mqtt.go: the packets that the server sends, from `GetConnAckPack` to `GetPingResp`.
use mqant.Prelude.{ℕ, Bytes, Option}
use mqant.Mqtt.MsgType
use mqant.Mqtt.Pack.{Pack, Variable, nil}
use mqant.Mqtt.Pack.Variable.{connack, publish, puback, suback, unsuback}

-- `new(Pack)` with its type set, and its body.
abbrev new_pack : ℕ → Variable → Pack
new_pack typ v = record {
  msg_type = typ;
  dup_flag = 0;
  qos_level = 0;
  retain = 0;
  length = 0;
  variable = v;
}

abbrev pub get_conn_ack_pack : ℕ → Pack
get_conn_ack_pack return_code =
    new_pack MsgType.connack (connack (record { reserved = 0; return_code = return_code }))

abbrev pub get_pub_pack : ℕ → ℕ → ℕ → Option Bytes → Bytes → Pack
get_pub_pack qos dup mid topic msg =
    record (new_pack MsgType.publish
      (publish (record { topic_name = topic; mid = mid; msg = msg }))) {
        qos_level = qos;
        dup_flag = dup;
      }

abbrev pub get_pub_ack_pack : ℕ → Pack
get_pub_ack_pack mid = new_pack MsgType.puback (puback (record { mid = mid }))

abbrev pub get_pub_rec_pack : ℕ → Pack
get_pub_rec_pack mid = new_pack MsgType.pubrec (puback (record { mid = mid }))

abbrev pub get_pub_rel_pack : ℕ → Pack
get_pub_rel_pack mid = record (new_pack MsgType.pubrel (puback (record { mid = mid }))) {
  qos_level = 1;
  dup_flag = 0;
}

abbrev pub get_pub_comp_pack : ℕ → Pack
get_pub_comp_pack mid = new_pack MsgType.pubcomp (puback (record { mid = mid }))

abbrev pub get_sub_ack_pack : ℕ → Pack
get_sub_ack_pack mid = new_pack MsgType.suback (suback (record { mid = mid; qos = 0 }))

abbrev pub get_unsub_ack_pack : ℕ → Pack
get_unsub_ack_pack mid = new_pack MsgType.unsuback (unsuback (record { mid = mid }))

abbrev pub get_ping_resp : ℕ → ℕ → Pack
get_ping_resp qos dup = record (new_pack MsgType.pingresp nil) { qos_level = qos; dup_flag = dup }
