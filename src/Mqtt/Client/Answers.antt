-- ===== src/Mqtt/Client/Answers.antt =====
-- What `waitPack` answers, as a table over the packets, and that the handler follows it.
use mqant.Prelude.{
  ℕ, ◌≡◌, ◌≢◌, refl, Bytes, [], ◌∷◌, ◌++◌, Option, none, some, Bool, true, false, ◌==◌,
  if◌then◌else◌, ok, arith,
}
use mqant.Mqtt.MsgType
use mqant.Mqtt.Pack.{Pack, Variable, nil, get_keep_alive}
use mqant.Mqtt.Pack.Variable.{
  connect, connack, publish, puback, subscribe, suback, unsubscribe, unsuback,
}
use mqant.Mqtt.Output.{Writer, IsHealthy, Writes}
use mqant.Mqtt.Write.{delay_write_pack}
use mqant.Mqtt.Reply.{
  get_conn_ack_pack, get_pub_ack_pack, get_pub_rec_pack, get_pub_rel_pack, get_pub_comp_pack,
  get_unsub_ack_pack, get_ping_resp,
}
use mqant.Mqtt.Read.Cases.{Matches}
use mqant.Mqtt.Queue.{PackQueue, set_alive}
use mqant.Mqtt.Queue
use mqant.Mqtt.Queue.Writing.{IsReady, written, write_pack-written}
use mqant.Mqtt.Client.{Client, wait_pack}
use mqant.Mqtt.RoundTrip.Fields.{delay_write_pack-Writes}
use mqant.Mqtt.RoundTrip.Acks.{
  write_ack-Writes, write_unsuback-Writes, write_connack-Writes, write_pingresp-Writes, IsAckType,
}

abbrev answer_publish : ℕ → ℕ → Option Pack
answer_publish qos mid =
    if qos == 1
    then some (get_pub_ack_pack mid)
    else if qos == 2
    then some (get_pub_rec_pack mid)
    else none

-- The answer to a packet of the type, QoS, duplicate flag and body that are given.
abbrev pub answer : ℕ → ℕ → ℕ → Variable → Option Pack
answer typ qos dup (connect v) = some (get_conn_ack_pack 0)
answer typ qos dup (publish v) = answer_publish qos v.mid
answer typ qos dup (puback v) =
    if typ == MsgType.pubrec
    then some (get_pub_rel_pack v.mid)
    else if typ == MsgType.pubrel
    then some (get_pub_comp_pack v.mid)
    else none
answer typ qos dup (unsubscribe v) = some (get_unsub_ack_pack v.mid)
answer typ qos dup nil = if typ == MsgType.pingreq then some (get_ping_resp 0 dup) else none
answer typ qos dup _ = none

-- The packets that the receiver sees.
abbrev pub goes_up : ℕ → Variable → Bool
goes_up typ (publish v) = true
goes_up typ (unsubscribe v) = true
goes_up typ nil = typ == MsgType.pingreq
goes_up typ _ = false

-- A CONNECT sets the time after which the connection counts as dead.
abbrev pub timed : Variable → PackQueue → PackQueue
timed (connect v) q = set_alive (get_keep_alive v).0 q
timed _ q = q

abbrev pub sent : Option Pack → PackQueue → PackQueue
sent none q = q
sent (some reply) q = written reply q

-- The client after a packet, by the table.
abbrev pub answered : Pack → Variable → Client → Client
answered pack v c = record c {
  queue = sent (answer pack.msg_type pack.qos_level pack.dup_flag v) (timed v c.queue);
  delivered = if goes_up pack.msg_type v then c.delivered ++ pack ∷ [] else c.delivered;
}

-- The encoder writes the packet on every writer that takes it.
abbrev Encodes : Pack → Type 0
Encodes reply =
    (w : Writer) → IsHealthy w → (wire : Bytes) × Writes wire w (delay_write_pack reply w)

connack-Encodes : (code : ℕ) → Encodes (get_conn_ack_pack code)
connack-Encodes code w h = (
  _,
  delay_write_pack-Writes (get_conn_ack_pack code) _ w h
      λ w' h'. write_connack-Writes (get_conn_ack_pack code) _ w' refl refl h',
)

ack-Encodes :
    (typ qos dup mid : ℕ)
    → IsAckType typ
    → Encodes (record (get_pub_ack_pack mid) { msg_type = typ; qos_level = qos; dup_flag = dup })
ack-Encodes typ qos dup mid t w h =
    let reply : Pack = record (get_pub_ack_pack mid) {
      msg_type = typ;
      qos_level = qos;
      dup_flag = dup;
    } in
    (
      _,
      delay_write_pack-Writes reply _ w h
          λ w' h'. write_ack-Writes reply (record { mid = mid }) w' t refl h',
    )

unsuback-Encodes : (mid : ℕ) → Encodes (get_unsub_ack_pack mid)
unsuback-Encodes mid w h = (
  _,
  delay_write_pack-Writes (get_unsub_ack_pack mid) _ w h λ w' h'.
      write_unsuback-Writes (get_unsub_ack_pack mid) (record { mid = mid }) w' refl refl h',
)

pingresp-Encodes : (qos dup : ℕ) → Encodes (get_ping_resp qos dup)
pingresp-Encodes qos dup w h = (
  _,
  delay_write_pack-Writes (get_ping_resp qos dup) _ w h
      λ w' h'. write_pingresp-Writes (get_ping_resp qos dup) w' refl h',
)

-- A packet that can be encoded is written by a ready queue.
write_pack-Encodes :
    (reply : Pack) (q : PackQueue)
    → Encodes reply
    → IsReady q
    → IsHealthy q.w
    → Queue.write_pack reply q ≡ (ok none, written reply q)
write_pack-Encodes reply q e ready h = let r = e q.w h in write_pack-written reply q r.0 ready r.1

module _ (pack : Pack) (c : Client) (ready : IsReady c.queue) (h : IsHealthy c.queue.w) where
  wait_pack-by_body :
      (v : Variable)
      → pack.variable ≡ v
      → pack.msg_type ≢ MsgType.subscribe
      → Matches pack.msg_type v
      → wait_pack pack c ≡ (ok none, answered pack v c)
  unfolding wait_pack
  wait_pack-by_body nil e n m = ground (
    arith,
    write_pack-Encodes (get_ping_resp 0 pack.dup_flag) c.queue (pingresp-Encodes 0 pack.dup_flag)
        ready h,
  )
  wait_pack-by_body (connect v) e n m =
      unfold set_alive in
      ground (
        arith,
        write_pack-Encodes (get_conn_ack_pack 0) (timed (connect v) c.queue) (connack-Encodes 0),
      )
  wait_pack-by_body (connack v) e n m = absurd m
  wait_pack-by_body (publish v) e n m = ground (
    arith,
    write_pack-Encodes (get_pub_ack_pack v.mid) c.queue
        (ack-Encodes MsgType.puback 0 0 v.mid (omega arith)) ready h,
    write_pack-Encodes (get_pub_rec_pack v.mid) c.queue
        (ack-Encodes MsgType.pubrec 0 0 v.mid (omega arith)) ready h,
  )
  wait_pack-by_body (puback v) e n m = ground (
    arith,
    write_pack-Encodes (get_pub_rel_pack v.mid) c.queue
        (ack-Encodes MsgType.pubrel 1 0 v.mid (omega arith)) ready h,
    write_pack-Encodes (get_pub_comp_pack v.mid) c.queue
        (ack-Encodes MsgType.pubcomp 0 0 v.mid (omega arith)) ready h,
  )
  wait_pack-by_body (subscribe v) e n m = absurd (n m)
  wait_pack-by_body (suback v) e n m = ground arith
  wait_pack-by_body (unsubscribe v) e n m = ground (
    arith,
    write_pack-Encodes (get_unsub_ack_pack v.mid) c.queue (unsuback-Encodes v.mid) ready h,
  )
  wait_pack-by_body (unsuback v) e n m = ground arith

-- On a ready queue every packet but SUBSCRIBE is answered by the table: CONNACK to CONNECT, PUBACK
-- or PUBREC to PUBLISH by its QoS, PUBREL to PUBREC, PUBCOMP to PUBREL, UNSUBACK to UNSUBSCRIBE,
-- PINGRESP to PINGREQ and nothing to the others; the packets that go up are handed over once.
pub wait_pack-answered :
    (pack : Pack) (c : Client)
    → IsReady c.queue
    → IsHealthy c.queue.w
    → Matches pack.msg_type pack.variable
    → pack.msg_type ≢ MsgType.subscribe
    → wait_pack pack c ≡ (ok none, answered pack pack.variable c)
wait_pack-answered pack c ready h m n = wait_pack-by_body pack c ready h pack.variable refl n m
