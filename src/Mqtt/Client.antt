-- ===== src/Mqtt/Client.antt =====
-- gate/base/mqtt/mqtt_client_server.go: the client of a connection, and `ReadPackInLoop` of
-- pack_queue.go, which feeds it. The receiver of packets is outside: `delivered` lists the packets
-- that were handed to its `OnRecover`, which returns, oldest first.
pub mod Ids
pub mod Answers
pub mod Reading
use mqant.Prelude.{
  ℕ, zero, suc, ◌+◌, Bytes, length, Option, none, some, List, [], ◌∷◌, ◌++◌, ◌==◌, Bool, true,
  false, if◌then◌else◌, Exec, Result, ok, err, panic, crash, pure, ◌>>=◌, ◌>>◌,
}
use mqant.Mqtt.MsgType
use mqant.Mqtt.Pack.{
  Pack, Variable, Topics, Error, not_connect_pack, connection_closed, get_keep_alive,
}
use mqant.Mqtt.Pack.Variable.{connect}
use mqant.Mqtt.Read.{read_pack}
use mqant.Mqtt.Reply.{
  get_conn_ack_pack, get_pub_pack, get_pub_ack_pack, get_pub_rec_pack, get_pub_rel_pack,
  get_pub_comp_pack, get_sub_ack_pack, get_unsub_ack_pack, get_ping_resp,
}
use mqant.Mqtt.Write.{as_publish, as_puback, as_subscribe, as_unsubscribe}
use mqant.Mqtt.Queue.{PackQueue, Stop, blocked, Call, flush_turns, is_connected, close, set_alive}
use mqant.Mqtt.Queue

pub record Client : Type 0 where
  pub queue : PackQueue
  pub is_stop : Bool
  pub curr_id : ℕ
  pub delivered : List Pack

abbrev pub Handler : Type 0 → Type 0
Handler A = Exec Stop Client A

-- `NewClient`, over the queue that it makes.
pub new_client : PackQueue → Client
new_client q = record { queue = q; is_stop = false; curr_id = 0; delivered = [] }

-- `getOnlineMsgId`
unfoldable pub get_online_msg_id : Client → ℕ × Client
get_online_msg_id c =
    let id = if c.curr_id == 65535 then 1 else c.curr_id + 1 in (id, record c { curr_id = id })

-- `GetError`
pub get_error : Client → Option Error
get_error c = c.queue.write_error

abbrev on_queue : {A : Type 0} → Call A → Handler A
on_queue m c = let (a, q) = m c.queue in (a, record c { queue = q })

-- `c.queue.WritePack(pack)`
abbrev pub send : Pack → Handler (Option Error)
send pack = on_queue (Queue.write_pack pack)

-- `c.recover.OnRecover(pack)`
abbrev pub on_recover : Pack → Handler (Unit {0})
on_recover pack c = (ok tt, record c { delivered = c.delivered ++ pack ∷ [] })

abbrev or_panic : {A : Type 0} → Option A → Handler A
or_panic none = crash
or_panic (some a) = pure a

-- case CONNECT, once more on a running connection
abbrev wait_connect : Variable → Handler (Option Error)
wait_connect (connect conn) c =
    send (get_conn_ack_pack 0) (record c { queue = set_alive (get_keep_alive conn).0 c.queue })
wait_connect _ c = (ok (some not_connect_pack), c)

-- case PUBLISH: the answer by QoS, and the packet goes up even if the answer failed.
abbrev wait_publish : Pack → Handler (Option Error)
wait_publish pack = do
  pub' ← or_panic (as_publish pack.variable)
  e ←
      (if pack.qos_level == 1
        then send (get_pub_ack_pack pub'.mid)
        else if pack.qos_level == 2
        then send (get_pub_rec_pack pub'.mid)
        else pure none)
  on_recover pack
  pure e

-- The loop of SUBSCRIBE: an answer for each topic of QoS 2; the error is that of the last one.
pub ack_topics : ℕ → List Topics → Option Error → Handler (Option Error)
ack_topics mid [] e = pure e
ack_topics mid (top ∷ tops) e = do
  e' ← (if top.qos == 2 then send (get_sub_ack_pack mid) else pure e)
  ack_topics mid tops e'

abbrev wait_subscribe : Pack → Handler (Option Error)
wait_subscribe pack = do
  sub ← or_panic (as_subscribe pack.variable)
  e ← ack_topics sub.mid sub.topics none
  on_recover pack
  pure e

abbrev wait_unsubscribe : Pack → Handler (Option Error)
wait_unsubscribe pack = do
  sub ← or_panic (as_unsubscribe pack.variable)
  e ← send (get_unsub_ack_pack sub.mid)
  on_recover pack
  pure e

abbrev wait_pingreq : Pack → Handler (Option Error)
wait_pingreq pack = do e ← send (get_ping_resp 0 pack.dup_flag); on_recover pack; pure e

-- cases PUBREC and PUBREL
abbrev wait_ack : Pack → (ℕ → Pack) → Handler (Option Error)
wait_ack pack reply = do ack ← or_panic (as_puback pack.variable); send (reply ack.mid)

-- `waitPack` on a packet that was read without an error: the error that it returns.
unfoldable pub wait_pack : Pack → Handler (Option Error)
unfolding ack_topics
wait_pack pack =
    if pack.msg_type == MsgType.connect
    then wait_connect pack.variable
    else if pack.msg_type == MsgType.publish
    then wait_publish pack
    else if pack.msg_type == MsgType.puback
    then pure none
    else if pack.msg_type == MsgType.pubrec
    then wait_ack pack get_pub_rel_pack
    else if pack.msg_type == MsgType.pubrel
    then wait_ack pack get_pub_comp_pack
    else if pack.msg_type == MsgType.pubcomp
    then pure none
    else if pack.msg_type == MsgType.subscribe
    then wait_subscribe pack
    else if pack.msg_type == MsgType.unsubscribe
    then wait_unsubscribe pack
    else if pack.msg_type == MsgType.pingreq
    then wait_pingreq pack
    else pure none

-- `queue.Close(err)` by the reading loop.
abbrev close_with : Error → Client → Client
close_with e c = record c { queue = close (some e) c.queue }

-- What the reading loop does with a packet's answer: it goes on after no error.
abbrev after_wait :
    Result Stop (Option Error) × Client → Handler (Unit {0}) → Result Stop (Unit {0}) × Client
after_wait (ok none, c) next = next c
after_wait (ok (some e), c) next = (ok tt, close_with e c)
after_wait (err s, c) next = (err s, c)
after_wait (panic, c) next = (panic, c)

-- One round of the loop of `ReadPackInLoop`.
abbrev round : Result Error Pack × Bytes → Handler (Unit {0}) → Handler (Unit {0})
round (ok pack, r) next c =
    after_wait (wait_pack pack (record c { queue = record c.queue { r = r } })) next
round (err e, r) next c = (ok tt, close_with e (record c { queue = record c.queue { r = r } }))
round (panic, r) next c = (panic, record c { queue = record c.queue { r = r } })

-- `ReadPackInLoop`, with fuel; every packet takes a byte of the input at least. `panic` at no fuel.
-- `Flusher` makes `turns fuel` rounds before each packet.
unfoldable pub read_pack_in_loop : (ℕ → ℕ) → ℕ → Bool → Handler (Unit {0})
read_pack_in_loop turns zero runs c = (panic, c)
read_pack_in_loop turns (suc fuel) runs c₀ =
    let (runs', q) = flush_turns (turns fuel) runs c₀.queue in
    let c = record c₀ { queue = q } in
    let next = read_pack_in_loop turns fuel runs' in
    if is_connected c.queue
    then round (read_pack c.queue.max_pack_size c.queue.r) (λ c'. next c') c
    else (ok tt, c)

-- `Listen_loop`, which starts `Flusher`: a panic of the loop is recovered, and leaves `isStop` as it is.
abbrev stopped : Result Stop (Unit {0}) × Client → Result Stop (Unit {0}) × Client
stopped (ok _, c) = (ok tt, record c { is_stop = true })
stopped (err s, c) = (err s, c)
stopped (panic, c) = (ok tt, c)

unfoldable pub listen_loop : (ℕ → ℕ) → Handler (Unit {0})
unfolding read_pack_in_loop
listen_loop turns c = stopped (read_pack_in_loop turns (suc (length c.queue.r)) true c)

-- `WriteMsg(topic, body)`: a packet of QoS 0.
unfoldable pub write_msg : Bytes → Bytes → Handler (Option Error)
unfolding get_online_msg_id
write_msg topic body c =
    if c.is_stop
    then (ok (some connection_closed), c)
    else (let (id, c') = get_online_msg_id c in send (get_pub_pack 0 0 id (some topic) body) c')
