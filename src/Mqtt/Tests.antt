-- ===== src/Mqtt/Tests.antt =====
-- The codec, the queue and the client on concrete packets.
use mqant.Prelude.{
  ◌≡◌, ◌⊎◌, true, refl, [], ◌∷◌, ◌++◌, Bytes, some, none, ok, err, panic, false, arith,
}
use mqant.Mqtt.Pack.{Pack, nil, write_pack_panic}
use mqant.Mqtt.Pack.Variable.{publish, puback, subscribe, unsubscribe}
use mqant.Mqtt.Output.{Writer, IsHealthy, write, get_remaining_length}
use mqant.Mqtt.Write.{delay_write_pack, write_variable, write_publish, fixed_header}
use mqant.Mqtt.Read.{read_pack, read_length, read_variable}
use mqant.Mqtt.Read.Safe.{Post}
use mqant.Mqtt.Read.Cases.{IsRead, read_pack-IsRead}
use mqant.Mqtt.Reply.{get_pub_pack, get_pub_ack_pack}
use mqant.Mqtt.RoundTrip.Fields.{Transmits, received, frame}
use mqant.Mqtt.RoundTrip.Length.{read_length-get_remaining_length, read_length-four_bytes}
use mqant.Mqtt.RoundTrip.Publishes.{publish-Transmits}
use mqant.Mqtt.RoundTrip.Acks.{ack-Transmits}
use mqant.Mqtt.RoundTrip.Topics.{topic_of, untopic_of, read_pack-subscribe, read_pack-unsubscribe}
use mqant.Mqtt.Queue.{PackQueue, Stop, blocked, new_pack_queue, set_alive}
use mqant.Mqtt.Queue
use mqant.Mqtt.Queue.Writing.{IsReady, write_pack-panic}
use mqant.Mqtt.Client.{Client, wait_pack, listen_loop, get_online_msg_id}
use mqant.Mqtt.Client.Ids.{get_online_msg_id-after_ids, after_ids}
use mqant.Mqtt.Client.Answers.{answered, wait_pack-answered}
use mqant.Mqtt.Client.Reading.{listen_loop-is_stop}

abbrev writer : Writer
writer = record { size = 16; buf = []; sent = []; broken = false; failed = false }

writer-IsHealthy : IsHealthy writer
writer-IsHealthy = record { unbroken = refl; unfailed = refl }

-- The topic `a/b`.
abbrev topic : Bytes
topic = 97 ∷ 47 ∷ 98 ∷ []

abbrev publish_pack : Pack
publish_pack = get_pub_pack 1 0 7 (some topic) (1 ∷ 2 ∷ [])

abbrev queue : PackQueue
queue = record {
  read_timeout = 10;
  write_error = none;
  fch_len = 0;
  fch_closed = false;
  locked = false;
  r = 192 ∷ 0 ∷ 224 ∷ 0 ∷ [];
  w = writer;
  conn = some false;
  alive = 16;
  max_pack_size = 65535;
  status = Queue.connected;
}

abbrev client : Client
client = record { queue = queue; is_stop = false; curr_id = 0; delivered = [] }

queue-IsReady : IsReady queue
queue-IsReady = record {
  unlocked = refl;
  live = refl;
  no_error = refl;
  fch_open = refl;
  fch_room = omega arith;
  room = omega arith;
}

-- A PUBLISH without a body, which the encoder panics on.
abbrev broken_pack : Pack
broken_pack = record publish_pack { variable = nil }

-- A PINGREQ is read.
pingreq_read : read_pack 1024 (192 ∷ 0 ∷ []) ≡ (
  ok (record {
    msg_type = 12;
    dup_flag = 0;
    qos_level = 0;
    retain = 0;
    length = 0;
    variable = nil;
  }),
  [],
)
unfolding read_pack read_variable
pingreq_read = refl

read_pack-IsRead_example : Post (IsRead 1024) 1 (read_pack 1024 (192 ∷ 0 ∷ []))
read_pack-IsRead_example = read_pack-IsRead 1024 (192 ∷ 0 ∷ [])

publish-Transmits_example :
    Transmits 100 publish_pack
      (received publish_pack 9
        (publish (record { topic_name = some topic; mid = 7; msg = 1 ∷ 2 ∷ [] })))
      writer
publish-Transmits_example =
    publish-Transmits publish_pack 7 topic (1 ∷ 2 ∷ []) 100 writer
      (record { typed = omega arith; dup = omega arith; qos = omega arith }) refl refl (omega arith)
      (omega arith) (omega arith) (omega arith) (omega arith) writer-IsHealthy

ack-Transmits_example :
    Transmits 100
      (get_pub_ack_pack 258)
      (received (get_pub_ack_pack 258) 2 (puback (record { mid = 258 })))
      writer
ack-Transmits_example =
    ack-Transmits (get_pub_ack_pack 258) (record { mid = 258 }) 100 writer
      (record { typed = omega arith; dup = omega arith; qos = omega arith })
      (omega arith, omega arith) refl (omega arith) (omega arith) writer-IsHealthy

abbrev subscribe_pack : Pack
subscribe_pack = record {
  msg_type = 8;
  dup_flag = 0;
  qos_level = 1;
  retain = 0;
  length = 0;
  variable = nil;
}

read_pack-subscribe_example :
    read_pack 100 (frame subscribe_pack 8 (0 ∷ 5 ∷ 0 ∷ 3 ∷ 97 ∷ 47 ∷ 98 ∷ 2 ∷ []) ++ 9 ∷ []) ≡ (
      ok (
          received subscribe_pack 8
            (subscribe (record { mid = 5; topics = topic_of (topic, 2) ∷ [] }))),
      9 ∷ [],
    )
read_pack-subscribe_example =
    read_pack-subscribe subscribe_pack 5 100 ((topic, 2) ∷ []) (9 ∷ [])
      (record { typed = omega arith; dup = omega arith; qos = omega arith }) refl (omega arith)
      (omega arith, tt) (omega arith) (omega arith)

abbrev unsubscribe_pack : Pack
unsubscribe_pack = record subscribe_pack { msg_type = 10 }

read_pack-unsubscribe_example :
    read_pack 100 (frame unsubscribe_pack 7 (0 ∷ 5 ∷ 0 ∷ 3 ∷ 97 ∷ 47 ∷ 98 ∷ []) ++ 9 ∷ []) ≡ (
      ok (
          received unsubscribe_pack 7
            (unsubscribe (record { mid = 5; topics = untopic_of topic ∷ [] }))),
      9 ∷ [],
    )
read_pack-unsubscribe_example =
    read_pack-unsubscribe unsubscribe_pack 5 100 (topic ∷ []) (9 ∷ [])
      (record { typed = omega arith; dup = omega arith; qos = omega arith }) refl (omega arith)
      (omega arith, tt) (omega arith) (omega arith)

two_bytes : get_remaining_length 200 ≡ some (200 ∷ 1 ∷ [])
unfolding get_remaining_length
two_bytes = refl

four_bytes : get_remaining_length 2097152 ≡ some (128 ∷ 128 ∷ 128 ∷ 1 ∷ [])
unfolding get_remaining_length
four_bytes = refl

read_length-get_remaining_length_example : read_length (200 ∷ 1 ∷ 5 ∷ []) ≡ (ok 200, 5 ∷ [])
read_length-get_remaining_length_example =
    read_length-get_remaining_length 200 (200 ∷ 1 ∷ []) (5 ∷ []) (omega arith) two_bytes

read_length-four_bytes_example : read_length (128 ∷ 128 ∷ 128 ∷ 1 ∷ 5 ∷ []) ≡ (ok 0, 1 ∷ 5 ∷ [])
read_length-four_bytes_example =
    read_length-four_bytes 2097152 (128 ∷ 128 ∷ 128 ∷ 1 ∷ []) (5 ∷ []) (omega arith) (omega arith)
      four_bytes

-- A new queue on which a packet is written, and which is closed.
abbrev fresh : PackQueue
fresh = Queue.new_pack_queue 10 [] writer (some false) 10 1024

broken_pack-panic : (delay_write_pack broken_pack writer).0 ≡ panic
unfolding delay_write_pack write_variable write_publish write fixed_header
broken_pack-panic = refl

write_pack-panic_example :
    ((Queue.write_pack broken_pack queue).0 ≡ ok (some write_pack_panic))
    × (Queue.write_pack publish_pack (Queue.write_pack broken_pack queue).1
        ≡ (err blocked, (Queue.write_pack broken_pack queue).1))
write_pack-panic_example =
    write_pack-panic broken_pack publish_pack queue queue-IsReady broken_pack-panic

get_online_msg_id-after_ids_example : (get_online_msg_id (after_ids 70000 client)).0 ≡ 4466
get_online_msg_id-after_ids_example = get_online_msg_id-after_ids 70000 client refl

wait_pack-answered_example :
    wait_pack publish_pack client ≡ (ok none, answered publish_pack publish_pack.variable client)
wait_pack-answered_example =
    wait_pack-answered publish_pack client queue-IsReady writer-IsHealthy refl (λ e. omega arith)

listen_loop-is_stop_example :
    ((listen_loop (λ k. 1) client).0 ≡ err blocked)
    ⊎ (((listen_loop (λ k. 1) client).0 ≡ ok tt) × ((listen_loop (λ k. 1) client).1.is_stop ≡ true))
listen_loop-is_stop_example = listen_loop-is_stop (λ k. 1) client
