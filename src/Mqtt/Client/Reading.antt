-- ===== src/Mqtt/Client/Reading.antt =====
-- How the reading loop of a connection ends.
use mqant.Prelude.{
  ℕ, zero, suc, ◌-◌, ◌≡◌, ◌≢◌, ◌<◌, ◌⊎◌, inl, inr, refl, Bytes, List, [], ◌∷◌, length, Option, none,
  some, Bool, true, false, Bool-cases, ◌==◌, if◌then◌else◌, Result, continue, ok, err, panic, arith,
  ap, ◌∙◌, pure,
}
use mqant.Mqtt.Pack.{Pack, Variable, Topics, Error, nil, get_keep_alive}
use mqant.Mqtt.Pack.Variable.{
  connect, connack, publish, puback, subscribe, suback, unsubscribe, unsuback,
}
use mqant.Mqtt.Write.{delay_write_pack}
use mqant.Mqtt.Reply.{
  get_conn_ack_pack, get_pub_ack_pack, get_pub_rec_pack, get_pub_rel_pack, get_pub_comp_pack,
  get_sub_ack_pack, get_unsub_ack_pack, get_ping_resp,
}
use mqant.Mqtt.Read.{read_pack}
use mqant.Mqtt.Read.Cases.{Matches, IsRead, read_pack-IsRead}
use mqant.Mqtt.Read.Safe.{Post, Post-le}
use mqant.Mqtt.Queue.{PackQueue, Stop, blocked, set_alive, is_connected, flush_turns}
use mqant.Mqtt.Queue
use mqant.Mqtt.Queue.Writing.{Result-cases}
use mqant.Mqtt.Client.{
  Client, Handler, wait_pack, ack_topics, send, read_pack_in_loop, listen_loop, round, after_wait,
  stopped,
}

-- The call does not panic and leaves the input of the connection alone.
abbrev CalmCall : Pack → PackQueue → Type 0
CalmCall pack q = ((Queue.write_pack pack q).0 ≢ panic) × ((Queue.write_pack pack q).1.r ≡ q.r)

write_pack-Calm : (pack : Pack) (q : PackQueue) → CalmCall pack q
unfolding Queue.write_pack
write_pack-Calm pack q = elim (Result-cases (delay_write_pack pack q.w)) [
  | inl (w, e) ↦ ground (arith, e)
  | inr (inl (x, w, e)) ↦ ground (arith, e)
  | inr (inr (w, e)) ↦ ground (arith, e)
]

abbrev Calm : Client → Result Stop (Option Error) × Client → Type 0
Calm c x = (x.0 ≢ panic) × (x.1.queue.r ≡ c.queue.r)

Calm-continue :
    (c : Client) (x : Result Stop (Option Error) × Client)
    (f : Option Error → Handler (Option Error))
    → Calm c x
    → ((e : Option Error) (c' : Client) → Calm c' (f e c'))
    → Calm c (continue x f)
Calm-continue c (ok e, c') f h k = ((k e c').0, (k e c').1 ∙ h.1)
Calm-continue c (err s, c') f h k = (λ p. cc, h.1)
Calm-continue c (panic, c') f h k = absurd (h.0 refl)

send-Calm : (reply : Pack) (c : Client) → Calm c (send reply c)
send-Calm reply c = write_pack-Calm reply c.queue

ack_topic-Calm :
    (b : Bool) (reply : Pack) (e : Option Error) (c : Client)
    → Calm c ((if b then send reply else pure e) c)
ack_topic-Calm true reply e c = send-Calm reply c
ack_topic-Calm false reply e c = (λ p. cc, refl)

ack_topics-Calm :
    (mid : ℕ) (tops : List Topics) (e : Option Error) (c : Client)
    → Calm c (ack_topics mid tops e c)
unfolding ack_topics
ack_topics-Calm mid [] e c = ground arith
ack_topics-Calm mid (top ∷ tops) e c =
    Calm-continue c _ (λ e'. ack_topics mid tops e')
      (ack_topic-Calm (top.qos == 2) (get_sub_ack_pack mid) e c)
      (λ e' c'. ack_topics-Calm mid tops e' c')

wait_pack-Calm :
    (pack : Pack) (v : Variable) (c : Client)
    → pack.variable ≡ v
    → Matches pack.msg_type v
    → Calm c (wait_pack pack c)
unfolding wait_pack
wait_pack-Calm pack nil c e m =
    ground (arith, write_pack-Calm (get_ping_resp 0 pack.dup_flag) c.queue)
wait_pack-Calm pack (connect v) c e m =
    unfold set_alive in
    ground (arith, write_pack-Calm (get_conn_ack_pack 0) (set_alive (get_keep_alive v).0 c.queue))
wait_pack-Calm pack (connack v) c e m = absurd m
wait_pack-Calm pack (publish v) c e m = ground (
  arith,
  write_pack-Calm (get_pub_ack_pack v.mid) c.queue,
  write_pack-Calm (get_pub_rec_pack v.mid) c.queue,
)
wait_pack-Calm pack (puback v) c e m = ground (
  arith,
  write_pack-Calm (get_pub_rel_pack v.mid) c.queue,
  write_pack-Calm (get_pub_comp_pack v.mid) c.queue,
)
wait_pack-Calm pack (subscribe v) c e m = ground (arith, ack_topics-Calm v.mid v.topics none c)
wait_pack-Calm pack (suback v) c e m = ground arith
wait_pack-Calm pack (unsubscribe v) c e m =
    ground (arith, write_pack-Calm (get_unsub_ack_pack v.mid) c.queue)
wait_pack-Calm pack (unsuback v) c e m = ground arith

-- A packet that was read has the body of its type and leaves less than `n` bytes.
abbrev Shrinks : ℕ → Result Error Pack × Bytes → Type 0
Shrinks n (ok pack, r) = Matches pack.msg_type pack.variable × (length r < n)
Shrinks n (err e, r) = Unit
Shrinks n (panic, r) = ⊥

Post-Shrinks :
    (max k n : ℕ) (x : Result Error Pack × Bytes) → Post (IsRead max) k x → k < n → Shrinks n x
Post-Shrinks max k n (ok pack, r) h lt = (h.0.0, omega arith)
Post-Shrinks max k n (err e, r) h lt = tt
Post-Shrinks max k n (panic, r) h lt = h

read_pack-Shrinks : (max n : ℕ) (r : Bytes) → length r < suc n → Shrinks n (read_pack max r)
unfolding read_pack
read_pack-Shrinks max n [] h = tt
read_pack-Shrinks max n (b ∷ r) h =
    Post-Shrinks max (length r) n (read_pack max (b ∷ r))
      (Post-le (IsRead max) (suc (length r) - 1) (length r) (read_pack max (b ∷ r)) (omega arith)
        (read_pack-IsRead max (b ∷ r)))
      (omega arith)

-- The rest of the loop does not panic on a connection with less than `n` bytes.
abbrev Ends : ℕ → Handler (Unit {0}) → Type 0
Ends n next = (c : Client) → length c.queue.r < n → (next c).0 ≢ panic

after_wait-ne-panic :
    (n : ℕ) (c : Client) (x : Result Stop (Option Error) × Client) (next : Handler (Unit {0}))
    → length c.queue.r < n
    → Calm c x
    → Ends n next
    → (after_wait x next).0 ≢ panic
after_wait-ne-panic n c (ok none, c') next lt h k = k c' (omega (arith, ap (λ r. length r) h.1))
after_wait-ne-panic n c (ok (some e), c') next lt h k = λ p. cc
after_wait-ne-panic n c (err s, c') next lt h k = λ p. cc
after_wait-ne-panic n c (panic, c') next lt h k = absurd (h.0 refl)

round-ne-panic :
    (n : ℕ) (c : Client) (x : Result Error Pack × Bytes) (next : Handler (Unit {0}))
    → Shrinks n x
    → Ends n next
    → (round x next c).0 ≢ panic
round-ne-panic n c (ok pack, r) next h k =
    let c' : Client = record c { queue = record c.queue { r = r } } in
    after_wait-ne-panic n c' (wait_pack pack c') next h.1
      (wait_pack-Calm pack pack.variable c' refl h.0) k
round-ne-panic n c (err e, r) next h k = λ p. cc
round-ne-panic n c (panic, r) next h k = absurd h

flusher_step-r : (q : PackQueue) → (Queue.flusher_step q).1.r ≡ q.r
unfolding Queue.flusher_step
flusher_step-r q = ground arith

-- The flusher leaves the input of the connection alone.
flush_turns-r : (n : ℕ) (runs : Bool) (q : PackQueue) → (flush_turns n runs q).1.r ≡ q.r
unfolding flush_turns
flush_turns-r zero runs q = refl
flush_turns-r (suc n) false q = refl
flush_turns-r (suc n) true q =
    ground (arith, flusher_step-r q, flush_turns-r n true (Queue.flusher_step q).1)

-- Enough fuel: every packet that was read is shorter than the input by a byte at least.
read_pack_in_loop-ne-panic :
    (turns : ℕ → ℕ) (fuel : ℕ) (runs : Bool) → Ends fuel (read_pack_in_loop turns fuel runs)
unfolding read_pack_in_loop
read_pack_in_loop-ne-panic turns zero runs c h = absurd (omega arith)
read_pack_in_loop-ne-panic turns (suc fuel) runs c₀ h =
    let x = flush_turns (turns fuel) runs c₀.queue in
    let c : Client = record c₀ { queue = x.1 } in
    let h' : length c.queue.r < suc fuel =
      omega (arith, h, ap (λ r. length r) (flush_turns-r (turns fuel) runs c₀.queue)) in
    elim (Bool-cases (is_connected c.queue)) [
      | inl e ↦ rw e (
          round-ne-panic fuel c (read_pack c.queue.max_pack_size c.queue.r)
            (λ c'. read_pack_in_loop turns fuel x.0 c')
            (read_pack-Shrinks c.queue.max_pack_size fuel c.queue.r h')
            (λ c' h'. read_pack_in_loop-ne-panic turns fuel x.0 c' h'))
      | inr e ↦ rw e (λ p. cc)
    ]

abbrev Finished : Result Stop (Unit {0}) × Client → Type 0
Finished x = (x.0 ≡ err blocked) ⊎ ((x.0 ≡ ok tt) × (x.1.is_stop ≡ true))

stopped-Finished : (x : Result Stop (Unit {0}) × Client) → x.0 ≢ panic → Finished (stopped x)
stopped-Finished (ok u, c) h = inr (refl, refl)
stopped-Finished (err blocked, c) h = inl refl
stopped-Finished (panic, c) h = absurd (h refl)

-- On every input, whatever packets the peer sends and however far the flusher gets between them, the
-- listening loop either stops in a call that has to wait, for a lock or for room in the channel of its
-- queue, or returns with the client marked as stopped. The receiver of packets is taken to return.
pub listen_loop-is_stop :
    (turns : ℕ → ℕ) (c : Client)
    → ((listen_loop turns c).0 ≡ err blocked)
      ⊎ (((listen_loop turns c).0 ≡ ok tt) × ((listen_loop turns c).1.is_stop ≡ true))
unfolding listen_loop
listen_loop-is_stop turns c =
    stopped-Finished (read_pack_in_loop turns (suc (length c.queue.r)) true c)
      (read_pack_in_loop-ne-panic turns (suc (length c.queue.r)) true c (omega arith))
