-- ===== src/Rpc/Nats/Once.antt =====
-- rpc/base/nats_client.go: what may become of a channel, whatever the order of calls, answers, time
-- limits and the end of the client.
use mqant.Prelude.{
  ℕ, suc, ◌+◌, ◌≤◌, ◌==◌, Bool, if◌then◌else◌, Option, some, List, [], ◌∷◌, ◌++◌, Bytes, same, Dict,
  find, put, erase, ◌≡◌, refl, arith, inl, inr, Bool-cases, Option-cases,
}
use mqant.Rpc.Server.{RpcInfo, ResultInfo}
use mqant.Rpc.Nats.{
  ChannelEvent, sent, closed, NatsClient, new_nats_client, delete, stop, close_all, finish, call,
  on_answer,
}

-- How often a channel is closed, is sent a result, and waits in the table.
abbrev pub closes : ℕ → List ChannelEvent → ℕ
closes ch [] = 0
closes ch (sent c r ∷ es) = closes ch es
closes ch (closed c ∷ es) = if c == ch then suc (closes ch es) else closes ch es

abbrev pub sends : ℕ → List ChannelEvent → ℕ
sends ch [] = 0
sends ch (sent c r ∷ es) = if c == ch then suc (sends ch es) else sends ch es
sends ch (closed c ∷ es) = sends ch es

abbrev held : ℕ → Dict ℕ → ℕ
held ch [] = 0
held ch ((k, c) ∷ m) = if c == ch then suc (held ch m) else held ch m

closes-append :
    (ch : ℕ) (xs ys : List ChannelEvent) → closes ch (xs ++ ys) ≡ closes ch xs + closes ch ys
closes-append ch [] ys = omega arith
closes-append ch (sent c r ∷ xs) ys = closes-append ch xs ys
closes-append ch (closed c ∷ xs) ys = ground (arith, closes-append ch xs ys)

sends-append :
    (ch : ℕ) (xs ys : List ChannelEvent) → sends ch (xs ++ ys) ≡ sends ch xs + sends ch ys
sends-append ch [] ys = omega arith
sends-append ch (sent c r ∷ xs) ys = ground (arith, sends-append ch xs ys)
sends-append ch (closed c ∷ xs) ys = sends-append ch xs ys

held-erase : (ch : ℕ) (k : Bytes) (m : Dict ℕ) → held ch (erase k m) ≤ held ch m
held-erase ch k [] = omega arith
held-erase ch k ((k', c) ∷ m) = ground (arith, held-erase ch k m)

held-found :
    (ch : ℕ) (k : Bytes) (c : ℕ) (m : Dict ℕ)
    → find k m ≡ some c
    → held ch (erase k m) + (if c == ch then 1 else 0) ≤ held ch m
held-found ch k c [] e = absurd cc
held-found ch k c ((k', c') ∷ m) e = elim (Bool-cases (same k' k)) [
  | inl f ↦ ground (arith, e, f, held-erase ch k m)
  | inr f ↦ ground (arith, e, f, held-found ch k c m)
]

held-put :
    (ch : ℕ) (k : Bytes) (c : ℕ) (m : Dict ℕ)
    → held ch (put k c m) ≤ held ch m + (if c == ch then 1 else 0)
held-put ch k c [] = ground arith
held-put ch k c ((k', c') ∷ m) = ground (arith, held-put ch k c m)

closes-close_all : (ch : ℕ) (m : Dict ℕ) → closes ch (close_all m) ≡ held ch m
closes-close_all ch [] = refl
closes-close_all ch ((k, c) ∷ m) = ground (arith, closes-close_all ch m)

sends-close_all : (ch : ℕ) (m : Dict ℕ) → sends ch (close_all m) ≡ 0
sends-close_all ch [] = refl
sends-close_all ch ((k, c) ∷ m) = sends-close_all ch m

-- A channel waits, or was closed, and only once; it has no result while it waits; and a channel that
-- is not made yet is nowhere.
record IsSound (c : NatsClient) : Type 0 where
  closing : (ch : ℕ) → closes ch c.events + held ch c.callinfos ≤ 1
  sending : (ch : ℕ) → sends ch c.events + held ch c.callinfos ≤ 1
  fresh :
      (ch : ℕ)
      → c.next_channel ≤ ch
      → closes ch c.events + sends ch c.events + held ch c.callinfos ≡ 0

pub data Step : NatsClient → NatsClient → Type 0 where
  calls :
      {c : NatsClient} (marshal publish : RpcInfo → Option Bytes) (info : RpcInfo)
      → Step c (call marshal publish info c).1
  answers : {c : NatsClient} (gives_up : Bool) (r : ResultInfo) → Step c (on_answer gives_up r c)
  deletes : {c : NatsClient} (cid : Bytes) → Step c (delete cid c)
  stops : {c : NatsClient} → Step c (stop c)
  finishes : {c : NatsClient} → Step c (finish c)

pub data Reach : NatsClient → Type 0 where
  starts : Reach new_nats_client
  goes : {c c' : NatsClient} → Reach c → Step c c' → Reach c'

-- A client with fewer waiting channels, and the same events.
fewer-IsSound :
    (c c' : NatsClient)
    → c'.events ≡ c.events
    → c.next_channel ≤ c'.next_channel
    → ((ch : ℕ) → held ch c'.callinfos ≤ held ch c.callinfos)
    → IsSound c
    → IsSound c'
fewer-IsSound c c' e n f s = record {
  closing = λ ch. ground (arith, e, f ch, s.closing ch);
  sending = λ ch. ground (arith, e, f ch, s.sending ch);
  fresh = λ ch h. ground (arith, e, f ch, n, h, s.fresh ch (omega arith));
}

-- A client with one new channel.
added-IsSound :
    (c c' : NatsClient)
    → c'.events ≡ c.events
    → c'.next_channel ≡ suc c.next_channel
    → ((ch : ℕ)
        → held ch c'.callinfos ≤ held ch c.callinfos + (if c.next_channel == ch then 1 else 0))
    → IsSound c
    → IsSound c'
added-IsSound c c' e n f s = record {
  closing = λ ch. ground (arith, e, f ch, s.closing ch, s.fresh ch);
  sending = λ ch. ground (arith, e, f ch, s.sending ch, s.fresh ch);
  fresh = λ ch h. ground (arith, e, n, f ch, h, s.fresh ch);
}

call-IsSound :
    (marshal publish : RpcInfo → Option Bytes) (info : RpcInfo) (c : NatsClient)
    → IsSound c
    → IsSound (call marshal publish info c).1
unfolding call
call-IsSound marshal publish info c s = elim (Bool-cases c.is_close) [
  | inl e ↦ added-IsSound c _ (ground (arith, e)) (ground (arith, e)) (λ ch. ground (arith, e)) s
  | inr e ↦ elim (Option-cases (marshal info)) [
    | inr (x, f) ↦
        added-IsSound c _ (ground (arith, e, f)) (ground (arith, e, f)) (λ ch. ground (arith, e, f))
          s
    | inl f ↦ elim (Option-cases (publish info)) [
      | inr (x, q) ↦
          added-IsSound c _ (ground (arith, e, f, q)) (ground (arith, e, f, q))
            (λ ch. ground (
              arith,
              e,
              f,
              q,
              held-erase ch info.cid (put info.cid c.next_channel c.callinfos),
              held-put ch info.cid c.next_channel c.callinfos,
            ))
            s
      | inl q ↦
          added-IsSound c _ (ground (arith, e, f, q)) (ground (arith, e, f, q))
            (λ ch. ground (arith, e, f, q, held-put ch info.cid c.next_channel c.callinfos)) s
    ]
  ]
]

-- A channel that waited is closed, with one result at most.
ended-IsSound :
    (c c' : NatsClient) (es : List ChannelEvent)
    → c'.events ≡ c.events ++ es
    → c'.next_channel ≡ c.next_channel
    → ((ch : ℕ) → closes ch es + held ch c'.callinfos ≤ held ch c.callinfos)
    → ((ch : ℕ) → sends ch es + held ch c'.callinfos ≤ held ch c.callinfos)
    → IsSound c
    → IsSound c'
ended-IsSound c c' es e n f q s = record {
  closing = λ ch. ground (arith, e, f ch, closes-append ch c.events es, s.closing ch);
  sending = λ ch. ground (arith, e, q ch, sends-append ch c.events es, s.sending ch);
  fresh = λ ch h. ground (
    arith,
    e,
    n,
    f ch,
    q ch,
    closes-append ch c.events es,
    sends-append ch c.events es,
    h,
    s.fresh ch,
  );
}

on_answer-IsSound :
    (b : Bool) (r : ResultInfo) (c : NatsClient) → IsSound c → IsSound (on_answer b r c)
unfolding on_answer
on_answer-IsSound b r c s = elim (Option-cases (find r.cid c.callinfos)) [
  | inl e ↦
      fewer-IsSound c _ (ground (arith, e)) (ground (arith, e))
        (λ ch. ground (arith, e, held-erase ch r.cid c.callinfos)) s
  | inr (x, e) ↦
      ended-IsSound c _ (if b then closed x ∷ [] else sent x r ∷ closed x ∷ []) (ground (arith, e))
        (ground (arith, e)) (λ ch. ground (arith, e, held-found ch r.cid x c.callinfos))
        (λ ch. ground (arith, e, held-found ch r.cid x c.callinfos)) s
]

Step-IsSound : {c c' : NatsClient} → Step c c' → IsSound c → IsSound c'
unfolding delete finish
Step-IsSound {c = c} (calls marshal publish info) s = call-IsSound marshal publish info c s
Step-IsSound {c = c} (answers b r) s = on_answer-IsSound b r c s
Step-IsSound {c = c} (deletes cid) s =
    fewer-IsSound c (delete cid c) refl (omega arith) (λ ch. held-erase ch cid c.callinfos) s
Step-IsSound {c = c} stops s = fewer-IsSound c (stop c) refl (omega arith) (λ ch. omega arith) s
Step-IsSound {c = c} finishes s =
    ended-IsSound c (finish c) (close_all c.callinfos) refl refl
      (λ ch. ground (arith, closes-close_all ch c.callinfos))
      (λ ch. ground (arith, sends-close_all ch c.callinfos)) s

Reach-IsSound : (c : NatsClient) → Reach c → IsSound c
Reach-IsSound c starts = record {
  closing = λ ch. omega arith;
  sending = λ ch. omega arith;
  fresh = λ ch h. omega arith;
}
Reach-IsSound c (goes r s) = Step-IsSound s (Reach-IsSound _ r)

-- Whatever the order of calls, answers, time limits and the end of the client, no channel of a call is
-- closed twice or gets two results.
pub Reach-once :
    (c : NatsClient) → Reach c → (ch : ℕ) → (closes ch c.events ≤ 1) × (sends ch c.events ≤ 1)
Reach-once c r ch =
    let s = Reach-IsSound c r in (ground (arith, s.closing ch), ground (arith, s.sending ch))
