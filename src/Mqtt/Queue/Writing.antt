-- ===== src/Mqtt/Queue/Writing.antt =====
-- What `WritePack` does on a queue that can write, and what it keeps.
use mqant.Prelude.{
  ◌+◌, ◌<◌, ◌≤◌, ◌⊎◌, inl, inr, ◌≡◌, refl, Bytes, none, some, false, Result, ok, err, panic, arith,
}
use mqant.Mqtt.Pack.{Pack, Error, write_pack_panic}
use mqant.Mqtt.Output.{Writer, Writes, available}
use mqant.Mqtt.Write.{delay_write_pack}
use mqant.Mqtt.Queue.{PackQueue, connected, closed, blocked, write_pack, fch_cap}

pub Result-cases :
    (x : Result Error (Unit {0}) × Writer)
    → ((w : Writer) × (x ≡ (ok tt, w)))
      ⊎ ((e : Error) × (w : Writer) × (x ≡ (err e, w)))
      ⊎ ((w : Writer) × (x ≡ (panic, w)))
Result-cases (ok u, w) = inl (w, refl)
Result-cases (err e, w) = inr (inl (e, w, refl))
Result-cases (panic, w) = inr (inr (w, refl))

-- A queue on which a packet can be written at once.
pub record IsReady (q : PackQueue) : Type 0 where
  pub unlocked : q.locked ≡ false
  pub live : q.status ≡ connected
  pub no_error : q.write_error ≡ none
  pub fch_open : q.fch_closed ≡ false
  pub fch_room : q.fch_len < fch_cap
  pub room : 0 < available q.w

-- The queue after a packet was written and the flusher was told.
abbrev pub written : Pack → PackQueue → PackQueue
written pack q = record q { w = (delay_write_pack pack q.w).1; fch_len = q.fch_len + 1 }

-- A ready queue writes the packet, whatever bytes the encoder makes of it, wakes the flusher once,
-- and changes nothing else.
pub write_pack-written :
    (pack : Pack) (q : PackQueue) (wire : Bytes)
    → IsReady q
    → Writes wire q.w (delay_write_pack pack q.w)
    → write_pack pack q ≡ (ok none, written pack q)
unfolding write_pack
write_pack-written pack q wire ready writes = ground (arith, shape)
  where
    shape : delay_write_pack pack q.w ≡ (ok tt, (delay_write_pack pack q.w).1)
    shape i = (writes.done i, (delay_write_pack pack q.w).1)

-- What holds between the calls of a queue: the channel is closed with the queue, never alone, and
-- does not hold more tokens than it has room for.
pub record IsSound (q : PackQueue) : Type 0 where
  pub together : (q.fch_closed ≡ false) ⊎ (q.status ≡ closed)
  pub bounded : q.fch_len ≤ fch_cap

pub write_pack-IsSound : (pack : Pack) (q : PackQueue) → IsSound q → IsSound (write_pack pack q).1
unfolding write_pack
write_pack-IsSound pack q s = elim (Result-cases (delay_write_pack pack q.w)) [
  | inl (w, e) ↦ ground (arith, e)
  | inr (inl (x, w, e)) ↦ ground (arith, e)
  | inr (inr (w, e)) ↦ ground (arith, e)
]

-- A write during which the encoder panics returns an error, and leaves the lock of the queue held:
-- every later write waits for ever.
pub write_pack-panic :
    (pack next : Pack) (q : PackQueue)
    → IsReady q
    → (delay_write_pack pack q.w).0 ≡ panic
    → ((write_pack pack q).0 ≡ ok (some write_pack_panic))
      × (write_pack next (write_pack pack q).1 ≡ (err blocked, (write_pack pack q).1))
unfolding write_pack
write_pack-panic pack next q ready p = ground (arith, shape)
  where
    shape : delay_write_pack pack q.w ≡ (panic, (delay_write_pack pack q.w).1)
    shape i = (p i, (delay_write_pack pack q.w).1)
