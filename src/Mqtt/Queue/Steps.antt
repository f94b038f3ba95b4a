-- ===== src/Mqtt/Queue/Steps.antt =====
-- gate/base/mqtt/pack_queue.go: what holds of a queue whatever is called on it, in whatever order.
use mqant.Prelude.{ℕ, Bytes, Option, Bool, refl, inl, inr, arith}
use mqant.Mqtt.Pack.{Pack, Error}
use mqant.Mqtt.Output.{Writer}
use mqant.Mqtt.Queue.{PackQueue, new_pack_queue, write_pack, flusher_step, close, set_alive}
use mqant.Mqtt.Queue.Writing.{IsSound, write_pack-IsSound}

-- Calls of the queue: a write, one round of the flusher, `Close` and `SetAlive`.
pub data Step : PackQueue → PackQueue → Type 0 where
  writes : {q : PackQueue} (pack : Pack) → Step q (write_pack pack q).1
  flushes : {q : PackQueue} → Step q (flusher_step q).1
  closes : {q : PackQueue} (e : Option Error) → Step q (close e q)
  sets_alive : {q : PackQueue} (alive : ℕ) → Step q (set_alive alive q)

pub data Reach : PackQueue → Type 0 where
  starts :
      (timeout : ℕ) (r : Bytes) (w : Writer) (conn : Option Bool) (alive max : ℕ)
      → Reach (new_pack_queue timeout r w conn alive max)
  goes : {q q' : PackQueue} → Reach q → Step q q' → Reach q'

flusher_step-IsSound : (q : PackQueue) → IsSound q → IsSound (flusher_step q).1
unfolding flusher_step
flusher_step-IsSound q s = record {
  together = ground (arith, s.together);
  bounded = ground (arith, s.bounded);
}

Step-IsSound : {q q' : PackQueue} → Step q q' → IsSound q → IsSound q'
unfolding set_alive
Step-IsSound {q = q} (writes pack) s = write_pack-IsSound pack q s
Step-IsSound {q = q} flushes s = flusher_step-IsSound q s
Step-IsSound {q = q} (closes e) s = record { together = inr refl; bounded = s.bounded }
Step-IsSound {q = q} (sets_alive n) s = record { together = s.together; bounded = s.bounded }

pub Reach-IsSound : (q : PackQueue) → Reach q → IsSound q
unfolding new_pack_queue set_alive
Reach-IsSound q (starts timeout r w conn alive max) = record {
  together = inl refl;
  bounded = omega arith;
}
Reach-IsSound q (goes x s) = Step-IsSound s (Reach-IsSound _ x)
