-- ===== src/Mqtt/Queue.antt =====
-- gate/base/mqtt/pack_queue.go: the packet queue of a connection. A call is a function of the state;
-- where it would wait for another goroutine it stops with `blocked`.
pub mod Writing
pub mod Steps
use mqant.Prelude.{
  ℕ, zero, suc, ◌+◌, ◌-◌, ◌*◌, ◌/◌, Bytes, length, Option, none, some, ltb, leb, ◌==◌, Bool, true,
  false, not, if◌then◌else◌, Exec, Result, ok, err, panic,
}
use mqant.Mqtt.Pack.{Pack, Error, disconnect, writer_full, write_pack_panic}
use mqant.Mqtt.Output.{Writer, available, flush}
use mqant.Mqtt.Write.{delay_write_pack}

-- the connection states
pub data Status : Type 0 where
  disconnected connected closed reconnecting connecting : Status

-- `fch` is the channel that wakes the flusher: how many tokens wait in it, and whether it is
-- closed. `locked` is `writelock`. `conn` says of a connection whether it is closed.
pub record PackQueue : Type 0 where
  pub read_timeout : ℕ
  pub write_error : Option Error
  pub fch_len : ℕ
  pub fch_closed : Bool
  pub locked : Bool
  pub r : Bytes
  pub w : Writer
  pub conn : Option Bool
  pub alive : ℕ
  pub max_pack_size : ℕ
  pub status : Status

abbrev pub fch_cap : ℕ
fch_cap = 256

-- What a call does other than return: it waits, for the lock or for room in `fch`, or it panics.
pub data Stop : Type 0 where
  blocked : Stop

abbrev pub Call : Type 0 → Type 0
Call A = Exec Stop PackQueue A

-- `SetAlive`: `int(float32(alive)*1.5 + 1)`, which is exact for the 16-bit keep-alive times.
unfoldable pub set_alive : ℕ → PackQueue → PackQueue
set_alive alive q =
    let seconds = if ltb alive 1 then q.read_timeout else alive in
    record q { alive = seconds * 3 / 2 + 1 }

-- `NewPackQueue`
pub new_pack_queue : ℕ → Bytes → Writer → Option Bool → ℕ → ℕ → PackQueue
unfolding set_alive
new_pack_queue read_timeout r w conn alive max_pack_size = set_alive alive (record {
  read_timeout = read_timeout;
  write_error = none;
  fch_len = 0;
  fch_closed = false;
  locked = false;
  r = r;
  w = w;
  conn = conn;
  alive = alive;
  max_pack_size = if ltb max_pack_size 1 then 65535 else max_pack_size;
  status = connected;
})

-- `isConnected`
abbrev pub is_connected : PackQueue → Bool
is_connected q = elim q.status [
  | disconnected ↦ false
  | connected ↦ true
  | closed ↦ false
  | reconnecting ↦ false
  | connecting ↦ false
]

abbrev close_conn : Option Bool → Option Bool
close_conn none = none
close_conn (some c) = some true

-- `Close`: a second close of `fch` panics, which `CloseFch` recovers.
abbrev pub close : Option Error → PackQueue → PackQueue
close e q = record q {
  write_error = e;
  fch_closed = true;
  status = closed;
  conn = close_conn q.conn;
}

-- The end of `WritePack`, after the lock is released: the token for the flusher and the error. A
-- send on the closed channel panics, and the deferred function closes the queue.
abbrev after_write : Option Error → Call (Option Error)
after_write e q =
    if q.fch_closed
    then (ok (some write_pack_panic), close (some write_pack_panic) q)
    else if leb fch_cap q.fch_len
    then (err blocked, q)
    else elim e [
      | none ↦ (ok none, record q { fch_len = q.fch_len + 1 })
      | some e ↦ (ok (some e), close (some e) (record q { fch_len = q.fch_len + 1 }))
    ]

-- `DelayWritePack` under the lock. If it panics, the deferred function closes the queue and the
-- lock stays held.
abbrev locked_write : Result Error (Unit {0}) × Writer → Call (Option Error)
locked_write (ok _, w) q = after_write none (record q { w = w })
locked_write (err e, w) q = after_write (some e) (record q { w = w })
locked_write (panic, w) q =
    (ok (some write_pack_panic), close (some write_pack_panic) (record q { w = w; locked = true }))

-- `WritePack`: the error that it returns.
unfoldable pub write_pack : Pack → Call (Option Error)
write_pack pack q =
    if q.locked
    then (err blocked, q)
    else if not (is_connected q)
    then (ok (some disconnect), q)
    else elim q.write_error [
      | some e ↦ (ok (some e), q)
      | none ↦
          if available q.w == 0
          then (ok (some writer_full), q)
          else locked_write (delay_write_pack pack q.w) q
    ]

abbrev flushed : Result Error (Unit {0}) × Writer → Call Bool
flushed (ok _, w) q = (ok true, record q { w = w })
flushed (err _, w) q = (ok false, record q { w = w })
flushed (panic, w) q = (panic, record q { w = w })

abbrev flush_under_lock : Call Bool
flush_under_lock q =
    if q.locked
    then (err blocked, q)
    else if not (is_connected q)
    then (ok false, q)
    else if ltb 0 (length q.w.buf)
    then flushed (flush q.w) q
    else (ok true, q)

-- One round of the loop of `Flusher`: whether the loop goes on. It waits for a token and for the
-- lock; what other goroutines do meanwhile is other steps.
unfoldable pub flusher_step : Call Bool
flusher_step q =
    if not (is_connected q)
    then (ok false, q)
    else if q.fch_len == 0
    then (if q.fch_closed then (ok false, q) else (err blocked, q))
    else flush_under_lock (record q { fch_len = q.fch_len - 1 })

-- Rounds of `Flusher`, as far as it gets: whether it still runs. A lock that is held while it is its
-- turn is never released.
unfoldable pub flush_turns : ℕ → Bool → PackQueue → Bool × PackQueue
unfolding flusher_step
flush_turns zero runs q = (runs, q)
flush_turns (suc n) false q = (false, q)
flush_turns (suc n) true q =
    let (x, q') = flusher_step q in
    let rest = flush_turns n true q' in
    elim x [
      | ok b ↦ if b then rest else (false, q')
      | err s ↦ (not q'.locked, q')
      | panic ↦ (false, q')
    ]
