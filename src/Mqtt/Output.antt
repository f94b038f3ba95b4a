-- ===== src/Mqtt/Output.antt =====
-- What the encoder uses of `bufio.Writer`, and `writeFull`, `writeInt`, `writeString` and
-- `getRemainingLength` of gate/base/mqtt/mqtt.go. Whether the connection takes a write is the
-- environment's choice, the field `broken`; an error of the writer is sticky.
use mqant.Prelude.{
  ℕ, zero, suc, ◌-◌, ◌≡◌, refl, [], ◌∷◌, ◌++◌, Bytes, length, take, drop, Option, none, some, ltb,
  leb, ◌==◌, Bool, true, false, if◌then◌else◌, Exec, ok, err, raise, pure, ◌>>◌, arith, bit_or, ◌/◌,
  ◌%◌, take-append-drop, append_assoc, append-nil, Result, sym, ap, ◌∙◌, bind-ok,
}
use mqant.Mqtt.Pack.{Error, io_error, nil_pointer}

-- `buf` waits in the buffer of `size` bytes, `sent` has reached the connection.
pub record Writer : Type 0 where
  pub size : ℕ
  pub buf : Bytes
  pub sent : Bytes
  pub broken : Bool
  pub failed : Bool

-- All that was written, in order.
abbrev pub stream : Writer → Bytes
stream w = w.sent ++ w.buf

abbrev pub Output : Type 0 → Type 0
Output A = Exec Error Writer A

-- w.Available()
abbrev pub available : Writer → ℕ
available w = w.size - length w.buf

-- A write that the buffer cannot hold: `fill` goes into it, it is sent, and `rest` is buffered if
-- it fits and is sent at once otherwise.
pub overflow_write : Bytes → Bytes → Output (Unit {0})
overflow_write fill rest w =
    let full = w.buf ++ fill in
    if w.broken
    then (err io_error, record w { buf = full; failed = true })
    else if leb (length rest) w.size
    then (ok tt, record w { sent = w.sent ++ full; buf = rest })
    else (ok tt, record w { sent = w.sent ++ (full ++ rest); buf = [] })

-- An empty buffer is bypassed.
pub write_past : Bytes → Bytes → Output (Unit {0})
unfolding overflow_write
write_past [] p w =
    if w.broken
    then (err io_error, record w { failed = true })
    else (ok tt, record w { sent = w.sent ++ p; buf = [] })
write_past (b ∷ bs) p w = overflow_write (take (available w) p) (drop (available w) p) w

-- w.Write(p); w.WriteByte(c) is the same on one byte.
unfoldable pub write : Bytes → Output (Unit {0})
unfolding write_past
write p w =
    if w.failed
    then (err io_error, w)
    else if leb (length p) (available w)
    then (ok tt, record w { buf = w.buf ++ p })
    else write_past w.buf p w

abbrev pub write_byte : ℕ → Output (Unit {0})
write_byte c = write (c ∷ [])

-- w.Flush()
unfoldable pub flush : Output (Unit {0})
flush w =
    if w.failed
    then (err io_error, w)
    else if length w.buf == 0
    then (ok tt, w)
    else if w.broken
    then (err io_error, record w { failed = true })
    else (ok tt, record w { sent = w.sent ++ w.buf; buf = [] })

-- `writeFull`: nothing is called on no bytes. `Write` takes all or returns an error, so that the
-- loop makes one round.
unfoldable pub write_full : Bytes → Output (Unit {0})
unfolding write
write_full [] = pure tt
write_full (b ∷ bs) = write (b ∷ bs)

-- binary.BigEndian.PutUint16(b, uint16(i))
abbrev pub uint16_bytes : ℕ → Bytes
uint16_bytes i = i % 65536 / 256 ∷ i % 256 ∷ []

-- `writeInt(w, i, 2)`: every call passes the size 2.
unfoldable pub write_int : ℕ → Output (Unit {0})
unfolding write_full
write_int i = write_full (uint16_bytes i)

-- `writeString`
unfoldable pub write_string : Option Bytes → Output (Unit {0})
unfolding write_full write_int
write_string none = raise nil_pointer
write_string (some data') = write_int (length data') >> write_full data'

abbrev cons_some : ℕ → Option Bytes → Option Bytes
cons_some d none = none
cons_some d (some ds) = some (d ∷ ds)

-- The loop of `getRemainingLength`; `left` is how many of the 4 bytes of `b` are free, and `none`
-- is the panic of a write past them.
pub remaining_loop : ℕ → ℕ → Option Bytes
remaining_loop zero len = none
remaining_loop (suc left) len =
    let more = cons_some (bit_or (len % 128) 128) (remaining_loop left (len / 128)) in
    if ltb 0 (len / 128) then more else some (len % 128 ∷ [])

unfoldable pub get_remaining_length : ℕ → Option Bytes
unfolding remaining_loop
get_remaining_length len = remaining_loop 4 len

-- w healthy: the connection takes what is written.
pub record IsHealthy (w : Writer) : Type 0 where
  pub unbroken : w.broken ≡ false
  pub unfailed : w.failed ≡ false

-- What a successful call leaves: `p` follows all that was written before.
pub record Writes (p : Bytes) (w : Writer) (r : Result Error (Unit {0}) × Writer) : Type 0 where
  pub done : r.0 ≡ ok tt
  pub written : stream r.1 ≡ stream w ++ p
  pub healthy : IsHealthy r.1
  pub sized : r.1.size ≡ w.size

write_past-Writes :
    (b p : Bytes) (w : Writer) → b ≡ w.buf → IsHealthy w → Writes p w (write_past b p w)
unfolding write_past overflow_write
write_past-Writes [] p w e h = ground (arith, append-nil (w.sent ++ p), append-nil w.sent)
write_past-Writes (x ∷ b) p w e h =
    let n : ℕ = available w in
    ground (
      arith,
      take-append-drop n p,
      append-nil (w.sent ++ ((w.buf ++ take n p) ++ drop n p)),
      append_assoc w.sent (w.buf ++ take n p) (drop n p),
      append_assoc w.buf (take n p) (drop n p),
      append_assoc w.sent w.buf p,
    )

pub write-Writes : (p : Bytes) (w : Writer) → IsHealthy w → Writes p w (write p w)
unfolding write
write-Writes p w h = ground (arith, write_past-Writes w.buf p w refl h, append_assoc w.sent w.buf p)

pub write_full-Writes : (p : Bytes) (w : Writer) → IsHealthy w → Writes p w (write_full p w)
unfolding write_full
write_full-Writes [] w h = record {
  done = refl;
  written = sym (append-nil (stream w));
  healthy = h;
  sized = refl;
}
write_full-Writes (b ∷ bs) w h = write-Writes (b ∷ bs) w h

-- What two successful calls write, one after the other.
pub Writes-bind :
    (m k : Output (Unit {0})) (p q : Bytes) (w : Writer)
    → Writes p w (m w)
    → ((w' : Writer) → IsHealthy w' → Writes q w' (k w'))
    → Writes (p ++ q) w ((m >> k) w)
Writes-bind m k p q w hm hk = rw step (record {
  done = next.done;
  written = next.written ∙ ap (λ s. s ++ q) hm.written ∙ append_assoc (stream w) p q;
  healthy = next.healthy;
  sized = next.sized ∙ hm.sized;
})
  where
    step : (m >> k) w ≡ k (m w).1
    step = bind-ok m (λ _. k) (λ i. (hm.done i, (m w).1))

    next : Writes q (m w).1 (k (m w).1)
    next = hk (m w).1 hm.healthy
