-- ===== src/Timer/Adding.antt =====
-- A new task in the schedule.
use mqant.Prelude.{
  ℕ, ◌+◌, ◌-◌, ◌/◌, ◌%◌, ◌<◌, ◌≤◌, ◌≡◌, ◌≢◌, ◌==◌, ltb, false, ◌&&◌, if◌then◌else◌, ap, sym, subst,
  ◌∙◌, Option, none, some, List, [], ◌∷◌, ◌++◌, get_or, set, arith, length-set, get_or-set_self,
  get_or-set_ne, Bool-cases, inl, inr,
}
use native.Mathlib.Nat.{mod-lt, add-mod-mod, mod-eq_of_lt, mod-eq-sub-mod}
use mqant.Timer.{
  Task, TimeWheel, Key, add_task, get_position_and_circle, with_key, put_key, place_task,
}
use mqant.Timer.Schedule.{slot_ahead, due, waiting, IsWheel, get_elem?-get_or}

-- The ticks of a delay, in whole milliseconds.
abbrev pub ticks : ℕ → TimeWheel → ℕ
ticks delay tw = delay / 1000000 / (tw.interval / 1000000)

-- The tick at which a task of the delay starts.
abbrev pub start_of : ℕ → TimeWheel → ℕ × ℕ
start_of delay tw = (ticks delay tw / tw.slot_num, ticks delay tw % tw.slot_num)

slot_ahead-mod :
    (k : ℕ) (tw : TimeWheel)
    → IsWheel tw
    → (tw.current_pos + k) % tw.slot_num ≡ slot_ahead (k % tw.slot_num) tw
slot_ahead-mod k tw w =
    sym (add-mod-mod tw.current_pos k tw.slot_num)
    ∙ wrapped (k % tw.slot_num) (mod-lt k (omega (arith, w.pos)))
  where
    wrapped : (r : ℕ) → r < tw.slot_num → (tw.current_pos + r) % tw.slot_num ≡ slot_ahead r tw
    wrapped r h = elim (Bool-cases (ltb (tw.current_pos + r) tw.slot_num)) [
      | inl e ↦ ground (arith, mod-eq_of_lt {n = tw.current_pos + r} {m = tw.slot_num})
      | inr e ↦ ground (
        arith,
        w.pos,
        mod-eq-sub-mod {n = tw.current_pos + r} {m = tw.slot_num},
        mod-eq_of_lt {n = tw.current_pos + r - tw.slot_num} {m = tw.slot_num},
      )
    ]

slot_ahead-injective :
    (r s : ℕ) (tw : TimeWheel)
    → IsWheel tw
    → r < tw.slot_num
    → s < tw.slot_num
    → slot_ahead r tw ≡ slot_ahead s tw
    → r ≡ s
slot_ahead-injective r s tw w h k e = ground (arith, w.pos)

slot_ahead-lt :
    (r : ℕ) (tw : TimeWheel) → IsWheel tw → r < tw.slot_num → slot_ahead r tw < tw.slot_num
slot_ahead-lt r tw w h = ground (arith, w.pos)

waiting-snoc :
    (job q : ℕ) (l : List Task) (t : Task)
    → waiting job q (l ++ t ∷ [])
      ≡ waiting job q l + (if (t.job == job) && (t.circle == q) then 1 else 0)
waiting-snoc job q [] t = ground arith
waiting-snoc job q (x ∷ l) t = ground (arith, waiting-snoc job q l t)

-- The wheel after the task was put `k` turns and `r` slots ahead.
abbrev placed : Task → Key → ℕ → ℕ → TimeWheel → TimeWheel
placed task key c r tw = record tw {
  slots =
      set tw.slots (slot_ahead r tw)
        (get_or tw.slots (slot_ahead r tw) [] ++ record task { key = some key; circle = c } ∷ []);
}

due-placed_here :
    (task : Task) (key : Key) (c r job q : ℕ) (tw : TimeWheel)
    → IsWheel tw
    → r < tw.slot_num
    → due job (q, r) (placed task key c r tw)
      ≡ due job (q, r) tw + (if (task.job == job) && (c == q) then 1 else 0)
due-placed_here task key c r job q tw w h =
    ap (λ l. waiting job q l)
      (get_or-set_self tw.slots (slot_ahead r tw)
        (get_or tw.slots (slot_ahead r tw) [] ++ record task { key = some key; circle = c } ∷ []) []
        (omega (arith, slot_ahead-lt r tw w h, w.sized)))
    ∙ waiting-snoc job q (get_or tw.slots (slot_ahead r tw) [])
        (record task { key = some key; circle = c })

due-placed_other :
    (task : Task) (key : Key) (c r job q s : ℕ) (tw : TimeWheel)
    → slot_ahead r tw ≢ slot_ahead s tw
    → due job (q, s) (placed task key c r tw) ≡ due job (q, s) tw
due-placed_other task key c r job q s tw ne =
    ap (λ l. waiting job q l)
      (get_or-set_ne tw.slots
        (get_or tw.slots (slot_ahead r tw) [] ++ record task { key = some key; circle = c } ∷ []) []
        ne)

-- One more task is due at (q, s) if it is the place of the task.
abbrev pub one_if : ℕ → ℕ → ℕ × ℕ → ℕ × ℕ → ℕ
one_if a b (c, r) (q, s) = if (a == b) && ((c == q) && (r == s)) then 1 else 0

one_if-same : (a b c q r : ℕ) → (if (a == b) && (c == q) then 1 else 0) ≡ one_if a b (c, r) (q, r)
one_if-same a b c q r = ground arith

one_if-other : (a b c q r s n : ℕ) → (r == s) ≡ false → n ≡ n + one_if a b (c, r) (q, s)
one_if-other a b c q r s n e = ground arith

due-placed :
    (task : Task) (key : Key) (c r job q s : ℕ) (tw : TimeWheel)
    → IsWheel tw
    → r < tw.slot_num
    → s < tw.slot_num
    → due job (q, s) (placed task key c r tw)
      ≡ due job (q, s) tw + one_if task.job job (c, r) (q, s)
due-placed task key c r job q s tw w hr hs = elim (Bool-cases (r == s)) [
  | inl e ↦
      let same_r : r ≡ s = ground arith in
      subst
        (λ x.
          due job (q, x) (placed task key c r tw)
          ≡ due job (q, x) tw + one_if task.job job (c, r) (q, x))
        same_r
        (due-placed_here task key c r job q tw w hr
          ∙ ap (λ x. due job (q, r) tw + x) (one_if-same task.job job c q r))
  | inr e ↦
      due-placed_other task key c r job q s tw
        (λ p. ground (arith, slot_ahead-injective r s tw w hr hs p))
      ∙ one_if-other task.job job c q r s (due job (q, s) tw) e
]

place_task-placed :
    (task : Task) (k : Key) (tw : TimeWheel)
    → IsWheel tw
    → 1000000 ≤ tw.interval
    → place_task task (k, tw)
      ≡ some (
          put_key k
            ((tw.current_pos + ticks task.delay tw) % tw.slot_num)
            (placed task k (start_of task.delay tw).0 (start_of task.delay tw).1 tw))
unfolding place_task get_position_and_circle
place_task-placed task k tw w long =
    let p : (tw.current_pos + ticks task.delay tw) % tw.slot_num
        ≡ slot_ahead (start_of task.delay tw).1 tw =
      slot_ahead-mod (ticks task.delay tw) tw w in
    ground (
      arith,
      p,
      get_elem?-get_or tw.slots (slot_ahead (start_of task.delay tw).1 tw) [] (
          omega (
            arith,
            w.sized,
            slot_ahead-lt (start_of task.delay tw).1 tw w
                (mod-lt (ticks task.delay tw) (omega (arith, w.pos))),
          )),
    )

-- What a wheel is that took the task, seen from one place of the schedule.
abbrev Took : Task → ℕ → ℕ × ℕ → TimeWheel → Option TimeWheel → Type 0
Took task job at tw result =
    (next : TimeWheel) × (result ≡ some next)
    × IsWheel next
    × (due job at next ≡ due job at tw + one_if task.job job (start_of task.delay tw) at)

place_task-Took :
    (task : Task) (k : Key) (tw : TimeWheel) (job q s : ℕ)
    → IsWheel tw
    → 1000000 ≤ tw.interval
    → s < tw.slot_num
    → Took task job (q, s) tw (place_task task (k, tw))
place_task-Took task k tw job q s w long h =
    let (c, r) = start_of task.delay tw in
    (
      put_key k ((tw.current_pos + ticks task.delay tw) % tw.slot_num) (placed task k c r tw),
      place_task-placed task k tw w long,
      record {
        sized =
            length-set tw.slots (slot_ahead r tw) (
              get_or tw.slots (slot_ahead r tw) [] ++ record task { key = some k; circle = c } ∷ [])
            ∙ w.sized;
        pos = w.pos;
      },
      due-placed task k c r job q s tw w (mod-lt (ticks task.delay tw) (omega (arith, w.pos))) h,
    )

with_key-Took :
    (task : Task) (o : Option Key) (tw : TimeWheel) (job q s : ℕ)
    → IsWheel tw
    → 1000000 ≤ tw.interval
    → s < tw.slot_num
    → Took task job (q, s) tw (place_task task (with_key o tw))
with_key-Took task none tw job q s w long h =
    place_task-Took task (with_key none tw).0 (with_key none tw).1 job q s
      (record { sized = w.sized; pos = w.pos }) long h
with_key-Took task (some k) tw job q s w long h = place_task-Took task k tw job q s w long h

-- On a wheel whose interval is a millisecond or longer `addTask` does not panic. It makes the task
-- due, once, at the tick of its delay: with k the delay in whole ticks and n slots, at the place
-- (k / n, k % n). All that was due before stays where it is.
pub add_task-due :
    (task : Task) (tw : TimeWheel) (job q r : ℕ)
    → IsWheel tw
    → 1000000 ≤ tw.interval
    → r < tw.slot_num
    → (next : TimeWheel) × (add_task task tw ≡ some next)
      × IsWheel next
      × (due job (q, r) next
          ≡ due job (q, r) tw + one_if task.job job (start_of task.delay tw) (q, r))
unfolding add_task
add_task-due task tw job q r w long h = with_key-Took task task.key tw job q r w long h
