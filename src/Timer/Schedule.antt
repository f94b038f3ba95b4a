-- ===== src/Timer/Schedule.antt =====
-- The wheel as a schedule: how many tasks of a job wait for which tick. The tick `q` turns and `r`
-- slots ahead is the pair (q, r), with r below the number of slots.
use mqant.Prelude.{
  ℕ, zero, suc, ◌+◌, ◌-◌, ◌<◌, ◌≡◌, ◌≢◌, ◌==◌, ltb, Bool, ◌&&◌, if◌then◌else◌, refl, ap, sym, ◌∙◌,
  Option, none, some, List, [], ◌∷◌, length, get_or, get_elem?, set, arith, length-set,
  get_or-set_self, get_or-set_ne, Bool-cases, inl, inr,
}
use mqant.Timer.{Task, TimeWheel, Key, scan_and_run_task, tick_handler, delete_keys, delete_key}

abbrev count : (Task → Bool) → List Task → ℕ
count p [] = 0
count p (t ∷ l) = (if p t then 1 else 0) + count p l

-- How many tasks of the job are in the list?
abbrev pub jobs : ℕ → List Task → ℕ
jobs job l = count (λ t. t.job == job) l

-- And how many that wait for `q` more turns of the wheel?
abbrev pub waiting : ℕ → ℕ → List Task → ℕ
waiting job q l = count (λ t. (t.job == job) && (t.circle == q)) l

abbrev pub slot_ahead : ℕ → TimeWheel → ℕ
slot_ahead r tw =
    if ltb (tw.current_pos + r) tw.slot_num
    then tw.current_pos + r
    else tw.current_pos + r - tw.slot_num

-- How many tasks of the job start at the tick (q, r)?
abbrev pub due : ℕ → ℕ × ℕ → TimeWheel → ℕ
due job (q, r) tw = waiting job q (get_or tw.slots (slot_ahead r tw) [])

-- The tick after (q, r) on a wheel of `n` slots.
abbrev pub later : ℕ → ℕ × ℕ → ℕ × ℕ
later n (q, r) = if r + 1 == n then (q + 1, 0) else (q, r + 1)

pub record IsWheel (tw : TimeWheel) : Type 0 where
  pub sized : length tw.slots ≡ tw.slot_num
  pub pos : tw.current_pos < tw.slot_num

jobs-scan : (job : ℕ) (l : List Task) → jobs job (scan_and_run_task l).1 ≡ waiting job 0 l
unfolding scan_and_run_task
jobs-scan job [] = refl
jobs-scan job (t ∷ l) = ground (arith, jobs-scan job l)

waiting-scan :
    (job q : ℕ) (l : List Task) → waiting job q (scan_and_run_task l).0 ≡ waiting job (q + 1) l
unfolding scan_and_run_task
waiting-scan job q [] = refl
waiting-scan job q (t ∷ l) = ground (arith, waiting-scan job q l)

-- The keys that are dropped are not looked at by the schedule.
record SameSlots (a b : TimeWheel) : Type 0 where
  slots : a.slots ≡ b.slots
  pos : a.current_pos ≡ b.current_pos
  num : a.slot_num ≡ b.slot_num

delete_key-SameSlots : (k : Option Key) (tw : TimeWheel) → SameSlots (delete_key k tw) tw
delete_key-SameSlots none tw = record { slots = refl; pos = refl; num = refl }
delete_key-SameSlots (some k) tw = record { slots = refl; pos = refl; num = refl }

delete_keys-SameSlots : (l : List Task) (tw : TimeWheel) → SameSlots (delete_keys l tw) tw
delete_keys-SameSlots [] tw = record { slots = refl; pos = refl; num = refl }
delete_keys-SameSlots (t ∷ l) tw =
    let a = delete_keys-SameSlots l (delete_key t.key tw) in
    let b = delete_key-SameSlots t.key tw in
    record { slots = a.slots ∙ b.slots; pos = a.pos ∙ b.pos; num = a.num ∙ b.num }

pub get_elem?-get_or :
    {A : Type 0} (xs : List A) (i : ℕ) (d : A)
    → i < length xs
    → get_elem? xs i ≡ some (get_or xs i d)
get_elem?-get_or [] i d h = absurd (omega arith)
get_elem?-get_or (x ∷ xs) zero d h = refl
get_elem?-get_or (x ∷ xs) (suc i) d h = get_elem?-get_or xs i d (omega arith)

-- The slot under the pointer, and the wheel after a tick.
abbrev front : TimeWheel → List Task
front tw = get_or tw.slots tw.current_pos []

abbrev pub started : TimeWheel → List Task
started tw = (scan_and_run_task (front tw)).1

abbrev turned : TimeWheel → TimeWheel
turned tw = record tw {
  slots = set tw.slots tw.current_pos (scan_and_run_task (front tw)).0;
  current_pos = if tw.current_pos == tw.slot_num - 1 then 0 else tw.current_pos + 1;
}

tick_handler-turned :
    (tw : TimeWheel)
    → IsWheel tw
    → tick_handler tw ≡ some (started tw, delete_keys (started tw) (turned tw))
unfolding tick_handler
tick_handler-turned tw w =
    ground (arith, get_elem?-get_or tw.slots tw.current_pos [] (omega (arith, w.sized, w.pos)))

due-SameSlots :
    (job q r : ℕ) (a b : TimeWheel) → SameSlots a b → due job (q, r) a ≡ due job (q, r) b
due-SameSlots job q r a b s = ground (arith, s.slots, s.pos, s.num)

waiting-other :
    (job q i j : ℕ) (slots : List (List Task)) (l : List Task)
    → i ≢ j
    → waiting job q (get_or (set slots i l) j []) ≡ waiting job q (get_or slots j [])
waiting-other job q i j slots l ne = ap (λ x. waiting job q x) (get_or-set_ne slots l [] ne)

waiting-front :
    (job q : ℕ) (tw : TimeWheel)
    → IsWheel tw
    → waiting job q (get_or (turned tw).slots tw.current_pos []) ≡ waiting job (q + 1) (front tw)
waiting-front job q tw w =
    ap (λ x. waiting job q x)
      (get_or-set_self tw.slots tw.current_pos (scan_and_run_task (front tw)).0 []
        (omega (arith, w.sized, w.pos)))
    ∙ waiting-scan job q (front tw)

slot_ahead-last :
    (r : ℕ) (tw : TimeWheel)
    → IsWheel tw
    → r + 1 ≡ tw.slot_num
    → slot_ahead r (turned tw) ≡ tw.current_pos
slot_ahead-last r tw w e = ground (arith, w.pos)

slot_ahead-zero : (tw : TimeWheel) → IsWheel tw → slot_ahead 0 tw ≡ tw.current_pos
slot_ahead-zero tw w = ground (arith, w.pos)

slot_ahead-next :
    (r : ℕ) (tw : TimeWheel)
    → IsWheel tw
    → r + 1 < tw.slot_num
    → (slot_ahead r (turned tw) ≡ slot_ahead (r + 1) tw) × (tw.current_pos ≢ slot_ahead (r + 1) tw)
slot_ahead-next r tw w h = ground (arith, w.pos)

later-last : (n q r : ℕ) → r + 1 ≡ n → later n (q, r) ≡ (q + 1, 0)
later-last n q r e = ground arith

later-next : (n q r : ℕ) → r + 1 < n → later n (q, r) ≡ (q, r + 1)
later-next n q r h = ground arith

due-turned :
    (job q r : ℕ) (tw : TimeWheel)
    → IsWheel tw
    → r < tw.slot_num
    → due job (q, r) (turned tw) ≡ due job (later tw.slot_num (q, r)) tw
due-turned job q r tw w h = elim (Bool-cases (r + 1 == tw.slot_num)) [
  | inl e ↦
      (λ i. waiting job q (get_or (turned tw).slots (slot_ahead-last r tw w (ground arith) i) []))
      ∙ waiting-front job q tw w
      ∙ (λ i. waiting job (q + 1) (get_or tw.slots (sym (slot_ahead-zero tw w) i) []))
      ∙ (λ i. due job (sym (later-last tw.slot_num q r (ground arith)) i) tw)
  | inr e ↦
      let s = slot_ahead-next r tw w (ground arith) in
      (λ i. waiting job q (get_or (turned tw).slots (s.0 i) []))
      ∙ waiting-other job q tw.current_pos (slot_ahead (r + 1) tw) tw.slots
          (scan_and_run_task (front tw)).0 s.1
      ∙ (λ i. due job (sym (later-next tw.slot_num q r (ground arith)) i) tw)
]

turned-IsWheel : (tw : TimeWheel) → IsWheel tw → IsWheel (turned tw)
turned-IsWheel tw w = record {
  sized = length-set tw.slots tw.current_pos (scan_and_run_task (front tw)).0 ∙ w.sized;
  pos = ground (arith, w.pos);
}

SameSlots-IsWheel : (a b : TimeWheel) → SameSlots a b → IsWheel b → IsWheel a
SameSlots-IsWheel a b s w = record {
  sized = ap (λ x. length x) s.slots ∙ w.sized ∙ sym s.num;
  pos = omega (arith, s.pos, s.num, w.pos);
}

-- A tick never panics. It starts exactly the tasks that are due at once, and what was due at the
-- tick after (q, r) is due at (q, r) then, so that every task comes one tick nearer and none is lost
-- or doubled.
pub tick_handler-due :
    (tw : TimeWheel) (job q r : ℕ)
    → IsWheel tw
    → r < tw.slot_num
    → (run : List Task) × (next : TimeWheel) × (tick_handler tw ≡ some (run, next))
      × IsWheel next
      × (jobs job run ≡ due job (0, 0) tw)
      × (due job (q, r) next ≡ due job (later tw.slot_num (q, r)) tw)
tick_handler-due tw job q r w h =
    let same_slots = delete_keys-SameSlots (started tw) (turned tw) in
    (
      started tw,
      delete_keys (started tw) (turned tw),
      tick_handler-turned tw w,
      SameSlots-IsWheel (delete_keys (started tw) (turned tw)) (turned tw) same_slots
          (turned-IsWheel tw w),
      jobs-scan job (front tw)
          ∙ (λ i. waiting job 0 (get_or tw.slots (sym (slot_ahead-zero tw w) i) [])),
      due-SameSlots job q r (delete_keys (started tw) (turned tw)) (turned tw) same_slots
          ∙ due-turned job q r tw w h,
    )
