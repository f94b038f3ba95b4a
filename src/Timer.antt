-- ===== src/Timer.antt =====
-- module/modules/timer/timingwheel.go: the time wheel. Its loop takes one message at a time, from the
-- ticker or from a channel; each is a function of the state here. Durations are nanoseconds. A job
-- is a number; the jobs that a tick starts are its result.

pub mod Schedule
pub mod Adding
mod Tests
use mqant.Prelude.{
  ℕ, zero, suc, ◌+◌, ◌-◌, ◌*◌, ◌/◌, ◌%◌, ◌==◌, leb, ltb, Bool, true, false, ◌&&◌, ◌||◌,
  if◌then◌else◌, Option, none, some, List, [], ◌∷◌, ◌++◌, Bytes, same, get_elem?, set, replicate,
  any,
}

-- A key that the wheel made from its counter, an `int64`, or one of the caller of another type.
pub data Key : Type 0 where
  int64 : ℕ → Key
  text : Bytes → Key

abbrev pub same_key : Key → Key → Bool
same_key (int64 a) (int64 b) = a == b
same_key (text a) (text b) = same a b
same_key _ _ = false

pub record Task : Type 0 where
  pub delay : ℕ
  pub circle : ℕ
  pub key : Option Key
  pub job : ℕ

pub record TimeWheel : Type 0 where
  pub interval : ℕ
  pub accumulator : ℕ
  pub slots : List (List Task)
  pub timer : Key → Option ℕ
  pub current_pos : ℕ
  pub slot_num : ℕ

-- `New`, with `initSlots`
unfoldable pub new : ℕ → ℕ → Option TimeWheel
new interval slot_num =
    if (interval == 0) || (slot_num == 0)
    then none
    else some (record {
      interval = interval;
      accumulator = 0;
      slots = replicate slot_num [];
      timer = λ k. none;
      current_pos = 0;
      slot_num = slot_num;
    })

-- `getPositionAndCircle`; `none` is the panic of a division by 0, which an interval below a
-- millisecond gives.
unfoldable pub get_position_and_circle : ℕ → TimeWheel → Option (ℕ × ℕ)
get_position_and_circle d tw =
    let ticks = d / 1000000 / (tw.interval / 1000000) in
    if tw.interval / 1000000 == 0
    then none
    else some ((tw.current_pos + ticks) % tw.slot_num, ticks / tw.slot_num)

abbrev pub put_key : Key → ℕ → TimeWheel → TimeWheel
put_key k pos tw = record tw { timer = λ k'. if same_key k k' then some pos else tw.timer k' }

abbrev delete_key : Option Key → TimeWheel → TimeWheel
delete_key none tw = tw
delete_key (some k) tw = record tw { timer = λ k'. if same_key k k' then none else tw.timer k' }

-- The start of `addTask`: a task without a key takes the next value of the counter, which starts
-- again at 1 after the largest `int64`.
abbrev pub with_key : Option Key → TimeWheel → Key × TimeWheel
with_key none tw =
    let n = if leb 9223372036854775807 tw.accumulator then 1 else tw.accumulator + 1 in
    (int64 n, record tw { accumulator = n })
with_key (some k) tw = (k, tw)

-- `addTask` once the task has its key; `none` is a panic.
unfoldable pub place_task : Task → Key × TimeWheel → Option TimeWheel
unfolding get_position_and_circle
place_task task (k, tw) = elim (get_position_and_circle task.delay tw) [
  | none ↦ none
  | some (pos, circle) ↦ elim (get_elem? tw.slots pos) [
    | none ↦ none
    | some l ↦ some (
        put_key k pos (record tw {
          slots = set tw.slots pos (l ++ record task { key = some k; circle = circle } ∷ []);
        }))
  ]
]

-- `addTask`
unfoldable pub add_task : Task → TimeWheel → Option TimeWheel
unfolding place_task
add_task task tw = place_task task (with_key task.key tw)

-- `AddTimer`, with the message that it sends taken at once. A delay that is not positive is 0 here.
pub add_timer : ℕ → ℕ → TimeWheel → Option TimeWheel
add_timer delay job tw =
    if delay == 0
    then some tw
    else add_task (record { delay = delay; circle = 0; key = none; job = job }) tw

-- `AddTimerCustom`
pub add_timer_custom : ℕ → Option Key → ℕ → TimeWheel → Option TimeWheel
add_timer_custom delay key job tw =
    if delay == 0
    then some tw
    else add_task (record { delay = delay; circle = 0; key = key; job = job }) tw

-- `scanAndRunTask` on a slot: the tasks that stay, and those whose jobs start.
unfoldable pub scan_and_run_task : List Task → List Task × List Task
scan_and_run_task [] = ([], [])
scan_and_run_task (task ∷ l) =
    let (stay, run) = scan_and_run_task l in
    elim task.circle [
      | zero ↦ (stay, task ∷ run)
      | suc c ↦ (record task { circle = c } ∷ stay, run)
    ]

abbrev delete_keys : List Task → TimeWheel → TimeWheel
delete_keys [] tw = tw
delete_keys (task ∷ tasks) tw = delete_keys tasks (delete_key task.key tw)

-- `tickHandler`: the tasks whose jobs start, and the wheel; `none` is a panic.
unfoldable pub tick_handler : TimeWheel → Option (List Task × TimeWheel)
unfolding scan_and_run_task
tick_handler tw = elim (get_elem? tw.slots tw.current_pos) [
  | none ↦ none
  | some l ↦
      let next = if tw.current_pos == tw.slot_num - 1 then 0 else tw.current_pos + 1 in
      let (stay, run) = scan_and_run_task l in
      some (
        run,
        delete_keys run
            (record tw { slots = set tw.slots tw.current_pos stay; current_pos = next }),
      )
]

abbrev has_key : Key → Task → Bool
has_key k task = elim task.key [ none ↦ false | some k' ↦ same_key k' k ]

-- The loop of `removeTask`: `e.Next()` of an element that was removed is nil, so that the loop ends
-- after the first match.
unfoldable pub remove_first : Key → List Task → List Task
remove_first k [] = []
remove_first k (task ∷ l) = if has_key k task then l else task ∷ remove_first k l

-- `removeTask`; `none` is a panic.
unfoldable pub remove_task : Key → TimeWheel → Option TimeWheel
unfolding remove_first
remove_task k tw = elim (tw.timer k) [
  | none ↦ some tw
  | some position ↦ elim (get_elem? tw.slots position) [
    | none ↦ none
    | some l ↦ some (
        if any (has_key k) l
        then delete_key (some k) (record tw { slots = set tw.slots position (remove_first k l) })
        else tw)
  ]
]
