-- ===== src/Timer/Tests.antt =====
-- A wheel of three slots of ten milliseconds.
use mqant.Prelude.{ℕ, ◌+◌, ◌≡◌, refl, none, some, List, [], ◌∷◌, arith}
use mqant.Timer.{Task, TimeWheel, new, add_task, tick_handler, get_position_and_circle}
use mqant.Timer.Schedule.{IsWheel, due, jobs, later, tick_handler-due}
use mqant.Timer.Adding.{one_if, start_of, add_task-due}

abbrev task : ℕ → ℕ → Task
task delay job = record { delay = delay; circle = 0; key = none; job = job }

abbrev wheel : TimeWheel
wheel = record {
  interval = 10000000;
  accumulator = 0;
  slots = [] ∷ (task 0 5 ∷ []) ∷ [] ∷ [];
  timer = λ k. none;
  current_pos = 1;
  slot_num = 3;
}

new_wheel : new 0 3 ≡ none
unfolding new
new_wheel = refl

-- 45 milliseconds are four ticks: one turn and one slot.
placed_ahead : get_position_and_circle 45000000 wheel ≡ some (2, 1)
unfolding get_position_and_circle
placed_ahead = refl

wheel-IsWheel : IsWheel wheel
wheel-IsWheel = record { sized = refl; pos = omega arith }

tick_handler-due_example :
    (run : List Task) × (next : TimeWheel) × (tick_handler wheel ≡ some (run, next))
    × IsWheel next
    × (jobs 5 run ≡ due 5 (0, 0) wheel)
    × (due 5 (0, 2) next ≡ due 5 (later 3 (0, 2)) wheel)
tick_handler-due_example = tick_handler-due wheel 5 0 2 wheel-IsWheel (omega arith)

add_task-due_example :
    (next : TimeWheel) × (add_task (task 45000000 7) wheel ≡ some next)
    × IsWheel next
    × (due 7 (1, 1) next ≡ due 7 (1, 1) wheel + one_if 7 7 (start_of 45000000 wheel) (1, 1))
add_task-due_example =
    add_task-due (task 45000000 7) wheel 7 1 1 wheel-IsWheel (omega arith) (omega arith)
