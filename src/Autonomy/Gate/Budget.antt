-- ===== src/Autonomy/Gate/Budget.antt =====
-- The step budget, counted over the window of events that the store returns.
use syncore.Common.{ℕ, ◌<◌, ◌≡◌, some, arith, count_if-le, leb, false}
use syncore.Store.{Store}
use syncore.Store.Events.Window.{window, window_bound}
use syncore.Autonomy.Gate.{total_step_events, is_step}

not_leb : (a b : ℕ) → b < a → leb a b ≡ false
not_leb a b h = ground arith

-- A budget of more than 200 steps is never reached: process_task asks the store for 500 events and
-- is given 200 at most, so the steps that it counts stay below such a budget, however many steps the
-- task has taken.
pub total_step_events-lt :
    (s : Store) (task_id : ℕ) (max_total_steps : ℕ)
    → 200 < max_total_steps
    → leb max_total_steps (total_step_events (window (some task_id) 500 s)) ≡ false
unfolding total_step_events
total_step_events-lt s task_id max_total_steps h = not_leb _ _ (
    omega
      (arith, count_if-le is_step (window (some task_id) 500 s), window_bound s (some task_id) 500))
