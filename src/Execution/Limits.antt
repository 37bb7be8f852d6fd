-- ===== src/Execution/Limits.antt =====
-- The limit on the concurrent runs of a task.
use syncore.Common.{
  ℕ, ◌≤◌, ◌≡◌, refl, ap, ◌∙◌, arith, leb, ◌==◌, Bool, true, is_empty, List, length, take, keep,
  count_if, take-eq_of_le,
}
use syncore.Models.{AgentRun}
use syncore.Store.{Store, err, Error}
use syncore.Store.Order.{order_asc}
use syncore.Store.Order.Counts.{length-order_asc, count-order_asc, count-keep}
use syncore.Store.Runs.{list_agent_runs}
use syncore.Execution.{RunRequest, RunConfig}
use syncore.Execution.Guards.{
  key_of, maybe_get_idempotent_response, enforce_concurrency_limits, task_limit, run_is_active,
}
use syncore.Execution.Execute.{execute}
use syncore.Execution.Settled.{active_of}

abbrev of_task : ℕ → AgentRun → Bool
of_task k run = run.task_id == k

-- The runs of the task that the limit is held against.
counted : ℕ → Store → List AgentRun
counted k s = take 200 (order_asc (λ r. r.created_at) (keep (of_task k) s.runs))

counted-active :
    (k : ℕ) (s : Store)
    → length (keep (of_task k) s.runs) ≤ 200
    → count_if run_is_active (counted k s) ≡ count_if (active_of k) s.runs
unfolding counted
counted-active k s few =
    let created = λ (r : AgentRun). r.created_at in
    let rows = keep (of_task k) s.runs in
    ap (count_if run_is_active) (
      take-eq_of_le 200 (order_asc created rows)
        (omega (arith, few, length-order_asc created rows)))
    ∙ (count-order_asc created run_is_active rows
        ∙ count-keep created run_is_active (of_task k) s.runs)

-- When a task has at most 200 runs, and as many of them are queued or running as its limit allows, a
-- request without an idempotency key is refused with an error, and nothing is written.
pub execute-limited :
    (config : RunConfig) (payload : RunRequest) (s : Store)
    → is_empty (key_of payload) ≡ true
    → length (keep (of_task payload.task_id) s.runs) ≤ 200
    → task_limit config ≤ count_if (active_of payload.task_id) s.runs
    → (e : Error) × (execute config payload s ≡ (err e, s))
unfolding execute maybe_get_idempotent_response enforce_concurrency_limits list_agent_runs counted
execute-limited config payload s unnamed few busy =
    let full : leb (task_limit config) (count_if run_is_active (counted payload.task_id s)) ≡ true =
      ground (arith, counted-active payload.task_id s few, busy) in
    rw (unnamed, full) (_, refl)
