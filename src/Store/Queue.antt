-- ===== src/Store/Queue.antt =====
-- The rows of run_queue: enqueue_run_job, claim_next_run_job, complete_run_job.
use syncore.Common.{
  ℕ, suc, ◌+◌, max, ◌==◌, leb, if◌then◌else◌, Text, Bool, true, false, ◌&&◌, Option, none, some, [],
  ◌∷◌, ◌++◌, keep, take, first, update_where, is_empty,
}
use syncore.Models.{Fields}
use syncore.Store.{
  has_task, refer, Store, Action, ok, Job, JobStatus, queued, running, retry, completed, failed,
}
use syncore.Store.Order.{order_asc}

abbrev pub job_is : ℕ → Job → Bool
job_is job_id j = j.job_id == job_id

unfoldable pub enqueue_run_job : ℕ → Fields → ℕ → Action Job
enqueue_run_job task_id payload max_attempts s =
    let row : Job = record {
      job_id = s.uuids s.tick;
      task_id = task_id;
      payload = payload;
      status = queued;
      attempt_count = 0;
      max_attempts = max 1 max_attempts;
      last_error = none;
      run_id = none;
      available_at = s.clock s.tick;
      created_at = s.clock s.tick;
      updated_at = s.clock s.tick;
    } in
    refer (has_task task_id s) (ok row, record s { jobs = s.jobs ++ row ∷ []; tick = suc s.tick }) s

-- status IN ('queued', 'retry')
abbrev pub is_waiting : JobStatus → Bool
is_waiting queued = true
is_waiting retry = true
is_waiting _ = false

abbrev pub is_ready : ℕ → Job → Bool
is_ready now j = is_waiting j.status && leb j.available_at now

abbrev pub start : ℕ → Job → Job
start now j = record j { status = running; updated_at = now }

-- The row that the SELECT of claim_next_run_job finds.
abbrev pub next_job : Store → Option Job
next_job s =
    first (λ j. true)
      (take 1 (order_asc (λ j. j.created_at) (keep (is_ready (s.clock s.tick)) s.jobs)))

-- The UPDATE of the row, and the SELECT after it; `_now` is read twice.
abbrev pub claim : Option Job → Action (Option Job)
claim none s = (ok none, record s { tick = suc s.tick })
claim (some row) s =
    let rows =
      update_where (λ j. job_is row.job_id j && is_waiting j.status) (start (s.clock (suc s.tick)))
        s.jobs in
    (ok (first (job_is row.job_id) rows), record s { jobs = rows; tick = suc (suc s.tick) })

unfoldable pub claim_next_run_job : Action (Option Job)
claim_next_run_job s = claim (next_job s) s

-- status if status in {"completed", "failed", "retry"} else "failed"
abbrev pub next_status : JobStatus → JobStatus
next_status completed = completed
next_status retry = retry
next_status _ = failed

-- A retry counts as one more attempt, and the last attempt fails the job.
abbrev pub settle_attempts : JobStatus → ℕ → ℕ → JobStatus × ℕ
settle_attempts retry attempt_count max_attempts =
    (if leb max_attempts (attempt_count + 1) then failed else retry, attempt_count + 1)
settle_attempts st attempt_count max_attempts = (st, attempt_count)

-- (error or "")[:500] if error else None
abbrev pub error_column : Option Text → Option Text
error_column none = none
error_column (some e) = if is_empty e then none else some (take 500 e)

abbrev pub settle : JobStatus × ℕ → Option ℕ → Option Text → ℕ → ℕ → Job → Job
settle outcome run_id error available now j = record j {
  status = outcome.0;
  attempt_count = outcome.1;
  last_error = error_column error;
  run_id = run_id;
  available_at = available;
  updated_at = now;
}

abbrev pub complete : Option Job → JobStatus → Option ℕ → Option Text → Action (Option Job)
complete none status run_id error s = (ok none, s)
complete (some existing) status run_id error s =
    let outcome =
      settle_attempts (next_status status) existing.attempt_count existing.max_attempts in
    let rows =
      update_where (job_is existing.job_id)
        (settle outcome run_id error (s.clock s.tick) (s.clock (suc s.tick))) s.jobs in
    (ok (first (job_is existing.job_id) rows), record s { jobs = rows; tick = suc (suc s.tick) })

unfoldable pub complete_run_job : ℕ → JobStatus → Option ℕ → Option Text → Action (Option Job)
complete_run_job job_id status run_id error s =
    complete (first (job_is job_id) s.jobs) status run_id error s
