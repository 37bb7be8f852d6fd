-- ===== src/RunQueue.antt =====
-- services/orchestrator/app/services/run_queue_service.py: the queue worker. RunExecutionService and
-- pydantic's validation of the payload stand behind the interface `RunExecution`; log_event is left
-- out. The payload column always holds a JSON object, since enqueue_run_job writes one, so the
-- branch "Invalid queued payload." is not there.
pub mod Work
pub mod Settle
pub mod Drain
pub mod Scan
pub mod Runs
pub mod Tests
use syncore.Common.{
  ℕ, zero, suc, min, max, ◌≡◌, Text, codes, String, Option, none, some, List, [], ◌∷◌, ◌++◌,
}
use syncore.Models.{Fields}
use syncore.Store.{
  Store, Action, Result, ok, err, Job, JobStatus, retry, completed, failed, ◌>>=◌, ◌>>◌, pure,
  and_then, message,
}
use syncore.Store.Queue.{enqueue_run_job, claim_next_run_job, complete_run_job}

-- What the worker calls. A run writes its own rows and never those of the queue.
pub record RunExecution : Type 1 where
  pub Request : Type 0
  -- RunExecutionRequest.model_dump and model_validate: the error is its text
  pub model_dump : Request → Fields
  pub model_validate : Fields → Result Request
  pub task_id : Request → ℕ
  -- RunExecutionService.execute: the id of the run
  pub execute : Request → Action ℕ
  pub execute-jobs : (request : Request) (s : Store) → (execute request s).1.jobs ≡ s.jobs

pub record QueueScanResult : Type 0 where
  pub job_id : ℕ
  pub task_id : ℕ
  pub status : JobStatus
  pub run_id : Option ℕ
  pub note : Text

abbrev pub status_after : Option Job → JobStatus
status_after none = failed
status_after (some j) = j.status

-- `break` on an empty claim, `results.append` otherwise.
abbrev pub after_step :
    Result (Option QueueScanResult) × Store
    → Action (List QueueScanResult)
    → Result (List QueueScanResult) × Store
after_step (err e, s) rest = (err e, s)
after_step (ok none, s) rest = (ok [], s)
after_step (ok (some r), s) rest = and_then (rest s) (λ rs. pure (r ∷ rs))

module _ (service : RunExecution) where
  open service use {Request, model_dump, model_validate, execute}

  unfoldable pub enqueue : Request → ℕ → Action Job
  enqueue payload max_attempts =
      enqueue_run_job (service.task_id payload) (model_dump payload) max_attempts

  -- The two `except` branches and the normal one, by what execute answered.
  abbrev pub settle_run : Job → Result ℕ × Store → Result QueueScanResult × Store
  settle_run job (ok run_id, s) =
      (do
        complete_run_job job.job_id completed (some run_id) none
        pure (record {
          job_id = job.job_id;
          task_id = job.task_id;
          status = completed;
          run_id = some run_id;
          note = codes "Queued run completed.";
        }))
        s
  settle_run job (err e, s) =
      (do
        after ← complete_run_job job.job_id retry none (some (message e))
        pure (record {
          job_id = job.job_id;
          task_id = job.task_id;
          status = status_after after;
          run_id = none;
          note = codes "Queued run failed: " ++ message e;
        }))
        s

  abbrev pub run_request : Job → Result Request → Action QueueScanResult
  run_request job (err e) = do
    complete_run_job job.job_id failed none
        (some (codes "Payload validation failed: " ++ message e))
    pure (record {
      job_id = job.job_id;
      task_id = job.task_id;
      status = failed;
      run_id = none;
      note = codes "Payload validation failed.";
    })
  run_request job (ok request) = λ s. settle_run job (execute request s)

  unfoldable pub execute_claimed_job : Job → Action QueueScanResult
  execute_claimed_job job = run_request job (model_validate job.payload)

  abbrev pub claimed_rest : Option Job → Action (Option QueueScanResult)
  claimed_rest none = pure none
  claimed_rest (some job) = do r ← execute_claimed_job job; pure (some r)

  -- One round of the loop: none when the claim found nothing.
  unfoldable pub scan_step : Action (Option QueueScanResult)
  scan_step = do claimed ← claim_next_run_job; claimed_rest claimed

  -- The rounds left, the results so far at the front.
  unfoldable pub scan_rounds : ℕ → Action (List QueueScanResult)
  scan_rounds zero s = (ok [], s)
  scan_rounds (suc rounds) s = after_step (scan_step s) (scan_rounds rounds)

  unfoldable pub scan_once : ℕ → Action (List QueueScanResult)
  unfolding scan_rounds
  scan_once limit = scan_rounds (min (max limit 1) 100)
