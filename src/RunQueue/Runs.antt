-- ===== src/RunQueue/Runs.antt =====
-- A scan of the queue over the real runs: what RunExecutionService promises of its runs holds of every
-- job that the worker settles.
use syncore.Common.{ℕ, zero, suc, min, max, Text, Option, none, some, List, ◌∷◌, first}
use syncore.Models.{AgentRun}
use syncore.Store.{
  Store, Action, Result, ok, err, Job, JobStatus, retry, completed, failed, message,
}
use syncore.Store.Keeps.{Keeps, Keeps-pure, Keeps-bind, Keeps-then}
use syncore.Store.Queue.{claim_next_run_job, complete_run_job, claim, complete, next_job, job_is}
use syncore.RunQueue.{
  RunExecution, QueueScanResult, scan_once, scan_rounds, scan_step, execute_claimed_job, settle_run,
  run_request, after_step, claimed_rest,
}

-- The statements on the queue's rows keep what holds of the runs.
module _ (K : List AgentRun → Type 0) where
  abbrev pub OfRuns : Store → Type 0
  OfRuns s = K s.runs

  claim-OfRuns : (row : Option Job) → Keeps OfRuns (claim row)
  claim-OfRuns none = record { at = λ s h. h }
  claim-OfRuns (some row) = record { at = λ s h. h }

  complete-OfRuns :
      (existing : Option Job) (st : JobStatus) (run_id : Option ℕ) (error : Option Text)
      → Keeps OfRuns (complete existing st run_id error)
  complete-OfRuns none st run_id error = record { at = λ s h. h }
  complete-OfRuns (some j) st run_id error = record { at = λ s h. h }

  complete_run_job-OfRuns :
      (k : ℕ) (st : JobStatus) (run_id : Option ℕ) (error : Option Text)
      → Keeps OfRuns (complete_run_job k st run_id error)
  unfolding complete_run_job
  complete_run_job-OfRuns k st run_id error = record {
    at = λ s h. (complete-OfRuns (first (job_is k) s.jobs) st run_id error).at s h;
  }

  claim_next_run_job-OfRuns : Keeps OfRuns claim_next_run_job
  unfolding claim_next_run_job
  claim_next_run_job-OfRuns = record { at = λ s h. (claim-OfRuns (next_job s)).at s h }

  module _ (service : RunExecution)
      (runs : (request : service.Request) → Keeps OfRuns (service.execute request)) where
    settle_run-OfRuns :
        (job : Job) (out : Result ℕ × Store) → OfRuns out.1 → OfRuns (settle_run service job out).1
    settle_run-OfRuns job (ok run_id, s) h =
        (Keeps-then (complete_run_job job.job_id completed (some run_id) none) _
            (complete_run_job-OfRuns _ _ _ _) (Keeps-pure _)).at
          s h
    settle_run-OfRuns job (err e, s) h =
        (Keeps-bind (complete_run_job job.job_id retry none (some (message e))) _
            (complete_run_job-OfRuns _ _ _ _) (λ after. Keeps-pure _)).at
          s h

    run_request-OfRuns :
        (job : Job) (request : Result service.Request)
        → Keeps OfRuns (run_request service job request)
    run_request-OfRuns job (ok request) = record {
      at = λ s h. settle_run-OfRuns job (service.execute request s) ((runs request).at s h);
    }
    run_request-OfRuns job (err e) =
        Keeps-then (complete_run_job job.job_id failed none _) _ (complete_run_job-OfRuns _ _ _ _)
          (Keeps-pure _)

    claimed_rest-OfRuns : (job : Option Job) → Keeps OfRuns (claimed_rest service job)
    unfolding execute_claimed_job
    claimed_rest-OfRuns none = Keeps-pure none
    claimed_rest-OfRuns (some job) =
        Keeps-bind (execute_claimed_job service job) _
          (run_request-OfRuns job (service.model_validate job.payload)) (λ r. Keeps-pure (some r))

    scan_step-OfRuns : Keeps OfRuns (scan_step service)
    unfolding scan_step
    scan_step-OfRuns =
        Keeps-bind claim_next_run_job (claimed_rest service) claim_next_run_job-OfRuns
          claimed_rest-OfRuns

    after_step-OfRuns :
        (out : Result (Option QueueScanResult) × Store) (rest : Action (List QueueScanResult))
        → OfRuns out.1
        → Keeps OfRuns rest
        → OfRuns (after_step out rest).1
    after_step-OfRuns (err e, s) rest h k = h
    after_step-OfRuns (ok none, s) rest h k = h
    after_step-OfRuns (ok (some r), s) rest h k =
        (Keeps-bind rest _ k (λ rs. Keeps-pure (r ∷ rs))).at s h

    scan_rounds-OfRuns : (rounds : ℕ) → Keeps OfRuns (scan_rounds service rounds)
    unfolding scan_rounds
    scan_rounds-OfRuns zero = record { at = λ s h. h }
    scan_rounds-OfRuns (suc rounds) = record {
      at = λ s h.
          after_step-OfRuns (scan_step service s) (scan_rounds service rounds)
            (scan_step-OfRuns.at s h) (scan_rounds-OfRuns rounds);
    }

    pub scan_once-OfRuns : (limit : ℕ) → Keeps OfRuns (scan_once service limit)
    unfolding scan_once
    scan_once-OfRuns limit = scan_rounds-OfRuns (min (max limit 1) 100)
