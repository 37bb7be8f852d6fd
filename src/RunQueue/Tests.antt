-- ===== src/RunQueue/Tests.antt =====
-- The queue worker on a queue of two jobs, with a run that always fails.
use syncore.Common.{codes, ℕ, ◌≡◌, refl, arith, [], ◌∷◌, some, true}
use syncore.Store.{Store, ok, err, runtime_error}
use syncore.Store.Queue.{claim_next_run_job, claim}
use syncore.RunQueue.{RunExecution, scan_once, enqueue}
use syncore.RunQueue.Work.{IsQueue}
use syncore.RunQueue.Drain.{Drained}
use syncore.RunQueue.Scan.{
  scan_once-Drained, Enqueues, enqueue-Enqueues, claim_next_run_job-eq-first,
}
use syncore.Samples.{job, task_store}

-- A request is the id of its task; its run raises.
abbrev failing_runs : RunExecution
failing_runs = record {
  Request = ℕ;
  model_dump = λ k. [];
  model_validate = λ payload. ok 7;
  task_id = λ k. k;
  execute = λ k s. (err (runtime_error (codes "No provider available")), s);
  execute-jobs = λ k s. refl;
}

abbrev two_jobs : Store
two_jobs = record task_store { jobs = job 1 ∷ job 2 ∷ [] }

two_jobs-IsQueue : IsQueue two_jobs.jobs
two_jobs-IsQueue = record {
  valid = (omega arith, (omega arith, tt));
  unique = ((ground arith, tt), (tt, tt));
}

scan_once-Drained_example : Drained failing_runs two_jobs.jobs 5 (scan_once failing_runs 5 two_jobs)
scan_once-Drained_example = scan_once-Drained failing_runs 5 two_jobs two_jobs-IsQueue

enqueue-Enqueues_example : Enqueues true 3 two_jobs (enqueue failing_runs 7 3 two_jobs)
enqueue-Enqueues_example =
    enqueue-Enqueues failing_runs 7 3 two_jobs two_jobs-IsQueue (ground arith, (ground arith, tt))

claim_next_run_job-eq-first_example : claim_next_run_job two_jobs ≡ claim (some (job 1)) two_jobs
claim_next_run_job-eq-first_example =
    claim_next_run_job-eq-first two_jobs ((omega arith, tt), (tt, tt))
