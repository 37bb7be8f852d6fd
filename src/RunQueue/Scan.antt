-- ===== src/RunQueue/Scan.antt =====
-- scan_once, enqueue and the order of the claims.
use syncore.Common.{
  false, suc, ℕ, ◌+◌, min, max, ◌<◌, ◌≡◌, ◌≢◌, refl, sym, ap, ◌∙◌, List, [], ◌∷◌, ◌++◌, All,
  All-append, arith, first, keep, take, Bool, true, Bool-cases, inl, inr,
}
use syncore.Store.{Store, Job, Result, ok, err, queued, has_task, foreign_key, refer}
use syncore.Store.Queue.{claim_next_run_job, claim, is_ready, enqueue_run_job}
use syncore.Store.Order.{IsChronological}
use syncore.Store.Order.Sorted.{order_asc-chronological, IsChronological-keep}
use syncore.RunQueue.{RunExecution, scan_once, enqueue}
use syncore.RunQueue.Work.{IsQueue, IsValidJob, HasUniqueIds, work}
use syncore.RunQueue.Drain.{Drained, scan_rounds-Drained}

module _ (service : RunExecution) where
  -- A scan always returns, whatever validation and the runs answer. It settles
  -- min(max(limit, 1), 100) jobs at most, each of them uses up an attempt at least of the attempts
  -- that the jobs of the queue have left, and the queue stays well formed: unique ids, and no job has
  -- used more attempts than it may.
  pub scan_once-Drained :
      (limit : ℕ) (s : Store)
      → IsQueue s.jobs
      → Drained service s.jobs (min (max limit 1) 100) (scan_once service limit s)
  unfolding scan_once
  scan_once-Drained limit s q = scan_rounds-Drained service (min (max limit 1) 100) s q

work-append : (js ks : List Job) → work (js ++ ks) ≡ work js + work ks
work-append [] ks = omega arith
work-append (j ∷ js) ks = omega (arith, work-append js ks)

HasUniqueIds-snoc :
    (j : Job) (js : List Job)
    → All (λ k. k.job_id ≢ j.job_id) js
    → HasUniqueIds js
    → HasUniqueIds (js ++ j ∷ [])
HasUniqueIds-snoc j [] a u = (tt, tt)
HasUniqueIds-snoc j (k ∷ js) a u = (
  All-append (λ i. i.job_id ≢ k.job_id) js (j ∷ []) u.0 ((λ e. a.0 (sym e)), tt),
  HasUniqueIds-snoc j js a.1 u.1,
)

-- What enqueueing made of the queue.
pub record Enqueued (before : List Job) (attempts : ℕ) (out : Result Job × Store) : Type 0 where
  pub returned : (job : Job) × ((out.0 ≡ ok job) × (job.status ≡ queued))
  pub queue : IsQueue out.1.jobs
  pub work_added : work out.1.jobs ≡ work before + max 1 attempts

-- What enqueueing does, by whether the task of the request is there.
abbrev pub Enqueues : Bool → ℕ → Store → Result Job × Store → Type 0
Enqueues true attempts s out = Enqueued s.jobs attempts out
Enqueues false attempts s out = out ≡ (err foreign_key, record s { tick = suc s.tick })

-- A row that stands behind the others.
inserted-Enqueues :
    (b : Bool) (row : Job) (attempts : ℕ) (s : Store)
    → IsQueue s.jobs
    → All (λ j. j.job_id ≢ row.job_id) s.jobs
    → IsValidJob row
    → row.status ≡ queued
    → work (row ∷ []) ≡ max 1 attempts
    → Enqueues b attempts s
        (refer b (ok row, record s { jobs = s.jobs ++ row ∷ []; tick = suc s.tick }) s)
inserted-Enqueues true row attempts s q fresh valid waits added = record {
  returned = (row, (refl, waits));
  queue = record {
    valid = All-append IsValidJob s.jobs (row ∷ []) q.valid (valid, tt);
    unique = HasUniqueIds-snoc row s.jobs fresh q.unique;
  };
  work_added = work-append s.jobs (row ∷ []) ∙ ap (λ n. work s.jobs + n) added;
}
inserted-Enqueues false row attempts s q fresh valid waits added = refl

module _ (service : RunExecution) where
  -- For a task that is there, enqueueing returns a queued job, keeps the queue well formed, if the new
  -- id is fresh, and adds as many attempts as the caller asks for, one at least. For a task that is not
  -- there it raises, and the queue is as before.
  pub enqueue-Enqueues :
      (payload : service.Request) (max_attempts : ℕ) (s : Store)
      → IsQueue s.jobs
      → All (λ j. j.job_id ≢ s.uuids s.tick) s.jobs
      → Enqueues
          (has_task (service.task_id payload) s)
          max_attempts
          s
          (enqueue service payload max_attempts s)
  unfolding enqueue enqueue_run_job
  enqueue-Enqueues payload max_attempts s q fresh =
      let room : 0 < max 1 max_attempts = omega arith in
      inserted-Enqueues (has_task (service.task_id payload) s) _ max_attempts s q fresh room refl
        (omega arith)

first_of_keep :
    (p : Job → Bool) (js : List Job) → first (λ j. true) (take 1 (keep p js)) ≡ first p js
first_of_keep p [] = refl
first_of_keep p (j ∷ js) = elim (Bool-cases (p j)) [
  | inl e ↦ rw e refl
  | inr e ↦ rw e (first_of_keep p js)
]

-- First in, first out: on a queue whose rows stand in the strict order of their times of creation,
-- claim_next_run_job claims the earliest row that waits and is due, and none if there is none.
pub claim_next_run_job-eq-first :
    (s : Store)
    → IsChronological (λ (j : Job). j.created_at) s.jobs
    → claim_next_run_job s ≡ claim (first (is_ready (s.clock s.tick)) s.jobs) s
unfolding claim_next_run_job
claim_next_run_job-eq-first s c =
    ap (λ row. claim row s)
      (ap (λ js. first (λ j. true) (take 1 js))
          (order_asc-chronological (λ j. j.created_at) _
            (IsChronological-keep (λ j. j.created_at) (is_ready (s.clock s.tick)) s.jobs c))
        ∙ first_of_keep (is_ready (s.clock s.tick)) s.jobs)
