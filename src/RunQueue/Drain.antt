-- ===== src/RunQueue/Drain.antt =====
-- A scan of the queue: it always returns, it settles each job that it claims, and it keeps the
-- table's invariant.
use syncore.Common.{
  ℕ, zero, suc, ◌+◌, ◌≤◌, ◌<◌, ◌≡◌, refl, ap, sym, Text, Option, none, some, List, [], ◌∷◌, arith,
  length, first,
}
use mathlib.Core.Path.{subst}
use syncore.Store.{
  message, Store, Result, ok, err, Job, and_then, pure, JobStatus, running, retry, completed,
  failed,
}
use syncore.Store.Queue.{claim_next_run_job, complete_run_job, complete, job_is}
use syncore.RunQueue.{
  RunExecution, QueueScanResult, scan_step, scan_rounds, execute_claimed_job, settle_run,
  run_request, after_step, claimed_rest,
}
use syncore.RunQueue.Work.{work, IsValidJob, IsQueue}
use syncore.RunQueue.Settle.{Uses, complete_run_job-Uses, Claimed, claim_cases}

-- The call returned, and used up work.
abbrev pub Answers : {A : Type 0} → List Job → Result A × Store → Type 0
Answers {A} before out = (a : A) × (out.0 ≡ ok a) × Uses before out.1.jobs

complete-ok :
    (existing : Option Job) (st : JobStatus) (run_id : Option ℕ) (error : Option Text) (s : Store)
    → (after : Option Job) × ((complete existing st run_id error s).0 ≡ ok after)
complete-ok none st run_id error s = (none, refl)
complete-ok (some j) st run_id error s = (_, refl)

complete_run_job-ok :
    (k : ℕ) (st : JobStatus) (run_id : Option ℕ) (error : Option Text) (s : Store)
    → (after : Option Job) × ((complete_run_job k st run_id error s).0 ≡ ok after)
unfolding complete_run_job
complete_run_job-ok k st run_id error s = complete-ok (first (job_is k) s.jobs) st run_id error s

then_pure :
    {A B : Type 0} {before : List Job} (out : Result A × Store) (f : A → B) {a : A}
    → out.0 ≡ ok a
    → Uses before out.1.jobs
    → Answers before (and_then out (λ x. pure (f x)))
then_pure (ok x, s) f e u = (f x, refl, u)
then_pure (err x, s) f e u = absurd (cc)

module _ (service : RunExecution) where
  settle_run-Answers :
      (j : Job) (out : Result ℕ × Store)
      → IsQueue out.1.jobs
      → first (job_is j.job_id) out.1.jobs ≡ some j
      → j.status ≡ running
      → IsValidJob j
      → Answers out.1.jobs (settle_run service j out)
  settle_run-Answers j (ok run_id, s) q found busy v =
      then_pure _ _ (complete_run_job-ok j.job_id completed (some run_id) none s).1
        (complete_run_job-Uses s j completed (some run_id) none q found busy v)
  settle_run-Answers j (err e, s) q found busy v =
      then_pure _ _ (complete_run_job-ok j.job_id retry none (some (message e)) s).1
        (complete_run_job-Uses s j retry none (some (message e)) q found busy v)

  -- Whatever validation and the run answer, the job is settled.
  execute_claimed_job-Answers :
      (j : Job) (s : Store)
      → IsQueue s.jobs
      → first (job_is j.job_id) s.jobs ≡ some j
      → j.status ≡ running
      → IsValidJob j
      → Answers s.jobs (execute_claimed_job service j s)
  unfolding execute_claimed_job
  execute_claimed_job-Answers j s q found busy v = go (service.model_validate j.payload)
    where
      go : (r : Result service.Request) → Answers s.jobs (run_request service j r s)
      go (err e) =
          then_pure _ _ (complete_run_job-ok j.job_id failed none _ s).1
            (complete_run_job-Uses s j failed none _ q found busy v)
      go (ok request) =
          let kept = service.execute-jobs request s in
          subst (λ js. Answers js (settle_run service j (service.execute request s))) kept
            (settle_run-Answers j (service.execute request s) (subst IsQueue (sym kept) q)
              (subst (λ js. first (job_is j.job_id) js ≡ some j) (sym kept) found) busy v)

  -- What one round made of the jobs: nothing was claimed, or a job was settled.
  data StepResult (before : List Job) (out : Result (Option QueueScanResult) × Store) : Type 0 where
    idle :
        out.0 ≡ ok none → IsQueue out.1.jobs → work out.1.jobs ≡ work before → StepResult before out
    settled :
        (r : QueueScanResult) → out.0 ≡ ok (some r) → Uses before out.1.jobs → StepResult before out

  after_claim :
      (before : List Job) (out : Result (Option Job) × Store) (claimed : Option Job)
      → out.0 ≡ ok claimed
      → Claimed before out.1.jobs claimed
      → StepResult before (and_then out (claimed_rest service))
  after_claim before (err e, s) claimed h c = absurd (cc)
  after_claim before (ok none, s) none h c = idle refl c.queue c.same
  after_claim before (ok none, s) (some j) h c = absurd (ground (arith, h))
  after_claim before (ok (some j), s) none h c = absurd (ground (arith, h))
  after_claim before (ok (some j), s) (some i) h c =
      let e : i ≡ j = ground (arith, h) in
      let e' : some i ≡ some j = ap some e in
      finish (execute_claimed_job service j s)
        (execute_claimed_job-Answers j s c.queue (c.found j e') (c.busy j e') (c.room j e'))
    where
      finish :
          (out : Result QueueScanResult × Store)
          → Answers s.jobs out
          → StepResult before (and_then out (λ r. pure (some r)))
      finish (ok r, s') (r', _, u) =
          settled r refl (record { queue = u.queue; less = omega (arith, u.less, c.same) })
      finish (err e, s') (r', h, u) = absurd (cc)

  scan_step-StepResult : (s : Store) → IsQueue s.jobs → StepResult s.jobs (scan_step service s)
  unfolding scan_step
  scan_step-StepResult s q =
      let (claimed, e, c) = claim_cases s q in after_claim s.jobs (claim_next_run_job s) claimed e c

  -- A loop of `n` rounds returns, and each of its results used up one unit of work at least.
  pub record Drained (before : List Job) (n : ℕ) (out : Result (List QueueScanResult) × Store)
      : Type 0 where
    pub results : List QueueScanResult
    pub returns : out.0 ≡ ok results
    pub queue : IsQueue out.1.jobs
    pub spent : length results + work out.1.jobs ≤ work before
    pub rounds : length results ≤ n

  pub scan_rounds-Drained :
      (n : ℕ) (s : Store) → IsQueue s.jobs → Drained s.jobs n (scan_rounds service n s)
  unfolding scan_rounds
  scan_rounds-Drained zero s q = record {
    results = [];
    returns = refl;
    queue = q;
    spent = omega arith;
    rounds = omega arith;
  }
  scan_rounds-Drained (suc n) s q =
      go (scan_step service s) (scan_step-StepResult s q) (scan_rounds-Drained n)
    where
      add :
          (r : QueueScanResult) (js : List Job) (out : Result (List QueueScanResult) × Store)
          → work js < work s.jobs
          → Drained js n out
          → Drained s.jobs (suc n) (and_then out (λ rs. pure (r ∷ rs)))
      add r js (ok rs, s') less d = record {
        results = r ∷ rs;
        returns = refl;
        queue = d.queue;
        spent = ground (arith, d.spent, d.returns);
        rounds = ground (arith, d.rounds, d.returns);
      }
      add r js (err e, s') less d = absurd (ground (arith, d.returns))

      go :
          (out : Result (Option QueueScanResult) × Store)
          → StepResult s.jobs out
          → ((t : Store) → IsQueue t.jobs → Drained t.jobs n (scan_rounds service n t))
          → Drained s.jobs (suc n) (after_step out (scan_rounds service n))
      go (ok none, t) (idle e q' same) ih = record {
        results = [];
        returns = refl;
        queue = q';
        spent = omega (arith, same);
        rounds = omega arith;
      }
      go (ok none, t) (settled r e u) ih = absurd (ground (arith, e))
      go (ok (some r), t) (idle e q' same) ih = absurd (ground (arith, e))
      go (ok (some r), t) (settled r' e u) ih = add r t.jobs _ u.less (ih t u.queue)
      go (err x, t) (idle e q' same) ih = absurd (cc)
      go (err x, t) (settled r e u) ih = absurd (cc)
