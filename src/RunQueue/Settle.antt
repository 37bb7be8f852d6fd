-- ===== src/RunQueue/Settle.antt =====
-- One job, claimed and settled: complete_run_job uses up work, and claim_next_run_job keeps it.
use syncore.Common.{
  ℕ, suc, ◌-◌, ◌<◌, ◌≡◌, refl, ap, ◌∙◌, Text, Option, none, some, List, [], ◌∷◌, arith, ==_refl,
  Bool, true, ◌&&◌, All, first, update_where, Bool-cases, inl, inr, Option-cases,
}
use mathlib.Core.Path.{subst}
use mathlib.Core.Option.{some-injective}
use syncore.Store.{Store, ok, Job, JobStatus, queued, running, retry, completed, failed}
use syncore.Store.Queue.{
  claim_next_run_job, complete_run_job, claim, complete, next_job, job_is, is_waiting, start,
  settle, settle_attempts, next_status,
}
use syncore.RunQueue.Work.{
  weight, job_weight, work, IsLive, IsValidJob, IsQueue, work-update_where_of_same,
  All-update_where, HasUniqueIds-update_where, first-update_where, work-update_one, All-update_one,
  next_job-waiting, next_job-found,
}

-- What a call made of the jobs: the invariant is kept and work was used up.
pub record Uses (before after : List Job) : Type 0 where
  pub queue : IsQueue after
  pub less : work after < work before

-- The settlement of a running job that has an attempt left.
settle_less :
    (st : JobStatus) (attempts most : ℕ)
    → attempts < most
    → weight
        (settle_attempts (next_status st) attempts most).0
        (settle_attempts (next_status st) attempts most).1
        most
      < most - attempts
settle_less queued attempts most h = omega arith
settle_less running attempts most h = omega arith
settle_less retry attempts most h = ground arith
settle_less completed attempts most h = omega arith
settle_less failed attempts most h = omega arith

settle-IsLive :
    (st : JobStatus) (attempts most : ℕ)
    → attempts < most
    → IsLive
        (settle_attempts (next_status st) attempts most).0
        (settle_attempts (next_status st) attempts most).1
        most
settle-IsLive queued attempts most h = omega arith
settle-IsLive running attempts most h = omega arith
settle-IsLive retry attempts most h = ground arith
settle-IsLive completed attempts most h = omega arith
settle-IsLive failed attempts most h = omega arith

running_room : (j : Job) → j.status ≡ running → IsValidJob j → j.attempt_count < j.max_attempts
running_room j e v = rw e at v

running_weight : (j : Job) → j.status ≡ running → job_weight j ≡ j.max_attempts - j.attempt_count
running_weight j e = rw e

module _ (s : Store) (j : Job) (st : JobStatus) (run_id : Option ℕ) (error : Option Text) where
  -- Completing a running job, whatever the status asked for.
  pub complete_run_job-Uses :
      IsQueue s.jobs
      → first (job_is j.job_id) s.jobs ≡ some j
      → j.status ≡ running
      → IsValidJob j
      → Uses s.jobs (complete_run_job j.job_id st run_id error s).1.jobs
  unfolding complete_run_job
  complete_run_job-Uses q found busy v =
      let room = running_room j busy v in
      let outcome = settle_attempts (next_status st) j.attempt_count j.max_attempts in
      let f : Job → Job = settle outcome run_id error (s.clock s.tick) (s.clock (suc s.tick)) in
      rw (found, complete)
        (record {
          queue = record {
            valid =
                All-update_one IsValidJob j.job_id f s.jobs j q.unique found
                  (settle-IsLive st j.attempt_count j.max_attempts room) q.valid;
            unique = HasUniqueIds-update_where (job_is j.job_id) f (λ i. refl) s.jobs q.unique;
          };
          less = omega (
            arith,
            work-update_one j.job_id f s.jobs j q.unique found,
            running_weight j busy,
            settle_less st j.attempt_count j.max_attempts room,
          );
        })

-- What a claim leaves: no job, or a running one with an attempt left that its id finds.
pub record Claimed (before after : List Job) (claimed : Option Job) : Type 0 where
  pub queue : IsQueue after
  pub same : work after ≡ work before
  pub busy : (j : Job) → claimed ≡ some j → j.status ≡ running
  pub room : (j : Job) → claimed ≡ some j → IsValidJob j
  pub found : (j : Job) → claimed ≡ some j → first (job_is j.job_id) after ≡ some j

abbrev picks : ℕ → Job → Bool
picks k j = job_is k j && is_waiting j.status

start_weight : (now k : ℕ) (j : Job) → picks k j ≡ true → job_weight (start now j) ≡ job_weight j
start_weight now k j e = ground arith

start-IsValidJob :
    (now k : ℕ) (j : Job) → picks k j ≡ true → IsValidJob j → IsValidJob (start now j)
start-IsValidJob now k j e v = ground arith

first-IsValidJob :
    (k : ℕ) (js : List Job) (j : Job)
    → All IsValidJob js
    → first (job_is k) js ≡ some j
    → IsValidJob j
first-IsValidJob k [] j a e = absurd (ground arith)
first-IsValidJob k (i ∷ js) j a e = elim (Bool-cases (job_is k i)) [
  | inl h ↦ subst IsValidJob (let same : i ≡ j = ground (arith, e, h) in same) a.0
  | inr h ↦ first-IsValidJob k js j a.1 (ground (arith, e, h))
]

pub claim_cases :
    (s : Store)
    → IsQueue s.jobs
    → (claimed : Option Job) × ((claim_next_run_job s).0 ≡ ok claimed)
      × Claimed s.jobs (claim_next_run_job s).1.jobs claimed
unfolding claim_next_run_job
claim_cases s q = elim (Option-cases (next_job s)) [
  | inl e ↦ (
    none,
    rw (e, claim),
    rw (e, claim)
        (record {
          queue = q;
          same = refl;
          busy = λ j h. absurd (ground (arith, h));
          room = λ j h. absurd (ground (arith, h));
          found = λ j h. absurd (ground (arith, h));
        }),
  )
  | inr (row, e) ↦
      let now : ℕ = s.clock (suc s.tick) in
      let p : Job → Bool = picks row.job_id in
      let rows : List Job = update_where p (start now) s.jobs in
      let waits = next_job-waiting s row e in
      let at_row = next_job-found s row q.unique e in
      let picked : p row ≡ true = ground (arith, ==_refl row.job_id, waits) in
      let hit : first (job_is row.job_id) rows ≡ some (start now row) =
        first-update_where p (start now) row.job_id (λ j. refl) s.jobs row at_row
        ∙ rw picked refl in
      (
        some (start now row),
        rw (e, claim) (ap ok hit),
        rw (e, claim)
            (record {
              queue = record {
                valid =
                    All-update_where p (start now) IsValidJob (start-IsValidJob now row.job_id)
                      s.jobs q.valid;
                unique = HasUniqueIds-update_where p (start now) (λ j. refl) s.jobs q.unique;
              };
              same = work-update_where_of_same p (start now) (start_weight now row.job_id) s.jobs;
              busy =
                  λ j h. subst (λ x. x.status ≡ running) (some-injective (start now row) j h) refl;
              room = λ j h. subst IsValidJob (some-injective (start now row) j h) (
                  start-IsValidJob now row.job_id row picked
                    (first-IsValidJob row.job_id s.jobs row q.valid at_row));
              found = λ j h.
                  subst (λ x. first (job_is x.job_id) rows ≡ some x)
                    (some-injective (start now row) j h) hit;
            }),
      )
]
