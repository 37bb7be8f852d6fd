-- ===== src/RunQueue/Work.antt =====
-- The queue drains: each executed job uses up an attempt or ends.
use syncore.Common.{
  ℕ, ◌+◌, ◌-◌, ◌≤◌, ◌<◌, ◌≡◌, ◌≢◌, refl, ap, ◌∙◌, sym, some, List, [], ◌∷◌, arith, ==_iff,
  if◌then◌else◌, Bool, true, All, first, keep, take, update_where, Bool-cases, inl, inr, ltb,
  All-keep,
}
use mathlib.Core.Path.{subst}
use mathlib.Core.Option.{some-injective}
use syncore.Store.{Store, Job, JobStatus, completed, failed}
use syncore.Store.Queue.{next_job, job_is, is_waiting, is_ready}
use syncore.Store.Order.{order_asc, insert_asc, sort_asc_onto}

-- The attempts that a job may still use.
abbrev pub weight : JobStatus → ℕ → ℕ → ℕ
weight completed attempts most = 0
weight failed attempts most = 0
weight _ attempts most = most - attempts

abbrev pub job_weight : Job → ℕ
job_weight j = weight j.status j.attempt_count j.max_attempts

abbrev pub work : List Job → ℕ
work [] = 0
work (j ∷ js) = job_weight j + work js

-- A job that can still run has an attempt left, and no job has used more than it may.
abbrev pub IsLive : JobStatus → ℕ → ℕ → Type 0
IsLive completed attempts most = attempts ≤ most
IsLive failed attempts most = attempts ≤ most
IsLive _ attempts most = attempts < most

abbrev pub IsValidJob : Job → Type 0
IsValidJob j = IsLive j.status j.attempt_count j.max_attempts

-- job_id is the primary key.
abbrev pub HasUniqueIds : List Job → Type 0
HasUniqueIds [] = Unit
HasUniqueIds (j ∷ js) = All (λ k. k.job_id ≢ j.job_id) js × HasUniqueIds js

module _ (p : Job → Bool) (f : Job → Job) where
  pub work-update_where_of_same :
      ((j : Job) → p j ≡ true → job_weight (f j) ≡ job_weight j)
      → (js : List Job) → work (update_where p f js) ≡ work js
  work-update_where_of_same h [] = refl
  work-update_where_of_same h (j ∷ js) = elim (Bool-cases (p j)) [
    | inl e ↦ rw e (omega (arith, h j e, work-update_where_of_same h js))
    | inr e ↦ rw e (omega (arith, work-update_where_of_same h js))
  ]

  pub All-update_where :
      (P : Job → Type 0)
      → ((j : Job) → p j ≡ true → P j → P (f j))
      → (js : List Job) → All P js
      → All P (update_where p f js)
  All-update_where P h [] a = a
  All-update_where P h (j ∷ js) a = elim (Bool-cases (p j)) [
    | inl e ↦ rw e (h j e a.0, All-update_where P h js a.1)
    | inr e ↦ rw e (a.0, All-update_where P h js a.1)
  ]

  ids-update_where :
      (k : ℕ)
      → ((j : Job) → (f j).job_id ≡ j.job_id)
      → (js : List Job) → All (λ j. j.job_id ≢ k) js
      → All (λ j. j.job_id ≢ k) (update_where p f js)
  ids-update_where k h = All-update_where (λ j. j.job_id ≢ k) (λ j e n q. n (sym (h j) ∙ q))

  pub HasUniqueIds-update_where :
      ((j : Job) → (f j).job_id ≡ j.job_id)
      → (js : List Job) → HasUniqueIds js
      → HasUniqueIds (update_where p f js)
  HasUniqueIds-update_where h [] u = u
  HasUniqueIds-update_where h (j ∷ js) u = elim (Bool-cases (p j)) [
    | inl e ↦ rw (e, h j) (ids-update_where j.job_id h js u.0, HasUniqueIds-update_where h js u.1)
    | inr e ↦ rw e (ids-update_where j.job_id h js u.0, HasUniqueIds-update_where h js u.1)
  ]

-- No row has the id, so none is rewritten.
work-update_absent :
    (k : ℕ) (f : Job → Job) (js : List Job)
    → All (λ j. j.job_id ≢ k) js
    → work (update_where (job_is k) f js) ≡ work js
work-update_absent k f [] a = refl
work-update_absent k f (j ∷ js) a = elim (Bool-cases (job_is k j)) [
  | inl e ↦ absurd (a.0 ((==_iff j.job_id k).0 e))
  | inr e ↦ rw e (omega (arith, work-update_absent k f js a.1))
]

-- Rewriting the row of an id changes the work by what the row weighs.
pub work-update_one :
    (k : ℕ) (f : Job → Job) (js : List Job) (j : Job)
    → HasUniqueIds js
    → first (job_is k) js ≡ some j
    → work (update_where (job_is k) f js) + job_weight j ≡ work js + job_weight (f j)
work-update_one k f [] j u h = absurd (ground arith)
work-update_one k f (i ∷ js) j u h = elim (Bool-cases (job_is k i)) [
  | inl e ↦
      let same : i ≡ j = ground arith in
      let at_k : i.job_id ≡ k = (==_iff i.job_id k).0 e in
      rw e (
        omega (
          arith,
          ap job_weight same,
          ap (λ x. job_weight (f x)) same,
          work-update_absent k f js (rw at_k at u.0),
        ))
  | inr e ↦ rw e (omega (arith, work-update_one k f js j u.1 (ground (arith, e, h))))
]

module _ (p : Job → Bool) (f : Job → Job) (k : ℕ)
    (keeps : (j : Job) → (f j).job_id ≡ j.job_id) where
  pub first-update_where :
      (js : List Job) (j : Job)
      → first (job_is k) js ≡ some j
      → first (job_is k) (update_where p f js) ≡ some (if p j then f j else j)
  first-update_where [] j h = cc
  first-update_where (i ∷ js) j h = ground (arith, first-update_where js j, keeps i)

-- Under unique ids each row is the one that its id finds.
abbrev pub Finds : List Job → Job → Type 0
Finds js j = first (job_is j.job_id) js ≡ some j

Finds-cons :
    (i : Job) (all js : List Job)
    → All (λ j. j.job_id ≢ i.job_id) js
    → All (Finds all) js
    → All (Finds (i ∷ all)) js
Finds-cons i all [] a h = h
Finds-cons i all (j ∷ js) a h = (ground (arith, h.0, a.0), Finds-cons i all js a.1 h.1)

All-Finds : (js : List Job) → HasUniqueIds js → All (Finds js) js
All-Finds [] u = tt
All-Finds (j ∷ js) u = (ground arith, Finds-cons j js js u.0 (All-Finds js u.1))

-- Sorting, filtering and cutting keep what holds of every row.
module _ (P : Job → Type 0) where
  All-insert :
      (x : Job) (js : List Job) → P x → All P js → All P (insert_asc (λ j. j.created_at) x js)
  All-insert x [] h a = (h, tt)
  All-insert x (y ∷ ys) h a = elim (Bool-cases (ltb x.created_at y.created_at)) [
    | inl e ↦ rw e (h, a)
    | inr e ↦ rw e (a.0, All-insert x ys h a.1)
  ]

  All-sort :
      (sorted js : List Job)
      → All P sorted
      → All P js
      → All P (sort_asc_onto (λ j. j.created_at) sorted js)
  All-sort sorted [] a b = a
  All-sort sorted (j ∷ js) a b =
      All-sort (insert_asc (λ k. k.created_at) j sorted) js (All-insert j sorted b.0 a) b.1

  first-All : (js : List Job) (j : Job) → first (λ x. true) (take 1 js) ≡ some j → All P js → P j
  first-All [] j e a = cc
  first-All (x ∷ xs) j e a = subst P (some-injective x j e) a.0

ready_keep : (now : ℕ) (js : List Job) → All (λ j. is_ready now j ≡ true) (keep (is_ready now) js)
ready_keep now [] = tt
ready_keep now (j ∷ js) = elim (Bool-cases (is_ready now j)) [
  | inl e ↦ rw e (e, ready_keep now js)
  | inr e ↦ rw e (ready_keep now js)
]

pub record IsQueue (js : List Job) : Type 0 where
  pub valid : All IsValidJob js
  pub unique : HasUniqueIds js

-- The row that is claimed is waiting, is a row of the table, and is what its id finds.
pub next_job-waiting :
    (s : Store) (row : Job) → next_job s ≡ some row → is_waiting row.status ≡ true
unfolding order_asc
next_job-waiting s row e = ground (
  arith,
  first-All (λ j. is_ready (s.clock s.tick) j ≡ true) _ row e
      (All-sort (λ j. is_ready (s.clock s.tick) j ≡ true) [] _ tt
        (ready_keep (s.clock s.tick) s.jobs)),
)

pub next_job-found :
    (s : Store) (row : Job)
    → HasUniqueIds s.jobs
    → next_job s ≡ some row
    → first (job_is row.job_id) s.jobs ≡ some row
unfolding order_asc
next_job-found s row u e = first-All (Finds s.jobs) _ row e (
    All-sort (Finds s.jobs) [] _ tt
      (All-keep (Finds s.jobs) (is_ready (s.clock s.tick)) s.jobs (All-Finds s.jobs u)))

module _ (P : Job → Type 0) (k : ℕ) (f : Job → Job) where
  All-update_absent :
      (js : List Job) → All (λ j. j.job_id ≢ k) js → All P js → All P (update_where (job_is k) f js)
  All-update_absent [] a h = h
  All-update_absent (j ∷ js) a h = elim (Bool-cases (job_is k j)) [
    | inl e ↦ absurd (a.0 ((==_iff j.job_id k).0 e))
    | inr e ↦ rw e (h.0, All-update_absent js a.1 h.1)
  ]

  -- Only the row of the id is rewritten.
  pub All-update_one :
      (js : List Job) (j : Job)
      → HasUniqueIds js
      → first (job_is k) js ≡ some j
      → P (f j)
      → All P js
      → All P (update_where (job_is k) f js)
  All-update_one [] j u h pf a = tt
  All-update_one (i ∷ js) j u h pf a = elim (Bool-cases (job_is k i)) [
    | inl e ↦
        let same : j ≡ i = ground (arith, e, h) in
        let at_k : i.job_id ≡ k = (==_iff i.job_id k).0 e in
        rw e (subst (λ x. P (f x)) same pf, All-update_absent js (rw at_k at u.0) a.1)
    | inr e ↦ rw e (a.0, All-update_one js j u.1 (ground (arith, e, h)) pf a.1)
  ]
