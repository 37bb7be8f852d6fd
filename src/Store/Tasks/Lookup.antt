-- ===== src/Store/Tasks/Lookup.antt =====
-- What get_task finds after a row was written.
use syncore.Common.{
  Bool, true, false, none, if◌then◌else◌, ℕ, ◌≡◌, ◌≢◌, refl, ap, arith, ==_iff, ==_refl, Option,
  some, List, [], ◌∷◌, ◌++◌, All, first, update_where, Bool-cases, inl, inr,
}
use syncore.Models.{Task, TaskCreate, TaskUpdate}
use syncore.Store.{Store, Result, Error, ok, err}
use syncore.Store.Tasks.{
  create_task, get_task, update_task, with_id, has_assignment, assign, or_else,
}

-- No row has the id, so the appended one is found.
first-snoc :
    (t : Task) (ts : List Task)
    → All (λ u. u.id ≢ t.id) ts
    → first (with_id t.id) (ts ++ t ∷ []) ≡ some t
first-snoc t [] a = rw (==_refl t.id) refl
first-snoc t (u ∷ us) a = elim (Bool-cases (with_id t.id u)) [
  | inl e ↦ absurd (a.0 ((==_iff u.id t.id).0 e))
  | inr e ↦ rw e (first-snoc t us a.1)
]

-- create_task returns a task under the new id, and get_task then finds that task under that id, if no
-- task had the id before.
pub create_task-get_task :
    (payload : TaskCreate) (s : Store)
    → All (λ u. u.id ≢ s.uuids s.tick) s.tasks
    → (t : Task) × ((create_task payload s).0 ≡ ok t)
      × (t.id ≡ s.uuids s.tick)
      × (get_task t.id (create_task payload s).1 ≡ (ok (some t), (create_task payload s).1))
unfolding create_task get_task
create_task-get_task payload s fresh = (
  _,
  refl,
  refl,
  ap (λ found. (ok found, (create_task payload s).1)) (first-snoc _ s.tasks fresh),
)

-- An update of another row.
first-update_other :
    (k j : ℕ) (u : TaskUpdate) (now : ℕ) (ts : List Task)
    → j ≢ k
    → first (with_id j) (update_where (with_id k) (assign u now) ts) ≡ first (with_id j) ts
first-update_other k j u now [] n = refl
first-update_other k j u now (t ∷ ts) n =
    ground (arith, ==_iff t.id k, ==_iff t.id j, n, first-update_other k j u now ts n)

-- The columns of a row after an update at `now`: the given ones have the given values, and the others
-- are as they were.
pub record Assigned (u : TaskUpdate) (now : ℕ) (old row : Task) : Type 0 where
  pub id : row.id ≡ old.id
  pub title : row.title ≡ or_else u.title old.title
  pub status : row.status ≡ or_else u.status old.status
  pub task_type : row.task_type ≡ or_else u.task_type old.task_type
  pub complexity : row.complexity ≡ or_else u.complexity old.complexity
  pub workspace_id :
      row.workspace_id ≡ (if u.workspace_id_set then u.workspace_id else old.workspace_id)
  pub created_at : row.created_at ≡ old.created_at
  pub updated_at : row.updated_at ≡ now

-- What the update of a row that is there, or of none, answers.
abbrev pub Answer : TaskUpdate → ℕ → Option Task → Option Task → Type 0
Answer u now none found = found ≡ none
Answer u now (some old) found = (row : Task) × ((found ≡ some row) × Assigned u now old row)

-- What get_task finds after an update that assigns something, and after one that assigns nothing.
pub record Updated (k : ℕ) (u : TaskUpdate) (before : Store) (out : Result (Option Task) × Store)
    : Type 0 where
  pub found : Option Task
  pub returned : out.0 ≡ ok found
  pub assigned : Answer u (before.clock before.tick) (first (with_id k) before.tasks) found
  pub same : get_task k out.1 ≡ (ok found, out.1)
  pub others : (j : ℕ) → j ≢ k → (get_task j out.1).0 ≡ (get_task j before).0

first-update_same :
    (k : ℕ) (u : TaskUpdate) (now : ℕ) (ts : List Task)
    → Answer u now
        (first (with_id k) ts)
        (first (with_id k) (update_where (with_id k) (assign u now) ts))
first-update_same k u now [] = refl
first-update_same k u now (t ∷ ts) = elim (Bool-cases (with_id k t)) [
  | inl e ↦
      rw (e, e)
        (
          _,
          (
            refl,
            record {
              id = refl;
              title = refl;
              status = refl;
              task_type = refl;
              complexity = refl;
              workspace_id = refl;
              created_at = refl;
              updated_at = refl;
            },
          ),
        )
  | inr e ↦ rw (e, e) (first-update_same k u now ts)
]

-- By whether the request names a column.
abbrev pub Updates : Bool → ℕ → TaskUpdate → Store → Result (Option Task) × Store → Type 0
Updates true k u s out = Updated k u s out
Updates false k u s out = (e : Error) × (out ≡ (err e, s))

-- update_task on a request that names a column returns the row of the task, with the given values in
-- the named columns, the time of the clock, and the other columns as they were, or None where there is
-- no such task; get_task then finds that row under the id, and what it found before under every other
-- id. On a request that names no column update_task raises and changes nothing.
pub update_task-Updates :
    (k : ℕ) (u : TaskUpdate) (s : Store) → Updates (has_assignment u) k u s (update_task k u s)
unfolding update_task get_task
update_task-Updates k u s = elim (Bool-cases (has_assignment u)) [
  | inl e ↦ rw e (record {
    found = first (with_id k) (update_where (with_id k) (assign u (s.clock s.tick)) s.tasks);
    returned = refl;
    assigned = first-update_same k u (s.clock s.tick) s.tasks;
    same = refl;
    others = λ j n. ap ok (first-update_other k j u (s.clock s.tick) s.tasks n);
  })
  | inr e ↦ rw e (_, refl)
]
