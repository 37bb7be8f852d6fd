-- ===== src/Store/Tasks.antt =====
-- The task rows: create_task, get_task, list_tasks, update_task.
pub mod Lookup
pub mod Tests
use syncore.Common.{
  codes, ℕ, suc, ◌==◌, if◌then◌else◌, Bool, true, false, ◌||◌, Option, none, some, List, [], ◌∷◌,
  ◌++◌, first, keep, take, update_where,
}
use syncore.Models.{Task, TaskCreate, TaskUpdate, new}
use syncore.Store.{Action, ok, err, value_error, bounded}
use syncore.Store.Order.{order_desc}

abbrev pub with_id : ℕ → Task → Bool
with_id k t = t.id == k

abbrev pub in_workspace : Option ℕ → Task → Bool
in_workspace none t = true
in_workspace (some w) t = elim t.workspace_id [ none ↦ false | some v ↦ v == w ]

unfoldable pub create_task : TaskCreate → Action Task
create_task payload s =
    let row : Task = record {
      id = s.uuids s.tick;
      title = payload.title;
      status = new;
      task_type = payload.task_type;
      complexity = payload.complexity;
      workspace_id = payload.workspace_id;
      created_at = s.clock s.tick;
      updated_at = s.clock s.tick;
    } in
    (ok row, record s { tasks = s.tasks ++ row ∷ []; tick = suc s.tick })

unfoldable pub get_task : ℕ → Action (Option Task)
get_task task_id s = (ok (first (with_id task_id) s.tasks), s)

unfoldable pub list_tasks : ℕ → Option ℕ → Action (List Task)
list_tasks limit workspace_id s = (
  ok (
      take (bounded limit 200)
        (order_desc (λ t. t.created_at) (keep (in_workspace workspace_id) s.tasks))),
  s,
)

abbrev pub is_some {ℓ} : {A : Type ℓ} → Option A → Bool
is_some none = false
is_some (some a) = true

abbrev pub or_else {ℓ} : {A : Type ℓ} → Option A → A → A
or_else none d = d
or_else (some a) d = a

-- Whether the UPDATE has an assignment.
abbrev pub has_assignment : TaskUpdate → Bool
has_assignment p =
    is_some p.title
    || is_some p.status
    || is_some p.task_type
    || is_some p.complexity
    || p.workspace_id_set

-- SET …: the given columns and `updated_at`.
abbrev pub assign : TaskUpdate → ℕ → Task → Task
assign p now t = record t {
  title = or_else p.title t.title;
  status = or_else p.status t.status;
  task_type = or_else p.task_type t.task_type;
  complexity = or_else p.complexity t.complexity;
  workspace_id = if p.workspace_id_set then p.workspace_id else t.workspace_id;
  updated_at = now;
}

unfoldable pub update_task : ℕ → TaskUpdate → Action (Option Task)
update_task task_id p s =
    if has_assignment p
    then (let rows = update_where (with_id task_id) (assign p (s.clock s.tick)) s.tasks in
        (ok (first (with_id task_id) rows), record s { tasks = rows; tick = suc s.tick }))
    else (err (value_error (codes "At least one field must be provided for task update")), s)
