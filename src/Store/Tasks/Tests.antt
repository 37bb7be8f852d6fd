-- ===== src/Store/Tasks/Tests.antt =====
-- Tasks on a store with one task.
use syncore.Common.{true, ◌≡◌, arith, codes, none, some, [], ◌∷◌}
use syncore.Models.{Task, TaskCreate, analysis, high, blocked, to_status}
use syncore.Store.{Store, ok}
use syncore.Store.Tasks.{create_task, get_task, update_task}
use syncore.Store.Tasks.Lookup.{create_task-get_task, Updates, update_task-Updates}
use syncore.Samples.{task_7, empty_store}

abbrev one_task : Store
one_task = record empty_store { tasks = task_7 ∷ [] }

abbrev request : TaskCreate
request = record {
  title = codes "Find the cause";
  task_type = analysis;
  complexity = high;
  workspace_id = none;
}

create_task-get_task_example :
    (t : Task) × ((create_task request one_task).0 ≡ ok t)
    × (t.id ≡ 1010)
    × (get_task t.id (create_task request one_task).1
        ≡ (ok (some t), (create_task request one_task).1))
create_task-get_task_example = create_task-get_task request one_task (ground arith, tt)

update_task-Updates_example :
    Updates true 7 (to_status blocked) one_task (update_task 7 (to_status blocked) one_task)
update_task-Updates_example = update_task-Updates 7 (to_status blocked) one_task
