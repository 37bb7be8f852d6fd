-- ===== src/Samples.antt =====
-- Stores, tasks and events for the tests.
use syncore.Common.{ℕ, ◌+◌, codes, none, [], ◌∷◌, String}
use syncore.Models.{Task, implementation, new, low, Fields, ProjectEvent}
use syncore.Store.{Store, Job, queued}

abbrev pub event : ℕ → ℕ → String → Fields → ProjectEvent
event id task_id event_type event_data = record {
  id = id;
  task_id = task_id;
  event_type = event_type;
  event_data = event_data;
  created_at = id;
}

abbrev pub task_7 : Task
task_7 = record {
  id = 7;
  title = codes "Add a limit";
  status = new;
  task_type = implementation;
  complexity = low;
  workspace_id = none;
  created_at = 1;
  updated_at = 1;
}

abbrev pub job : ℕ → Job
job id = record {
  job_id = id;
  task_id = 7;
  payload = [];
  status = queued;
  attempt_count = 0;
  max_attempts = 2;
  last_error = none;
  run_id = none;
  available_at = id;
  created_at = id;
  updated_at = id;
}

-- Ids from 1010 on; the clock ticks at each reading.
abbrev pub empty_store : Store
empty_store = record {
  uuids = λ n. n + 1000;
  clock = λ n. n;
  tick = 10;
  tasks = [];
  runs = [];
  batons = [];
  events = [];
  jobs = [];
  notifications = [];
  workspaces = [];
  snapshots = [];
  references = [];
  layers = [];
  findings = [];
}

-- The task 7 is there.
abbrev pub task_store : Store
task_store = record empty_store { tasks = task_7 ∷ [] }
