-- ===== src/Store.antt =====
-- services/memory/sqlite_store.py: the tables as lists of rows in the order of insertion, and what
-- its SQL statements mean on them. `uuids` and `clock` are the answers of uuid4() and
-- datetime.now(): the answer at `tick` is the next one, and each reading moves `tick`. A row that was
-- just inserted is found again by its fresh primary key, so the branch that raises "Failed to …" is
-- not there.
pub mod Order
pub mod Keeps
pub mod Returns
pub mod Tasks
pub mod Events
pub mod Runs
pub mod Queue
pub mod Workspaces
pub mod References
use syncore.Common.{
  codes, Bool, true, false, any, ◌==◌, ℕ, zero, suc, Text, Option, none, some, List, [], ◌∷◌,
  String, min, max,
}
use syncore.Models.{
  Task, AgentRun, BatonPacket, ProjectEvent, Notification, Workspace, ResearchFinding, Fields,
}

pub data JobStatus : Type 0 where
  queued running retry completed failed : JobStatus

-- A row of run_queue.
pub record Job : Type 0 where
  pub job_id : ℕ
  pub task_id : ℕ
  pub payload : Fields
  pub status : JobStatus
  pub attempt_count : ℕ
  pub max_attempts : ℕ
  pub last_error : Option Text
  pub run_id : Option ℕ
  pub available_at : ℕ
  pub created_at : ℕ
  pub updated_at : ℕ

-- A row of autonomy_snapshots.
pub record Snapshot : Type 0 where
  pub snapshot_id : ℕ
  pub task_id : ℕ
  pub cycle : ℕ
  pub stage : Text
  pub state : String
  pub strategy : Text
  pub quality_score : ℕ
  pub details : Fields
  pub created_at : ℕ

-- A row of context_references.
pub record Reference : Type 0 where
  pub ref_id : Text
  pub task_id : ℕ
  pub content_type : Text
  pub original_content : Text
  pub summary : Text
  pub retrieval_hint : Text
  pub created_at : ℕ

-- A row of context_reference_layers.
pub record Layer : Type 0 where
  pub layer_id : ℕ
  pub ref_id : Text
  pub layer : Text
  pub content : Text
  pub created_at : ℕ

pub record Store : Type 0 where
  pub uuids : ℕ → ℕ
  pub clock : ℕ → ℕ
  pub tick : ℕ
  pub tasks : List Task
  pub runs : List AgentRun
  pub batons : List BatonPacket
  pub events : List ProjectEvent
  pub jobs : List Job
  pub notifications : List Notification
  pub workspaces : List Workspace
  pub snapshots : List Snapshot
  pub references : List Reference
  pub layers : List Layer
  pub findings : List ResearchFinding

-- What the services raise.
pub data Error : Type 0 where
  value_error : Text → Error
  lookup_error : Text → Error
  runtime_error : Text → Error
  os_error : Text → Error
  -- sqlite3.IntegrityError
  integrity_error : Text → Error

pub data Result (A : Type 0) : Type 0 where
  ok : A → Result A
  err : Error → Result A

-- A call reads and writes the store, and returns or raises; each statement is committed by itself,
-- so what was written before an exception stays.
abbrev pub Action : Type 0 → Type 0
Action A = Store → Result A × Store

abbrev pub and_then : {A B : Type 0} → Result A × Store → (A → Action B) → Result B × Store
and_then (ok a, s) f = f a s
and_then (err e, s) f = (err e, s)

infixl 5 ◌>>=◌ ◌>>◌
abbrev pub ◌>>=◌ : {A B : Type 0} → Action A → (A → Action B) → Action B
◌>>=◌ m f s = and_then (m s) f

abbrev pub ◌>>◌ : {A B : Type 0} → Action A → Action B → Action B
◌>>◌ m k s = and_then (m s) (λ _. k)

abbrev pub pure : {A : Type 0} → A → Action A
pure a s = (ok a, s)

abbrev pub raise : {A : Type 0} → Error → Action A
raise e s = (err e, s)

-- A row of this task is there: what REFERENCES tasks(id) asks for.
abbrev pub has_task : ℕ → Store → Bool
has_task task_id s = any (λ t. t.id == task_id) s.tasks

abbrev pub has_optional_task : Option ℕ → Store → Bool
has_optional_task none s = true
has_optional_task (some task_id) s = has_task task_id s

abbrev pub foreign_key : Error
foreign_key = integrity_error (codes "FOREIGN KEY constraint failed")

-- An INSERT, by whether the rows that it references are there (PRAGMA foreign_keys = ON). When it is
-- refused, the id and the time of the row have been read all the same.
abbrev pub refer : {A : Type 0} → Bool → Result A × Store → Store → Result A × Store
refer true out s = out
refer false out s = (err foreign_key, record s { tick = suc s.tick })

-- min(max(limit, 1), most)
abbrev pub bounded : ℕ → ℕ → ℕ
bounded limit most = min (max limit 1) most

-- str(error)
abbrev pub message : Error → Text
message (value_error m) = m
message (lookup_error m) = m
message (runtime_error m) = m
message (os_error m) = m
message (integrity_error m) = m
