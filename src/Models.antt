-- ===== src/Models.antt =====
-- The data contracts of packages/contracts/python/models.py. A UUID is its 128-bit number, a
-- datetime its number of microseconds. A float in event data is a number of microseconds too: the
-- only floats that the program stores there are epoch seconds.
use syncore.Common.{
  ℕ, ℤ, Text, Bool, false, Option, none, some, List, [], ◌∷◌, String, ◌=s=◌, if◌then◌else◌,
}

pub data TaskStatus : Type 0 where
  new in_progress blocked completed : TaskStatus

pub data TaskType : Type 0 where
  analysis implementation integration review memory_retrieval memory_update : TaskType

pub data ComplexityLevel : Type 0 where
  low medium high : ComplexityLevel

pub data WorkerRole : Type 0 where
  analyst orchestrator memory : WorkerRole

pub data ModelTier : Type 0 where
  economy balanced premium : ModelTier

pub data AgentRole : Type 0 where
  planner coder reviewer analyst memory : AgentRole

pub data AgentRunStatus : Type 0 where
  queued running blocked completed failed : AgentRunStatus

pub record TaskCreate : Type 0 where
  pub title : Text
  pub task_type : TaskType
  pub complexity : ComplexityLevel
  pub workspace_id : Option ℕ

-- `workspace_id_set` is `"workspace_id" in payload.model_fields_set`.
pub record TaskUpdate : Type 0 where
  pub title : Option Text
  pub status : Option TaskStatus
  pub task_type : Option TaskType
  pub complexity : Option ComplexityLevel
  pub workspace_id_set : Bool
  pub workspace_id : Option ℕ

-- TaskUpdate(status=…)
abbrev pub to_status : TaskStatus → TaskUpdate
to_status s = record {
  title = none;
  status = some s;
  task_type = none;
  complexity = none;
  workspace_id_set = false;
  workspace_id = none;
}

pub record Task : Type 0 where
  pub id : ℕ
  pub title : Text
  pub status : TaskStatus
  pub task_type : TaskType
  pub complexity : ComplexityLevel
  pub workspace_id : Option ℕ
  pub created_at : ℕ
  pub updated_at : ℕ

pub record BatonPayload : Type 0 where
  pub objective : Text
  pub completed_work : List Text
  pub constraints : List Text
  pub open_questions : List Text
  pub next_best_action : Text
  pub relevant_artifacts : List Text

pub record BatonPacketCreate : Type 0 where
  pub task_id : ℕ
  pub from_agent : Text
  pub to_agent : Option Text
  pub summary : Text
  pub payload : BatonPayload

pub record BatonPacket : Type 0 where
  pub id : ℕ
  pub task_id : ℕ
  pub from_agent : Text
  pub to_agent : Option Text
  pub summary : Text
  pub payload : BatonPayload
  pub created_at : ℕ

-- str | int | float | bool | None
pub data Value : Type 0 where
  null : Value
  flag : Bool → Value
  int : ℤ → Value
  real : ℕ → Value
  text : Text → Value

-- A dict with string keys, in insertion order.
abbrev pub Fields : Type 0
Fields = List (String × Value)

-- `data.get(key)`: a missing key reads as None.
abbrev pub field : String → Fields → Value
field k [] = null
field k ((j, v) ∷ rest) = if j =s= k then v else field k rest

pub record ProjectEventCreate : Type 0 where
  pub task_id : ℕ
  pub event_type : String
  pub event_data : Fields

pub record ProjectEvent : Type 0 where
  pub id : ℕ
  pub task_id : ℕ
  pub event_type : String
  pub event_data : Fields
  pub created_at : ℕ

pub record AgentRunCreate : Type 0 where
  pub task_id : ℕ
  pub role : AgentRole
  pub status : AgentRunStatus
  pub input_summary : Option Text

pub record AgentRunUpdate : Type 0 where
  pub status : Option AgentRunStatus
  pub output_summary : Option Text
  pub error_message : Option Text

pub record AgentRun : Type 0 where
  pub id : ℕ
  pub task_id : ℕ
  pub role : AgentRole
  pub status : AgentRunStatus
  pub input_summary : Option Text
  pub output_summary : Option Text
  pub error_message : Option Text
  pub created_at : ℕ
  pub updated_at : ℕ

pub data ImpactLevel : Type 0 where
  low medium high : ImpactLevel

pub record ResearchFindingCreate : Type 0 where
  pub task_id : Option ℕ
  pub workspace_id : Option ℕ
  pub title : Text
  pub summary : Text
  pub details : Text
  pub impact_level : ImpactLevel
  pub source : Text

pub record ResearchFinding : Type 0 where
  pub finding_id : ℕ
  pub task_id : Option ℕ
  pub workspace_id : Option ℕ
  pub title : Text
  pub summary : Text
  pub details : Text
  pub impact_level : ImpactLevel
  pub source : Text
  pub created_at : ℕ

pub record Notification : Type 0 where
  pub id : ℕ
  pub category : Text
  pub title : Text
  pub body : Text
  pub related_task_id : Option ℕ
  pub related_workspace_id : Option ℕ
  pub finding_id : Option ℕ
  pub acknowledged : Bool
  pub acknowledged_at : Option ℕ
  pub created_at : ℕ

-- `metadata` holds dicts such as "workspace_readiness" and "learning" under their keys.
abbrev pub Metadata : Type 0
Metadata = List (String × Fields)

pub data WorkspaceRuntimeMode : Type 0 where
  docker native unknown : WorkspaceRuntimeMode

pub record WorkspaceCreate : Type 0 where
  pub name : Text
  pub root_path : Text
  pub repo_url : Option Text
  pub branch : Option Text
  pub runtime_mode : WorkspaceRuntimeMode
  pub metadata : Metadata

pub record WorkspaceUpdate : Type 0 where
  pub name : Option Text
  pub root_path : Option Text
  pub repo_url : Option Text
  pub branch : Option Text
  pub runtime_mode : Option WorkspaceRuntimeMode
  pub metadata : Option Metadata

pub record Workspace : Type 0 where
  pub id : ℕ
  pub name : Text
  pub root_path : Text
  pub repo_url : Option Text
  pub branch : Option Text
  pub runtime_mode : WorkspaceRuntimeMode
  pub metadata : Metadata
  pub created_at : ℕ
  pub updated_at : ℕ

-- metadata.get(key) or {}
abbrev pub section : String → Metadata → Fields
section k [] = []
section k ((j, v) ∷ rest) = if j =s= k then v else section k rest
