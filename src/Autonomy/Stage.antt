-- ===== src/Autonomy/Stage.antt =====
-- What the parts of the autonomy loop share: autonomy_stage_models.py, the results, small store calls,
-- and the interface to the services behind the loop.
use syncore.Common.{
  ℕ, if◌then◌else◌, Text, codes, Bool, Option, none, some, List, [], ◌∷◌, String, ◌=s=◌, pos,
}
use syncore.Models.{Task, blocked, to_status, int, text, Fields, ProjectEvent, BatonPacket}
use syncore.Store.{Action}
use syncore.Store.Tasks.{update_task}
use syncore.Store.Events.{save_project_event}

-- A dict of texts: task preferences.
abbrev pub Prefs : Type 0
Prefs = List (String × Text)

-- `prefs.get(key)`
abbrev pub pref : String → Prefs → Option Text
pref k [] = none
pref k ((j, v) ∷ rest) = if j =s= k then some v else pref k rest

-- `prefs[key] = value`
abbrev pub put_pref : String → Text → Prefs → Prefs
put_pref k v [] = (k, v) ∷ []
put_pref k v ((j, w) ∷ rest) = if j =s= k then (j, v) ∷ rest else (j, w) ∷ put_pref k v rest

-- AutonomyStageContext
pub record StageContext : Type 0 where
  pub task : Task
  pub prefs : Prefs
  pub stage : Text
  pub cycle : ℕ
  pub execute_role : Text
  pub autonomy_mode : Text
  pub requires_approval : Bool
  pub enforce_sdlc : Bool
  pub max_cycles : ℕ
  pub max_retries : ℕ

-- The status of an AutonomyResult or of a stage result.
pub data LoopStatus : Type 0 where
  missing skipped halted in_progress failed completed awaiting_approval waiting_retry : LoopStatus
  replanning retry_scheduled approved rejected : LoopStatus

-- AutonomyResult, without its note.
pub record AutonomyResult : Type 0 where
  pub task_id : ℕ
  pub status : LoopStatus
  pub run_id : Option ℕ

-- What an executed stage returns.
pub record StageRun : Type 0 where
  pub run_id : Option ℕ
  pub provider : Text
  pub target_model : Text
  pub output_text : Text

-- The verdict of the quality gate; `reasons` is already joined by "; ".
pub record Quality : Type 0 where
  pub passed : Bool
  pub score : ℕ
  pub reasons : Text

-- The state of the analysis sibling's recommendation, with its note.
pub data SiblingState : Type 0 where
  ready : SiblingState
  waiting stopped : Text → SiblingState

-- The services behind the loop: the digest text, the choice of a strategy (modelled in Strategy), the
-- call of the model with all that prepares it, the quality gate, and what a stage hands over.
pub record Services : Type 0 where
  -- AnalystDigestService.generate_digest, as the data of its event
  pub digest : List ProjectEvent → Option BatonPacket → Fields
  -- sha256 of the JSON of a dict of texts, cut to 16 digits
  pub signature : Prefs → Text
  -- float(text), in microseconds; none where it raises ValueError
  pub parse_float : Text → Option ℕ
  pub select_replan_strategy : List ProjectEvent → StageContext → Action Text
  -- autonomy_stage_processor.process from the choice of the provider up to the model switch
  pub attempt : StageContext → Text → Action StageRun
  -- stage_quality_gate, with the relaxation for local_echo
  pub assess : StageContext → Text → StageRun → Quality
  pub is_local_echo_mode : StageRun → Bool
  pub record_meaningful_change_assessment : StageContext → StageRun → Action (Unit {0})
  pub persist_execute_plan : StageContext → StageRun → Text → Action (Unit {0})
  pub persist_stage_handoff_artifacts : StageContext → StageRun → Action (Unit {0})
  pub spawn_subtasks_once : StageContext → Action (Unit {0})
  pub recommended_improvement_state : ℕ → Action SiblingState

-- store.save_project_event(ProjectEventCreate(…))
abbrev pub record_event : ℕ → String → Fields → Action ProjectEvent
record_event task_id event_type event_data =
    save_project_event
      (record { task_id = task_id; event_type = event_type; event_data = event_data })

-- store.update_task(task_id, TaskUpdate(status="blocked"))
abbrev pub block_task : ℕ → Action (Option Task)
block_task task_id = update_task task_id (to_status blocked)

-- {"stage": …, "cycle": …}
abbrev pub at_stage : StageContext → Fields
at_stage c = ("stage", text c.stage) ∷ ("cycle", int (pos c.cycle)) ∷ []

-- autonomy.cycle.started, mode "replan"
abbrev pub start_cycle : ℕ → ℕ → Fields → Action ProjectEvent
start_cycle task_id cycle more =
    record_event task_id "autonomy.cycle.started"
      (("cycle", int (pos cycle)) ∷ ("mode", text (codes "replan")) ∷ more)

-- _record_feedback
unfoldable pub record_feedback : ℕ → Text → Text → Text → Action ProjectEvent
record_feedback task_id stage strategy outcome =
    record_event task_id "autonomy.feedback"
      (("stage", text stage) ∷ ("strategy", text strategy) ∷ ("outcome", text outcome) ∷ [])
