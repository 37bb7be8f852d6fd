-- ===== src/Autonomy/Process.antt =====
-- services/orchestrator/app/services/autonomy_service.py: process_task and set_approval, with
-- resolve_autonomy_mode of autonomy_runtime_selector.py. The notes
-- of the results are left out; the status "blocked" of a task that is blocked already is `halted`.
pub mod Preferences
pub mod Gates
pub mod Cycles
pub mod Approval
pub mod Blocked
pub mod Verdict
pub mod Retry
pub mod Tests
use syncore.Common.{
  ℕ, zero, suc, ◌+◌, leb, ltb, ◌==◌, if◌then◌else◌, Text, codes, take, text_eq, strip, lower,
  is_empty, ℤ, pos, Bool, true, false, not, ◌&&◌, ◌||◌, Option, none, some, List, [], ◌∷◌, ◌++◌,
  String,
}
use syncore.Models.{
  Task, TaskStatus, new, in_progress, completed, blocked, to_status, ComplexityLevel, low, Value,
  int, text, flag, Fields, field, ProjectEvent,
}
use syncore.Store.{Store, Action, Result, ok, err, Error, ◌>>=◌, ◌>>◌, pure}
use syncore.Store.Tasks.{get_task, update_task, list_tasks, or_else}
use syncore.Store.Events.{list_project_events}
use syncore.Autonomy.Values.{latest_event}
use syncore.Autonomy.Gate.{
  current_cycle, total_step_events, approval_gate_state, ensure_approval_requested, next_stage,
  scheduled_retry_epoch, stage_inflight, stages, ApprovalState, not_required, awaiting,
}
use syncore.Autonomy.Stage.{
  Services, StageContext, LoopStatus, missing, skipped, halted, failed, awaiting_approval,
  waiting_retry, approved, rejected, AutonomyResult, Prefs, record_event, block_task,
}
use syncore.Autonomy.Finalizer.{
  ChildGate, no_children, awaiting_children, children_failed, children_completed, child_gate_status,
  finalize_task, latest_stage_completion,
}
use syncore.Autonomy.Outcomes.{process_or_recover}
use syncore.Autonomy.Process.Preferences.{
  Settings, load_preferences, resolve_autonomy_mode, must_approve, resolve_max_retries,
  should_enforce_sdlc, bootstrap_if_needed, failure_settings,
}
use syncore.Autonomy.Process.Gates.{
  implementation_recommendation_gate, execute_plan_gate, Gate, pass, stop,
}

abbrev pub result : ℕ → LoopStatus → AutonomyResult
result task_id status = record { task_id = task_id; status = status; run_id = none }

-- What follows a gate: the rest of the call, or its status.
abbrev pub gated : StageContext → Action AutonomyResult → Gate → Action AutonomyResult
gated c rest pass = rest
gated c rest (stop status) = pure (result c.task.id status)

module _ (services : Services) (settings : Settings) where
  -- The last part: the stage runs unless it runs already.
  unfoldable pub run_stage : StageContext → List ProjectEvent → Action AutonomyResult
  run_stage c events =
      if stage_inflight events c.stage c.cycle
      then pure (result c.task.id LoopStatus.in_progress)
      else process_or_recover services (failure_settings settings) settings.review_pass_keyword c
          events

  -- The gates in front of the stage, each of which may end the call.
  unfoldable pub plan_gated : StageContext → List ProjectEvent → Action AutonomyResult
  plan_gated c events = do gate ← execute_plan_gate settings c; gated c (run_stage c events) gate

  unfoldable pub recommendation_gated : StageContext → List ProjectEvent → Action AutonomyResult
  recommendation_gated c events = do
    gate ← implementation_recommendation_gate services c
    gated c (plan_gated c events) gate

  abbrev pub is_waiting_retry : Option ℕ → ℕ → Bool
  is_waiting_retry none now = false
  is_waiting_retry (some retry_at) now = ltb now retry_at

  unfoldable pub retry_gated : StageContext → List ProjectEvent → ℕ → Action AutonomyResult
  retry_gated c events now_epoch =
      if is_waiting_retry (scheduled_retry_epoch services.parse_float events c.stage c.cycle)
        now_epoch
      then pure (result c.task.id waiting_retry)
      else recommendation_gated c events

  unfoldable pub reject_stage : StageContext → Action AutonomyResult
  reject_stage c = do
    block_task c.task.id
    record_event c.task.id "autonomy.failed" (
        ("stage", text c.stage)
        ∷ ("error", text (codes "Rejected by operator approval gate."))
        ∷ [])
    pure (result c.task.id failed)

  abbrev pub by_approval :
      StageContext → List ProjectEvent → ℕ → ApprovalState → Action AutonomyResult
  by_approval c events now_epoch awaiting = do
    ensure_approval_requested c.task.id events
    pure (result c.task.id awaiting_approval)
  by_approval c events now_epoch ApprovalState.rejected = reject_stage c
  by_approval c events now_epoch _ = retry_gated c events now_epoch

  unfoldable pub approval_gated : StageContext → List ProjectEvent → ℕ → Action AutonomyResult
  approval_gated c events now_epoch =
      by_approval c events now_epoch (approval_gate_state events c.stage c.requires_approval)

  -- With the task in progress and its cycle known.
  abbrev pub next_or_finish :
      Task
      → Prefs
      → Text
      → Bool
      → Bool
      → Text
      → ℕ
      → ℕ
      → List ProjectEvent
      → Option Text
      → Action AutonomyResult
  next_or_finish task prefs mode approval sdlc role cycle now_epoch events none = do
    finalize_task services task.id
    pure (record {
      task_id = task.id;
      status = LoopStatus.completed;
      run_id = latest_stage_completion events;
    })
  next_or_finish task prefs mode approval sdlc role cycle now_epoch events (some stage) =
      approval_gated
        (record {
          task = task;
          prefs = prefs;
          stage = stage;
          cycle = cycle;
          execute_role = role;
          autonomy_mode = mode;
          requires_approval = approval;
          enforce_sdlc = sdlc;
          max_cycles = settings.max_cycles;
          max_retries = resolve_max_retries settings prefs;
        })
        events now_epoch

  unfoldable pub advance :
      Task → Prefs → Text → Bool → Bool → ℕ → List ProjectEvent → Action AutonomyResult
  advance task prefs mode approval sdlc now_epoch events = do
    updated ← update_task task.id (to_status in_progress)
    let current = or_else updated task
    started ← bootstrap_if_needed current events
    let (role, cycle) = started
    events' ← list_project_events (some task.id) 500
    next_or_finish current prefs mode approval sdlc role cycle now_epoch events'
        (next_stage events' cycle stages)

  unfoldable pub fail_task : ℕ → Text → Action AutonomyResult
  fail_task task_id error = do
    block_task task_id
    record_event task_id "autonomy.failed" (("error", text error) ∷ [])
    pure (result task_id failed)

  abbrev pub read_clock : Action ℕ
  read_clock s = (ok (s.clock s.tick), record s { tick = suc s.tick })

  unfoldable pub budget_gated :
      Task → Prefs → Text → Bool → List ProjectEvent → Action AutonomyResult
  budget_gated task prefs mode approval events = do
    sdlc ← should_enforce_sdlc task prefs
    now_epoch ← read_clock
    if leb settings.max_total_steps (total_step_events events)
        then fail_task task.id (codes "Max autonomy step budget reached.")
        else advance task prefs mode approval sdlc now_epoch events

  abbrev pub by_children :
      Task → Prefs → Text → Bool → List ProjectEvent → ChildGate → Action AutonomyResult
  by_children task prefs mode approval events awaiting_children =
      pure (result task.id LoopStatus.in_progress)
  by_children task prefs mode approval events (children_failed note) = fail_task task.id note
  by_children task prefs mode approval events children_completed = do
    finalize_task services task.id
    pure (result task.id LoopStatus.completed)
  by_children task prefs mode approval events no_children =
      budget_gated task prefs mode approval events

  abbrev pub note_mode : ℕ → Text → Text → Action (Unit {0})
  note_mode task_id mode note = if is_empty note then pure tt else do
    record_event task_id "autonomy.mode.adjusted"
        (("mode", text mode) ∷ ("reason", text (take 250 note)) ∷ [])
    pure tt

  unfoldable pub process_open_task : Task → Action AutonomyResult
  process_open_task task = do
    events ← list_project_events (some task.id) 500
    let prefs = load_preferences events
    adjusted ← resolve_autonomy_mode task prefs
    let (mode, note) = adjusted
    note_mode task.id mode note
    gate ← child_gate_status task.id events
    by_children task prefs mode (must_approve settings task prefs mode) events gate

  abbrev pub by_status : Task → TaskStatus → Action AutonomyResult
  by_status task completed = pure (result task.id skipped)
  by_status task blocked = pure (result task.id halted)
  by_status task _ = process_open_task task

  abbrev pub by_task : ℕ → Option Task → Action AutonomyResult
  by_task task_id none = pure (result task_id missing)
  by_task task_id (some task) = by_status task task.status

  unfoldable pub process_task : ℕ → Action AutonomyResult
  process_task task_id = do task ← get_task task_id; by_task task_id task

  abbrev pub is_pending : TaskStatus → Bool
  is_pending new = true
  is_pending in_progress = true
  is_pending _ = false

  -- The loop of process_pending_tasks_once over the tasks that were listed.
  unfoldable pub process_listed : List Task → Action (List AutonomyResult)
  process_listed [] = pure []
  process_listed (task ∷ rest) =
      let others = process_listed rest in
      if is_pending task.status
      then (do r ← process_task task.id; rs ← others; pure (r ∷ rs))
      else others

  unfoldable pub process_pending_tasks_once : ℕ → Action (List AutonomyResult)
  unfolding process_listed
  process_pending_tasks_once limit = do tasks ← list_tasks limit none; process_listed tasks

-- `event_data` of autonomy.approval: the verdict, and the stripped reason if there is one.
abbrev pub approval_data : Bool → Text → Fields
approval_data verdict reason =
    ("approved", flag verdict)
    ∷ (if is_empty reason then [] else ("reason", text (take 250 reason)) ∷ [])

abbrev pub strip_reason : Option Text → Text
strip_reason none = []
strip_reason (some reason) = strip reason

abbrev pub approve_task : ℕ → Bool → Text → Option Task → Action AutonomyResult
approve_task task_id verdict reason none = pure (result task_id missing)
approve_task task_id verdict reason (some task) = do
  record_event task_id "autonomy.approval" (approval_data verdict reason)
  if verdict then pure (result task_id approved) else (do
    block_task task_id
    record_event task_id "autonomy.failed"
        (("error", text (codes "Rejected by operator approval gate.")) ∷ [])
    pure (result task_id rejected))

unfoldable pub set_approval : ℕ → Bool → Option Text → Action AutonomyResult
set_approval task_id verdict reason = do
  task ← get_task task_id
  approve_task task_id verdict (strip_reason reason) task
