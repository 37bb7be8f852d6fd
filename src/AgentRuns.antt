-- ===== src/AgentRuns.antt =====
-- services/orchestrator/app/services/agent_run_service.py: the runs and their statuses. The settings
-- are the value of run_stale_timeout_seconds, none when the service has no settings.
pub mod Lifecycle
pub mod Stale
pub mod Results
pub mod Tests
use syncore.Common.{
  ℕ, suc, ◌-◌, ◌+◌, ◌*◌, ◌/◌, ltb, leb, ◌==◌, if◌then◌else◌, Text, codes, text_eq, is_empty, strip,
  Bool, true, false, not, ◌&&◌, ◌||◌, Option, none, some, List, [], ◌∷◌, ◌++◌, String, last_where,
  ℤ, pos, clip,
}
use syncore.Models.{
  AgentRun, AgentRunCreate, AgentRunUpdate, AgentRunStatus, queued, running, blocked, completed,
  failed, ProjectEvent, Value, text, int, field,
}
use syncore.Store.{
  Store, Action, Result, ok, err, value_error, lookup_error, ◌>>=◌, ◌>>◌, pure, raise, Reference,
}
use syncore.Store.Tasks.{get_task, is_some}
use syncore.Store.Runs.{create_agent_run, update_agent_run, get_agent_run, list_agent_runs}
use syncore.Store.Events.{list_project_events}
use syncore.Store.References.{get_context_reference}
use syncore.Autonomy.Stage.{record_event}
use syncore.Autonomy.Values.{decimal, text_or_empty, has_type}
use syncore.Autonomy.Uuid.{uuid_text}

abbrev pub status_name : AgentRunStatus → Text
status_name queued = codes "queued"
status_name running = codes "running"
status_name blocked = codes "blocked"
status_name completed = codes "completed"
status_name failed = codes "failed"

-- status in {"queued", "running"}
abbrev pub is_active : AgentRunStatus → Bool
is_active queued = true
is_active running = true
is_active _ = false

-- status in {"blocked", "failed"}
abbrev pub is_stopped : AgentRunStatus → Bool
is_stopped blocked = true
is_stopped failed = true
is_stopped _ = false

abbrev pub created_for : Bool → AgentRunCreate → Action AgentRun
created_for true payload = create_agent_run payload
created_for false payload = raise (lookup_error (codes "Task not found"))

unfoldable pub create_run : AgentRunCreate → Action AgentRun
create_run payload = do task ← get_task payload.task_id; created_for (is_some task) payload

unfoldable pub update_run : ℕ → AgentRunUpdate → Action (Option AgentRun)
update_run run_id payload = update_agent_run run_id payload

unfoldable pub get_run : ℕ → Action (Option AgentRun)
get_run run_id = get_agent_run run_id

-- datetime.now(timezone.utc)
abbrev pub read_now : Action ℕ
read_now s = (ok (s.clock s.tick), record s { tick = suc s.tick })

abbrev stale_events : AgentRun → ℕ → Option AgentRun → Action AgentRun
stale_events run age none = pure run
stale_events run age (some updated) = do
  record_event updated.task_id "run.stale_reconciled" (
      ("run_id", text (uuid_text updated.id))
      ∷ ("previous_status", text (status_name run.status))
      ∷ ("status", text (status_name updated.status))
      ∷ ("age_seconds", int (pos age))
      ∷ [])
  pure updated

abbrev pub stale : ℕ → AgentRunUpdate
stale age = record {
  status = some blocked;
  output_summary = none;
  error_message = some (codes "Marked stale after " ++ decimal age ++ codes "s without progress.");
}

-- The branch of a stale run; `age` is int(age_seconds).
abbrev pub mark_stale : AgentRun → ℕ → Action AgentRun
mark_stale run age = do updated ← update_agent_run run.id (stale age); stale_events run age updated

-- age_seconds < timeout_seconds, in microseconds
abbrev pub is_fresh : ℕ → ℕ → AgentRun → Bool
is_fresh now timeout run = ltb now (run.updated_at + timeout * 1_000_000)

abbrev pub reconcile_run : ℕ → ℕ → AgentRun → Action AgentRun
reconcile_run now timeout run =
    if not (is_active run.status)
    then pure run
    else if is_fresh now timeout run
    then pure run
    else mark_stale run ((now - run.updated_at) / 1_000_000)

abbrev pub reconcile_runs : ℕ → ℕ → List AgentRun → Action (List AgentRun)
reconcile_runs now timeout [] = pure []
reconcile_runs now timeout (run ∷ runs) = do
  first_run ← reconcile_run now timeout run
  others ← reconcile_runs now timeout runs
  pure (first_run ∷ others)

-- The timeout as a number of seconds, 0 when it is not positive.
abbrev pub stale_timeout : Option ℤ → ℕ
stale_timeout none = 1800
stale_timeout (some seconds) = clip seconds

-- _reconcile_stale_runs
unfoldable pub reconcile_stale_runs : Option ℤ → List AgentRun → Action (List AgentRun)
reconcile_stale_runs settings runs =
    if stale_timeout settings == 0
    then pure runs
    else (do now ← read_now; reconcile_runs now (stale_timeout settings) runs)

unfoldable pub list_runs : Option ℤ → Option ℕ → ℕ → Action (List AgentRun)
list_runs settings task_id limit = do
  runs ← list_agent_runs task_id limit
  reconcile_stale_runs settings runs

-- The event of an operator's command on a run that was found.
abbrev pub note_run : String → Option AgentRun → Action (Option AgentRun)
note_run event_type none = pure none
note_run event_type (some updated) = do
  record_event updated.task_id event_type
      (("run_id", text (uuid_text updated.id)) ∷ ("status", text (status_name updated.status)) ∷ [])
  pure (some updated)

abbrev pub canceled : AgentRunUpdate
canceled = record {
  status = some blocked;
  output_summary = none;
  error_message = some (codes "Canceled by operator.");
}

abbrev pub cancel_found : ℕ → Option AgentRun → Action (Option AgentRun)
cancel_found run_id none = pure none
cancel_found run_id (some run) =
    if not (is_active run.status)
    then raise (
        value_error
          (codes "Run cannot be canceled from status '" ++ status_name run.status ++ codes "'."))
    else (do updated ← update_agent_run run_id canceled; note_run "run.canceled" updated)

unfoldable pub cancel_run : ℕ → Action (Option AgentRun)
cancel_run run_id = do run ← get_agent_run run_id; cancel_found run_id run

abbrev pub resumed : AgentRunUpdate
resumed = record { status = some queued; output_summary = none; error_message = none }

abbrev pub resume_found : ℕ → Option AgentRun → Action (Option AgentRun)
resume_found run_id none = pure none
resume_found run_id (some run) =
    if not (is_stopped run.status)
    then raise (
        value_error
          (codes "Run cannot be resumed from status '" ++ status_name run.status ++ codes "'."))
    else (do updated ← update_agent_run run_id resumed; note_run "run.resumed" updated)

unfoldable pub resume_run : ℕ → Action (Option AgentRun)
resume_run run_id = do run ← get_agent_run run_id; resume_found run_id run
