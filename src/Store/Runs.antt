-- ===== src/Store/Runs.antt =====
-- The agent run and notification rows.
use syncore.Common.{
  codes, ℕ, suc, ◌==◌, if◌then◌else◌, Text, Bool, true, false, not, ◌||◌, Option, none, some, List,
  [], ◌∷◌, ◌++◌, keep, take, first, update_where, any, ◌&&◌,
}
use syncore.Models.{AgentRun, AgentRunCreate, AgentRunUpdate, Notification}
use syncore.Store.Workspaces.{has_optional_workspace}
use syncore.Store.{Store, has_task, has_optional_task, refer, Action, ok, err, value_error, bounded}
use syncore.Store.Order.{order_asc, order_desc}
use syncore.Store.Tasks.{is_some, or_else}

unfoldable pub create_agent_run : AgentRunCreate → Action AgentRun
create_agent_run run s =
    let row : AgentRun = record {
      id = s.uuids s.tick;
      task_id = run.task_id;
      role = run.role;
      status = run.status;
      input_summary = run.input_summary;
      output_summary = none;
      error_message = none;
      created_at = s.clock s.tick;
      updated_at = s.clock s.tick;
    } in
    refer (has_task run.task_id s)
      (ok row, record s { runs = s.runs ++ row ∷ []; tick = suc s.tick }) s

abbrev or_old : Option Text → Option Text → Option Text
or_old none old = old
or_old (some x) old = some x

abbrev pub assign_run : AgentRunUpdate → ℕ → AgentRun → AgentRun
assign_run u now r = record r {
  status = or_else u.status r.status;
  output_summary = or_old u.output_summary r.output_summary;
  error_message = or_old u.error_message r.error_message;
  updated_at = now;
}

abbrev pub run_is : ℕ → AgentRun → Bool
run_is k r = r.id == k

unfoldable pub update_agent_run : ℕ → AgentRunUpdate → Action (Option AgentRun)
update_agent_run run_id u s =
    if is_some u.status || is_some u.output_summary || is_some u.error_message
    then (let rows = update_where (run_is run_id) (assign_run u (s.clock s.tick)) s.runs in
        (ok (first (run_is run_id) rows), record s { runs = rows; tick = suc s.tick }))
    else (err (value_error (codes "At least one field must be provided for run update")), s)

unfoldable pub get_agent_run : ℕ → Action (Option AgentRun)
get_agent_run run_id s = (ok (first (run_is run_id) s.runs), s)

-- All runs newest first; the runs of one task oldest first.
unfoldable pub list_agent_runs : Option ℕ → ℕ → Action (List AgentRun)
list_agent_runs none limit s =
    (ok (take (bounded limit 200) (order_desc (λ r. r.created_at) s.runs)), s)
list_agent_runs (some task_id) limit s = (
  ok (
      take (bounded limit 200)
        (order_asc (λ r. r.created_at) (keep (λ r. r.task_id == task_id) s.runs))),
  s,
)

pub record NotificationCreate : Type 0 where
  pub category : Text
  pub title : Text
  pub body : Text
  pub related_task_id : Option ℕ
  pub related_workspace_id : Option ℕ
  pub finding_id : Option ℕ

abbrev pub has_optional_finding : Option ℕ → Store → Bool
has_optional_finding none s = true
has_optional_finding (some finding_id) s = any (λ f. f.finding_id == finding_id) s.findings

unfoldable pub create_notification : NotificationCreate → Action Notification
create_notification n s =
    let row : Notification = record {
      id = s.uuids s.tick;
      category = n.category;
      title = n.title;
      body = n.body;
      related_task_id = n.related_task_id;
      related_workspace_id = n.related_workspace_id;
      finding_id = n.finding_id;
      acknowledged = false;
      acknowledged_at = none;
      created_at = s.clock s.tick;
    } in
    refer
      (has_optional_task n.related_task_id s
        && has_optional_workspace n.related_workspace_id s
        && has_optional_finding n.finding_id s)
      (ok row, record s { notifications = s.notifications ++ row ∷ []; tick = suc s.tick }) s

abbrev pub has_acknowledged : Option Bool → Notification → Bool
has_acknowledged none n = true
has_acknowledged (some true) n = n.acknowledged
has_acknowledged (some false) n = not n.acknowledged

unfoldable pub list_notifications : Option Bool → ℕ → Action (List Notification)
list_notifications acknowledged limit s = (
  ok (
      take (bounded limit 500)
        (order_desc (λ n. n.created_at) (keep (has_acknowledged acknowledged) s.notifications))),
  s,
)

unfoldable pub get_notification : ℕ → Action (Option Notification)
get_notification notification_id s = (ok (first (λ n. n.id == notification_id) s.notifications), s)

abbrev pub acknowledge : ℕ → Notification → Notification
acknowledge now n = record n { acknowledged = true; acknowledged_at = some now }

unfoldable pub acknowledge_notification : ℕ → Action (Option Notification)
acknowledge_notification notification_id s =
    let rows =
      update_where (λ n. n.id == notification_id) (acknowledge (s.clock s.tick)) s.notifications in
    (
      ok (first (λ n. n.id == notification_id) rows),
      record s { notifications = rows; tick = suc s.tick },
    )
