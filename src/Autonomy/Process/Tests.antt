-- ===== src/Autonomy/Process/Tests.antt =====
-- The loop on one task, with services that answer the same each time.
use syncore.Common.{none, ◌≤◌, ◌≡◌, refl, arith, codes, Bool, true, false, some, List, [], ◌∷◌}
use syncore.Models.{completed, flag, ProjectEvent}
use syncore.Store.{Store, ok, Action, pure, raise, os_error}
use syncore.Store.Events.Window.{window, IsOrdered}
use syncore.Store.Keeps.{Keeps-pure}
use syncore.Autonomy.Values.{as_bool, latest_event, event_bool}
use syncore.Autonomy.Gate.{
  scheduled_retry_epoch, approval_gate_state, ApprovalState, total_step_events, current_cycle,
  stage_execute,
}
use syncore.Autonomy.Stage.{failed, Services, StageContext, StageRun, ready}
use syncore.Store.Tasks.{get_task, update_task}
use syncore.Store.Order.{order_asc, order_desc}
use syncore.Store.Events.{list_project_events, save_project_event}
use syncore.Autonomy.Finalizer.{child_gate_status}
use syncore.Autonomy.Process.Blocked.{IsBlocked}
use syncore.Autonomy.Process.Blocked.Loop.{process_task-failed_IsBlocked}
use syncore.Autonomy.Process.{
  set_approval, process_open_task, budget_gated, fail_task, result, process_task, approval_gated,
}
use syncore.Autonomy.Process.Preferences.{
  failure_settings, Settings, load_preferences, resolve_autonomy_mode, should_enforce_sdlc,
}
use syncore.Autonomy.Taxonomy.{Failure}
use syncore.Autonomy.Failures.{schedule_retry}
use syncore.Autonomy.Process.Retry.{schedule_retry-scheduled_retry_epoch}
use syncore.Autonomy.Process.Verdict.{set_approval-approved}
use syncore.Autonomy.Process.Approval.{is_approved, approval_gated-uses_no_service}
use syncore.Autonomy.Process.Cycles.{CyclesBounded, BoundedServices}
use syncore.Autonomy.Process.Cycles.Reach.{
  Reaches, start, process, Reaches-CyclesBounded, current_cycle-le_max,
}
use syncore.Samples.{event, task_7, empty_store}

-- The model answers with a text; the quality gate passes or fails each.
abbrev sample_services : Action StageRun → Bool → Services
sample_services attempt passed = record {
  digest = λ events baton. [];
  parse_float = λ t. none;
  signature = λ prefs. codes "0123456789abcdef";
  select_replan_strategy = λ events c. pure (codes "default");
  attempt = λ c strategy. attempt;
  assess = λ c strategy run. record { passed = passed; score = 40; reasons = codes "too short" };
  is_local_echo_mode = λ run. false;
  record_meaningful_change_assessment = λ c run. pure tt;
  persist_execute_plan = λ c run strategy. pure tt;
  persist_stage_handoff_artifacts = λ c run. pure tt;
  spawn_subtasks_once = λ c. pure tt;
  recommended_improvement_state = λ k. pure ready;
}

abbrev answering : Services
answering =
    sample_services
      (pure (record {
        run_id = some 5;
        provider = codes "ollama";
        target_model = codes "small";
        output_text = codes "done";
      }))
      false

abbrev raising : Services
raising = sample_services (raise (os_error (codes "connection refused"))) true

abbrev settings : Settings
settings = record {
  default_max_retries = 1;
  max_cycles = 3;
  max_total_steps = 20;
  review_pass_keyword = codes "PASS";
  workspace_auto_approve_low_risk = false;
  execute_plan_enabled = true;
  failure_taxonomy_v2_enabled = true;
  low_info_stop_enabled = true;
  low_info_threshold = 2;
  retry_base_micros = 500_000;
}

answering-BoundedServices : BoundedServices 3 answering
answering-BoundedServices = record {
  select = λ events c. Keeps-pure _;
  attempt = λ c strategy. Keeps-pure _;
  assessment = λ c run. Keeps-pure _;
  plan = λ c run strategy. Keeps-pure _;
  handoff = λ c run. Keeps-pure _;
  spawn = λ c. Keeps-pure _;
  sibling = λ k. Keeps-pure _;
}

abbrev one_task : Store
one_task = record empty_store { tasks = task_7 ∷ [] }

abbrev twice_processed : Store
twice_processed =
    (process_task answering settings 7 (process_task answering settings 7 one_task).1).1

twice_processed-Reaches : Reaches answering settings one_task twice_processed
twice_processed-Reaches = process 7 (process 7 start)

Reaches-CyclesBounded_example : CyclesBounded 3 twice_processed
Reaches-CyclesBounded_example =
    Reaches-CyclesBounded answering settings one_task twice_processed (omega arith)
      answering-BoundedServices tt twice_processed-Reaches

current_cycle-le_max_example : current_cycle (window (some 7) 500 twice_processed) ≤ 3
current_cycle-le_max_example =
    current_cycle-le_max answering settings one_task twice_processed 7 (omega arith)
      answering-BoundedServices refl twice_processed-Reaches

abbrev execute_context : StageContext
execute_context = record {
  task = task_7;
  prefs = [];
  stage = stage_execute;
  cycle = 1;
  execute_role = codes "coder";
  autonomy_mode = codes "guided";
  requires_approval = true;
  enforce_sdlc = false;
  max_cycles = 3;
  max_retries = 1;
}

abbrev refused : List ProjectEvent
refused = event 3 7 "autonomy.approval" (("approved", flag false) ∷ []) ∷ []

not_approved : is_approved (latest_event refused "autonomy.approval") ≡ false
unfolding latest_event event_bool
not_approved = refl

approval_gated-uses_no_service_example :
    approval_gated answering settings execute_context refused 12
    ≡ approval_gated raising settings execute_context refused 12
approval_gated-uses_no_service_example =
    approval_gated-uses_no_service answering raising settings execute_context refused 12 refl refl
      not_approved

abbrev finished_task : Store
finished_task = record empty_store { tasks = record task_7 { status = completed } ∷ [] }

-- A budget of one step, which the task has used up.
abbrev one_step : Settings
one_step = record settings { max_total_steps = 1 }

abbrev used_up : Store
used_up = record empty_store {
  tasks = task_7 ∷ [];
  events = event 3 7 "autonomy.stage.failed" [] ∷ [];
}

used_up-run : (process_task answering one_step 7 used_up).0 ≡ ok (result 7 failed)
unfolding process_task get_task process_open_task list_project_events order_desc order_asc
    load_preferences resolve_autonomy_mode child_gate_status latest_event budget_gated
    should_enforce_sdlc as_bool total_step_events fail_task update_task save_project_event
used_up-run = refl

process_task-failed_IsBlocked_example : IsBlocked 7 (process_task answering one_step 7 used_up).1
process_task-failed_IsBlocked_example =
    process_task-failed_IsBlocked answering one_step 7 used_up (result 7 failed) used_up-run refl

one_task-IsOrdered : IsOrdered one_task
one_task-IsOrdered = record { ordered = tt; past = tt; rising = λ n. omega arith }

set_approval-approved_example :
    approval_gate_state
      (window (some 7) 500 (set_approval 7 true none one_task).1)
      stage_execute
      true
    ≡ ApprovalState.approved
set_approval-approved_example = set_approval-approved 7 none one_task task_7 one_task-IsOrdered refl

abbrev refused_connection : Failure
refused_connection = record {
  category = codes "provider_failure";
  strategy = codes "switch_model_or_provider";
  retry_allowed = true;
  should_replan = false;
  reason = codes "connection refused";
  signature = codes "0123456789abcdef";
}

abbrev after_refusal : Store
after_refusal =
    (schedule_retry raising (failure_settings settings) execute_context 2 refused_connection
      one_task).1

-- The second retry comes a second after the clock's 10 microseconds.
schedule_retry-scheduled_retry_epoch_example :
    scheduled_retry_epoch raising.parse_float (window (some 7) 500 after_refusal) stage_execute 1
    ≡ some 1_000_010
schedule_retry-scheduled_retry_epoch_example =
    schedule_retry-scheduled_retry_epoch raising (failure_settings settings) execute_context 2
      refused_connection one_task one_task-IsOrdered (omega arith) refl
