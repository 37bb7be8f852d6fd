-- ===== src/Autonomy/Process/Cycles/Loop.antt =====
-- process_task starts no cycle past the limit.
use syncore.Common.{
  [], ◌∷◌, is_empty, ℕ, ◌≤◌, refl, leb, Text, codes, Bool, List, Option, none, some,
}
use syncore.Models.{ProjectEvent, Task, TaskStatus, new, in_progress, completed, blocked}
use syncore.Store.{Action}
use syncore.Store.Keeps.{Keeps, Keeps-bind, Keeps-then, Keeps-if, Keeps-pure}
use syncore.Autonomy.Gate.{
  ensure_approval_requested, stage_inflight, ApprovalState, not_required, awaiting, approved,
  rejected, approval_gate_state, total_step_events,
}
use syncore.Autonomy.Stage.{Services, StageContext, AutonomyResult, Prefs}
use syncore.Autonomy.Finalizer.{
  ChildGate, no_children, awaiting_children, children_failed, children_completed,
}
use syncore.Store.Tasks.{list_tasks}
use syncore.Autonomy.Process.{
  process_listed, process_pending_tasks_once, is_pending, gated, run_stage, plan_gated,
  recommendation_gated, retry_gated, reject_stage, by_approval, approval_gated, next_or_finish,
  advance, read_clock, budget_gated, by_children, note_mode, process_open_task, by_status, by_task,
  process_task,
}
use syncore.Autonomy.Process.Gates.{Gate, pass, stop}
use syncore.Autonomy.Process.Preferences.{Settings, bootstrap_if_needed, failure_settings}
use syncore.Autonomy.Process.Cycles.{
  CyclesBounded, BoundedServices, save-Keeps, quiet-Keeps, list_project_events-Keeps,
  get_task-Keeps, update_task-Keeps, block-Keeps,
}
use syncore.Autonomy.Process.Cycles.Finish.{finalize_task-Keeps, child_gate_status-Keeps}
use syncore.Autonomy.Process.Cycles.Outcomes.{process_or_recover-Keeps}
use syncore.Autonomy.Process.Cycles.Gates.{
  request_approval-Keeps, resolve_autonomy_mode-Keeps, should_enforce_sdlc-Keeps, fail_task-Keeps,
  continue_or_start-Keeps, execute_plan_gate-Keeps, implementation_recommendation_gate-Keeps,
}

module _ (services : Services) (settings : Settings) where
  module _ (c : StageContext) (bounded : BoundedServices c.max_cycles services)
      (events : List ProjectEvent) where
    run_stage-Keeps : Keeps (CyclesBounded c.max_cycles) (run_stage services settings c events)
    unfolding run_stage
    run_stage-Keeps = Keeps-if (stage_inflight events c.stage c.cycle) _ _ (Keeps-pure _) (
        process_or_recover-Keeps services (failure_settings settings) settings.review_pass_keyword c
          bounded events)

    gated-Keeps :
        {rest : Action AutonomyResult}
        → Keeps (CyclesBounded c.max_cycles) rest
        → (gate : Gate) → Keeps (CyclesBounded c.max_cycles) (gated c rest gate)
    gated-Keeps k pass = k
    gated-Keeps k (stop status) = Keeps-pure _

    plan_gated-Keeps : Keeps (CyclesBounded c.max_cycles) (plan_gated services settings c events)
    unfolding plan_gated
    plan_gated-Keeps =
        Keeps-bind _ _ (execute_plan_gate-Keeps c settings) (gated-Keeps run_stage-Keeps)

    recommendation_gated-Keeps :
        Keeps (CyclesBounded c.max_cycles) (recommendation_gated services settings c events)
    unfolding recommendation_gated
    recommendation_gated-Keeps =
        Keeps-bind _ _ (implementation_recommendation_gate-Keeps c services bounded)
          (gated-Keeps plan_gated-Keeps)

    retry_gated-Keeps :
        (now : ℕ) → Keeps (CyclesBounded c.max_cycles) (retry_gated services settings c events now)
    unfolding retry_gated
    retry_gated-Keeps now = Keeps-if _ _ _ (Keeps-pure _) recommendation_gated-Keeps

    reject_stage-Keeps : Keeps (CyclesBounded c.max_cycles) (reject_stage services settings c)
    unfolding reject_stage
    reject_stage-Keeps =
        Keeps-then _ _ (block-Keeps c.max_cycles c.task.id)
          (Keeps-then _ _ (save-Keeps c.max_cycles c.task.id _ _ refl) (Keeps-pure _))

    by_approval-Keeps :
        (now : ℕ) (state : ApprovalState)
        → Keeps (CyclesBounded c.max_cycles) (by_approval services settings c events now state)
    unfolding ensure_approval_requested
    by_approval-Keeps now awaiting =
        Keeps-then _ _ (request_approval-Keeps c.max_cycles c.task.id _) (Keeps-pure _)
    by_approval-Keeps now rejected = reject_stage-Keeps
    by_approval-Keeps now not_required = retry_gated-Keeps now
    by_approval-Keeps now approved = retry_gated-Keeps now

    approval_gated-Keeps :
        (now : ℕ)
        → Keeps (CyclesBounded c.max_cycles) (approval_gated services settings c events now)
    unfolding approval_gated
    approval_gated-Keeps now =
        by_approval-Keeps now (approval_gate_state events c.stage c.requires_approval)

  module _ (one : 1 ≤ settings.max_cycles)
      (bounded : BoundedServices settings.max_cycles services) where
    next_or_finish-Keeps :
        (task : Task) (prefs : Prefs) (mode : Text) (approval sdlc : Bool) (role : Text)
        (cycle now : ℕ) (events : List ProjectEvent) (stage : Option Text)
        → Keeps (CyclesBounded settings.max_cycles) (
            next_or_finish services settings task prefs mode approval sdlc role cycle now events
              stage)
    next_or_finish-Keeps task prefs mode approval sdlc role cycle now events none =
        Keeps-then _ _ (finalize_task-Keeps settings.max_cycles services task.id) (Keeps-pure _)
    next_or_finish-Keeps task prefs mode approval sdlc role cycle now events (some stage) =
        approval_gated-Keeps _ bounded events now

    advance-Keeps :
        (task : Task) (prefs : Prefs) (mode : Text) (approval sdlc : Bool) (now : ℕ)
        (events : List ProjectEvent)
        → Keeps
            (CyclesBounded settings.max_cycles)
            (advance services settings task prefs mode approval sdlc now events)
    unfolding advance bootstrap_if_needed
    advance-Keeps task prefs mode approval sdlc now events =
        Keeps-bind _ _ (update_task-Keeps settings.max_cycles task.id _) (λ updated.
          Keeps-bind _ _ (continue_or_start-Keeps settings.max_cycles one _ events _) (λ started.
            Keeps-bind _ _ (list_project_events-Keeps settings.max_cycles _ _)
              (λ events'. next_or_finish-Keeps _ prefs mode approval sdlc _ _ now events' _)))

    budget_gated-Keeps :
        (task : Task) (prefs : Prefs) (mode : Text) (approval : Bool) (events : List ProjectEvent)
        → Keeps
            (CyclesBounded settings.max_cycles)
            (budget_gated services settings task prefs mode approval events)
    unfolding budget_gated
    budget_gated-Keeps task prefs mode approval events =
        Keeps-bind _ _ (should_enforce_sdlc-Keeps settings.max_cycles task prefs) (λ sdlc.
          Keeps-bind _ _
            (quiet-Keeps settings.max_cycles (read_clock services settings) (λ s. refl))
            (λ now.
              Keeps-if (leb settings.max_total_steps (total_step_events events)) _ _
                (fail_task-Keeps settings.max_cycles services settings task.id
                  (codes "Max autonomy step budget reached."))
                (advance-Keeps task prefs mode approval sdlc now events)))

    by_children-Keeps :
        (task : Task) (prefs : Prefs) (mode : Text) (approval : Bool) (events : List ProjectEvent)
        (gate : ChildGate)
        → Keeps
            (CyclesBounded settings.max_cycles)
            (by_children services settings task prefs mode approval events gate)
    by_children-Keeps task prefs mode approval events awaiting_children = Keeps-pure _
    by_children-Keeps task prefs mode approval events (children_failed note) =
        fail_task-Keeps settings.max_cycles services settings task.id _
    by_children-Keeps task prefs mode approval events children_completed =
        Keeps-then _ _ (finalize_task-Keeps settings.max_cycles services task.id) (Keeps-pure _)
    by_children-Keeps task prefs mode approval events no_children =
        budget_gated-Keeps task prefs mode approval events

    note_mode-Keeps :
        (k : ℕ) (mode note : Text)
        → Keeps (CyclesBounded settings.max_cycles) (note_mode services settings k mode note)
    note_mode-Keeps k mode note =
        Keeps-if (is_empty note) _ _ (Keeps-pure tt)
          (Keeps-then _ _ (save-Keeps settings.max_cycles k _ _ refl) (Keeps-pure _))

    process_open_task-Keeps :
        (task : Task)
        → Keeps (CyclesBounded settings.max_cycles) (process_open_task services settings task)
    unfolding process_open_task
    process_open_task-Keeps task =
        Keeps-bind _ _ (list_project_events-Keeps settings.max_cycles _ _) (λ events.
          Keeps-bind _ _ (resolve_autonomy_mode-Keeps settings.max_cycles task _) (λ adjusted.
            Keeps-then _ _ (note_mode-Keeps task.id _ _) (
              Keeps-bind _ _ (child_gate_status-Keeps settings.max_cycles task.id events)
                (by_children-Keeps task _ _ _ events))))

    by_status-Keeps :
        (task : Task) (status : TaskStatus)
        → Keeps (CyclesBounded settings.max_cycles) (by_status services settings task status)
    by_status-Keeps task completed = Keeps-pure _
    by_status-Keeps task blocked = Keeps-pure _
    by_status-Keeps task new = process_open_task-Keeps task
    by_status-Keeps task in_progress = process_open_task-Keeps task

    by_task-Keeps :
        (k : ℕ) (task : Option Task)
        → Keeps (CyclesBounded settings.max_cycles) (by_task services settings k task)
    by_task-Keeps k none = Keeps-pure _
    by_task-Keeps k (some task) = by_status-Keeps task task.status

    list_tasks-Keeps :
        (limit : ℕ) (workspace_id : Option ℕ)
        → Keeps (CyclesBounded settings.max_cycles) (list_tasks limit workspace_id)
    unfolding list_tasks
    list_tasks-Keeps limit workspace_id =
        quiet-Keeps settings.max_cycles (list_tasks limit workspace_id) (λ s. refl)

    pub process_task-Keeps :
        (k : ℕ) → Keeps (CyclesBounded settings.max_cycles) (process_task services settings k)
    unfolding process_task
    process_task-Keeps k = Keeps-bind _ _ (get_task-Keeps settings.max_cycles k) (by_task-Keeps k)

    process_listed-Keeps :
        (tasks : List Task)
        → Keeps (CyclesBounded settings.max_cycles) (process_listed services settings tasks)
    unfolding process_listed
    process_listed-Keeps [] = Keeps-pure _
    process_listed-Keeps (task ∷ rest) =
        Keeps-if (is_pending services settings task.status) _ _
          (Keeps-bind _ _ (process_task-Keeps task.id)
            (λ r. Keeps-bind _ _ (process_listed-Keeps rest) (λ rs. Keeps-pure _)))
          (process_listed-Keeps rest)

    pub process_pending_tasks_once-Keeps :
        (limit : ℕ)
        → Keeps
            (CyclesBounded settings.max_cycles)
            (process_pending_tasks_once services settings limit)
    unfolding process_pending_tasks_once
    process_pending_tasks_once-Keeps limit =
        Keeps-bind _ _ (list_tasks-Keeps limit none) process_listed-Keeps
