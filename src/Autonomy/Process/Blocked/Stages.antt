-- ===== src/Autonomy/Process/Blocked/Stages.antt =====
-- The gates and the stage behind them block the task whenever they answer that it failed.
use syncore.Common.{ℕ, refl, leb, Text, text_eq, Bool, not, ◌||◌, Option, none, some, List}
use syncore.Models.{ProjectEvent, Task}
use syncore.Store.Events.{list_project_events}
use syncore.Autonomy.Values.{latest_event}
use syncore.Autonomy.Gate.{
  ensure_approval_requested, stage_inflight, stage_execute, ApprovalState, not_required, awaiting,
  approved, rejected, approval_gate_state, scheduled_retry_epoch,
}
use syncore.Autonomy.Stage.{
  record_event, start_cycle, Services, StageContext, SiblingState, ready, waiting, stopped, Prefs,
}
use syncore.Autonomy.Finalizer.{finalize_task}
use syncore.Autonomy.Process.{
  run_stage, plan_gated, recommendation_gated, is_waiting_retry, retry_gated, reject_stage,
  by_approval, approval_gated, next_or_finish, fail_task,
}
use syncore.Autonomy.Process.Gates.{
  has_concrete_plan, block_without_plan, replan_without_plan, execute_plan_gate, parent_of,
  by_sibling, bind_sibling, implementation_recommendation_gate, is_implementation,
}
use syncore.Autonomy.Process.Preferences.{Settings, failure_settings}
use syncore.Autonomy.Process.Blocked.{
  Blocks, Always, answers_failed, stops_failed, Blocks-pure, Blocks-IsBlocked, Blocks-if,
  Blocks-bind, Blocks-then, Blocks-keep, Blocks-block, Blocks-gated, event-Keeps,
}
use syncore.Autonomy.Process.Blocked.Outcomes.{process_or_recover-Blocks}

module _ (services : Services) (settings : Settings) where
  module _ (c : StageContext) where
    block_without_plan-Blocks : Blocks stops_failed c.task.id Always (block_without_plan c)
    unfolding block_without_plan
    block_without_plan-Blocks =
        Blocks-block c.task.id _
          (Blocks-keep _ _ (event-Keeps c.task.id c.task.id _ _) (Blocks-IsBlocked _))

    replan_without_plan-Blocks : Blocks stops_failed c.task.id Always (replan_without_plan c)
    unfolding replan_without_plan
    replan_without_plan-Blocks =
        Blocks-then (record_event _ _ _) _ (Blocks-then (start_cycle _ _ _) _ (Blocks-pure _ refl))

    execute_plan_gate-Blocks : Blocks stops_failed c.task.id Always (execute_plan_gate settings c)
    unfolding execute_plan_gate
    execute_plan_gate-Blocks =
        Blocks-if (not (text_eq c.stage stage_execute) || not settings.execute_plan_enabled)
          (Blocks-pure _ refl)
          (Blocks-bind (list_project_events _ _) _ (λ events.
            Blocks-if (has_concrete_plan (latest_event events "autonomy.execute_plan.created"))
              (Blocks-pure _ refl)
              (Blocks-if (leb c.max_cycles c.cycle) block_without_plan-Blocks
                replan_without_plan-Blocks)))

    by_sibling-Blocks :
        (parent_id : ℕ) (state : SiblingState)
        → Blocks stops_failed c.task.id Always (by_sibling c parent_id state)
    by_sibling-Blocks parent_id ready = Blocks-pure _ refl
    by_sibling-Blocks parent_id (stopped note) =
        Blocks-block c.task.id _
          (Blocks-keep _ _ (event-Keeps c.task.id c.task.id _ _) (Blocks-IsBlocked _))
    by_sibling-Blocks parent_id (waiting note) =
        Blocks-then (record_event _ _ _) _ (Blocks-pure _ refl)

    bind_sibling-Blocks :
        (parent : Option ℕ) → Blocks stops_failed c.task.id Always (bind_sibling services c parent)
    bind_sibling-Blocks none = Blocks-pure _ refl
    bind_sibling-Blocks (some parent) =
        Blocks-bind (services.recommended_improvement_state _) _
          (λ state. Blocks-then (record_event _ _ _) _ (by_sibling-Blocks parent state))

    recommendation_gate-Blocks :
        Blocks stops_failed c.task.id Always (implementation_recommendation_gate services c)
    unfolding implementation_recommendation_gate
    recommendation_gate-Blocks =
        Blocks-if (not (text_eq c.stage stage_execute) || not (is_implementation c.task.task_type))
          (Blocks-pure _ refl) (bind_sibling-Blocks (parent_of c.prefs))

    module _ (events : List ProjectEvent) where
      run_stage-Blocks :
          Blocks answers_failed c.task.id Always (run_stage services settings c events)
      unfolding run_stage
      run_stage-Blocks = Blocks-if (stage_inflight events c.stage c.cycle) (Blocks-pure _ refl) (
          process_or_recover-Blocks services (failure_settings settings)
            settings.review_pass_keyword c events)

      plan_gated-Blocks :
          Blocks answers_failed c.task.id Always (plan_gated services settings c events)
      unfolding plan_gated
      plan_gated-Blocks = Blocks-gated c execute_plan_gate-Blocks run_stage-Blocks

      recommendation_gated-Blocks :
          Blocks answers_failed c.task.id Always (recommendation_gated services settings c events)
      unfolding recommendation_gated
      recommendation_gated-Blocks = Blocks-gated c recommendation_gate-Blocks plan_gated-Blocks

      retry_gated-Blocks :
          (now : ℕ)
          → Blocks answers_failed c.task.id Always (retry_gated services settings c events now)
      unfolding retry_gated
      retry_gated-Blocks now =
          Blocks-if
            (is_waiting_retry services settings
              (scheduled_retry_epoch services.parse_float events c.stage c.cycle) now)
            (Blocks-pure _ refl) recommendation_gated-Blocks

      by_approval-Blocks :
          (now : ℕ) (state : ApprovalState)
          → Blocks answers_failed c.task.id Always
              (by_approval services settings c events now state)
      unfolding reject_stage
      by_approval-Blocks now awaiting =
          Blocks-then (ensure_approval_requested _ _) _ (Blocks-pure _ refl)
      by_approval-Blocks now rejected =
          Blocks-block c.task.id _
            (Blocks-keep _ _ (event-Keeps c.task.id c.task.id _ _) (Blocks-IsBlocked _))
      by_approval-Blocks now not_required = retry_gated-Blocks now
      by_approval-Blocks now approved = retry_gated-Blocks now

      approval_gated-Blocks :
          (now : ℕ)
          → Blocks answers_failed c.task.id Always (approval_gated services settings c events now)
      unfolding approval_gated
      approval_gated-Blocks now =
          by_approval-Blocks now (approval_gate_state events c.stage c.requires_approval)

  pub fail_task-Blocks :
      (k : ℕ) (error : Text) → Blocks answers_failed k Always (fail_task services settings k error)
  unfolding fail_task
  fail_task-Blocks k error =
      Blocks-block k _ (Blocks-keep _ _ (event-Keeps k k _ _) (Blocks-IsBlocked _))

  pub next_or_finish-Blocks :
      (task : Task) (prefs : Prefs) (mode : Text) (approval sdlc : Bool) (role : Text)
      (cycle now : ℕ) (events : List ProjectEvent) (stage : Option Text)
      → Blocks answers_failed task.id Always (
          next_or_finish services settings task prefs mode approval sdlc role cycle now events
            stage)
  next_or_finish-Blocks task prefs mode approval sdlc role cycle now events none =
      Blocks-then (finalize_task services _) _ (Blocks-pure _ refl)
  next_or_finish-Blocks task prefs mode approval sdlc role cycle now events (some stage) =
      approval_gated-Blocks _ events now
