-- ===== src/Autonomy/Process/Blocked/Outcomes.antt =====
-- A stage that ran blocks the task whenever it answers that the task failed.
use syncore.Common.{some, if◌then◌else◌, refl, leb, Text, text_eq, not, ◌&&◌, ◌||◌, List}
use syncore.Models.{ProjectEvent}
use syncore.Store.{Store, Result, ok, err, Error, ◌>>=◌, ◌>>◌, pure}
use syncore.Autonomy.Gate.{stage_review, stage_plan}
use syncore.Autonomy.Finalizer.{finalize_task, child_gate_status}
use syncore.Store.Events.{list_project_events}
use syncore.Autonomy.Stage.{
  Services, StageContext, StageRun, Quality, AutonomyResult, record_event, record_feedback,
  start_cycle,
}
use syncore.Autonomy.Taxonomy.{FailureSettings}
use syncore.Autonomy.Outcomes.{
  quality_failure_signature, is_low_information_quality_failure, record_stage_completed,
  misses_keyword, stop_low_quality, fail_quality, replan_quality, handle_quality_failure,
  pass_review, fail_review, replan_review, handle_review_outcome, handle_stage_success, after_run,
  process, handle_failure, recover, process_or_recover,
}
use syncore.Autonomy.Process.Blocked.{
  Blocks, Always, Consistent, answers_failed, Blocks-pure, Blocks-IsBlocked, Blocks-if, Blocks-bind,
  Blocks-then, Blocks-keep, Blocks-block, event-Keeps,
}
use syncore.Autonomy.Process.Blocked.Recovery.{handle_stage_failure-Blocks}

module _ (services : Services) (settings : FailureSettings) (keyword : Text)
    (c : StageContext) where
  stop_low_quality-Blocks :
      (run : StageRun) (quality : Quality) (signature : Text)
      → Blocks answers_failed c.task.id Always
          (stop_low_quality services settings keyword c run quality signature)
  unfolding stop_low_quality
  stop_low_quality-Blocks run quality signature = Blocks-block c.task.id _ (
      Blocks-keep _ _ (event-Keeps c.task.id c.task.id _ _)
        (Blocks-keep _ _ (event-Keeps c.task.id c.task.id _ _) (Blocks-IsBlocked _)))

  fail_quality-Blocks :
      (run : StageRun) (quality : Quality)
      → Blocks answers_failed c.task.id Always
          (fail_quality services settings keyword c run quality)
  unfolding fail_quality
  fail_quality-Blocks run quality =
      Blocks-block c.task.id _
        (Blocks-keep _ _ (event-Keeps c.task.id c.task.id _ _) (Blocks-IsBlocked _))

  replan_quality-Blocks :
      (run : StageRun) (quality : Quality) (strategy signature : Text)
      → Blocks answers_failed c.task.id Always
          (replan_quality services settings keyword c run quality strategy signature)
  unfolding replan_quality
  replan_quality-Blocks run quality strategy signature = Blocks-then (record_event _ _ _) _ (
      Blocks-then (record_feedback _ _ _ _) _
        (Blocks-then (start_cycle _ _ _) _ (Blocks-pure _ refl)))

  handle_quality_failure-Blocks :
      (run : StageRun) (quality : Quality) (strategy : Text)
      → Blocks answers_failed c.task.id Always
          (handle_quality_failure services settings keyword c run quality strategy)
  unfolding handle_quality_failure
  handle_quality_failure-Blocks run quality strategy =
      Blocks-bind (quality_failure_signature services settings keyword _ _) _ (λ signature.
        Blocks-bind (is_low_information_quality_failure services settings keyword _ _) _ (λ low.
          Blocks-if (settings.low_info_stop_enabled && low)
            (stop_low_quality-Blocks run quality signature)
            (Blocks-if (leb c.max_cycles c.cycle) (fail_quality-Blocks run quality)
              (replan_quality-Blocks run quality strategy signature))))

  pass_review-Blocks :
      (run : StageRun) (strategy : Text)
      → Blocks answers_failed c.task.id Always
          (pass_review services settings keyword c run strategy)
  unfolding pass_review
  pass_review-Blocks run strategy = Blocks-then (record_feedback _ _ _ _) _ (
      Blocks-then (services.record_meaningful_change_assessment _ _) _
        (Blocks-then (finalize_task services _) _ (Blocks-pure _ refl)))

  fail_review-Blocks :
      (run : StageRun)
      → Blocks answers_failed c.task.id Always (fail_review services settings keyword c run)
  unfolding fail_review
  fail_review-Blocks run =
      Blocks-block c.task.id _
        (Blocks-keep _ _ (event-Keeps c.task.id c.task.id _ _) (Blocks-IsBlocked _))

  replan_review-Blocks :
      (run : StageRun)
      → Blocks answers_failed c.task.id Always (replan_review services settings keyword c run)
  unfolding replan_review
  replan_review-Blocks run =
      Blocks-then (record_event _ _ _) _ (Blocks-then (start_cycle _ _ _) _ (Blocks-pure _ refl))

  handle_review_outcome-Blocks :
      (run : StageRun) (strategy : Text)
      → Blocks answers_failed c.task.id Always
          (handle_review_outcome services settings keyword c run strategy)
  unfolding handle_review_outcome
  handle_review_outcome-Blocks run strategy =
      Blocks-if (services.is_local_echo_mode run || not (misses_keyword keyword run.output_text))
        (pass_review-Blocks run strategy)
        (Blocks-if (leb c.max_cycles c.cycle) (fail_review-Blocks run) (replan_review-Blocks run))

  handle_stage_success-Blocks :
      (run : StageRun) (strategy : Text)
      → Blocks answers_failed c.task.id Always
          (handle_stage_success services settings keyword c run strategy)
  unfolding handle_stage_success
  handle_stage_success-Blocks run strategy = Blocks-then (record_feedback _ _ _ _) _ (
      Blocks-then
        (if text_eq c.stage stage_plan then services.persist_execute_plan _ _ _ else pure tt) _
        (Blocks-then (services.persist_stage_handoff_artifacts _ _) _ (
          Blocks-then
            (if text_eq c.stage stage_plan
              then (do
                services.spawn_subtasks_once c
                events ← list_project_events (some c.task.id) 500
                child_gate_status c.task.id events
                pure tt)
              else pure tt)
            _ (Blocks-pure _ refl))))

  after_run-Blocks :
      (run : StageRun) (strategy : Text) (quality : Quality)
      → Blocks answers_failed c.task.id Always
          (after_run services settings keyword c run strategy quality)
  unfolding after_run
  after_run-Blocks run strategy quality =
      Blocks-if (not quality.passed) (handle_quality_failure-Blocks run quality strategy) (
        Blocks-if (text_eq c.stage stage_review) (handle_review_outcome-Blocks run strategy)
          (handle_stage_success-Blocks run strategy))

  process-Blocks :
      (events : List ProjectEvent)
      → Blocks answers_failed c.task.id Always (process services settings keyword c events)
  unfolding process
  process-Blocks events = Blocks-bind (services.select_replan_strategy _ _) _ (λ strategy.
      Blocks-bind (services.attempt _ _) _ (λ run.
        Blocks-then (record_stage_completed _ _ _ _) _
          (after_run-Blocks run strategy (services.assess c strategy run))))

  handle_failure-Blocks :
      (events : List ProjectEvent) (error : Error)
      → Blocks answers_failed c.task.id Always
          (handle_failure services settings keyword c events error)
  unfolding handle_failure
  handle_failure-Blocks events error =
      Blocks-bind (services.select_replan_strategy _ _) _
        (λ strategy. handle_stage_failure-Blocks services settings c events strategy error)

  pub process_or_recover-Blocks :
      (events : List ProjectEvent)
      → Blocks answers_failed c.task.id Always
          (process_or_recover services settings keyword c events)
  unfolding process_or_recover
  process_or_recover-Blocks events = record {
    at = λ s p.
        recovered (process services settings keyword c events s) ((process-Blocks events).at s tt);
  }
    where
      recovered :
          (out : Result AutonomyResult × Store)
          → Consistent answers_failed c.task.id out
          → Consistent answers_failed c.task.id (recover services settings keyword c events out)
      recovered (ok r, s) h = h
      recovered (err e, s) h = (handle_failure-Blocks events e).at s tt
