-- ===== src/Autonomy/Process/Cycles/Outcomes.antt =====
-- Neither a stage that ran nor one that raised starts a cycle past the limit.
use syncore.Common.{◌<◌, refl, leb, arith, Text, text_eq, not, ◌&&◌, List, ◌||◌}
use syncore.Models.{ProjectEvent}
use syncore.Store.{Store, Result, ok, err, Error}
use syncore.Store.Keeps.{Keeps, Keeps-bind, Keeps-then, Keeps-if, Keeps-if_of, Keeps-pure}
use syncore.Autonomy.Gate.{stage_plan, stage_review}
use syncore.Autonomy.Stage.{Services, StageContext, StageRun, Quality, AutonomyResult}
use syncore.Autonomy.Taxonomy.{FailureSettings}
use syncore.Autonomy.Outcomes.{
  record_stage_completed, quality_failure_signature, is_low_information_quality_failure,
  stop_low_quality, fail_quality, replan_quality, handle_quality_failure, pass_review, fail_review,
  replan_review, handle_review_outcome, handle_stage_success, after_run, process, handle_failure,
  recover, process_or_recover, misses_keyword,
}
use syncore.Autonomy.Process.Cycles.{
  CyclesBounded, BoundedServices, save-Keeps, start-Keeps, list_project_events-Keeps,
  snapshot-Keeps, block-Keeps, feedback-Keeps,
}
use syncore.Autonomy.Process.Cycles.Recovery.{handle_stage_failure-Keeps}
use syncore.Autonomy.Process.Cycles.Finish.{finalize_task-Keeps, child_gate_status-Keeps}

module _ (services : Services) (settings : FailureSettings) (keyword : Text) (c : StageContext)
    (bounded : BoundedServices c.max_cycles services) where
  record_stage_completed-Keeps :
      (run : StageRun) (strategy : Text) (quality : Quality)
      → Keeps (CyclesBounded c.max_cycles) (record_stage_completed c run strategy quality)
  unfolding record_stage_completed
  record_stage_completed-Keeps run strategy quality =
      Keeps-then _ _ (save-Keeps c.max_cycles c.task.id _ _ refl)
        (Keeps-then _ _ (snapshot-Keeps c.max_cycles _) (Keeps-pure _))

  stop_low_quality-Keeps :
      (run : StageRun) (quality : Quality) (signature : Text)
      → Keeps
          (CyclesBounded c.max_cycles)
          (stop_low_quality services settings keyword c run quality signature)
  unfolding stop_low_quality
  stop_low_quality-Keeps run quality signature =
      Keeps-then _ _ (block-Keeps c.max_cycles c.task.id) (
        Keeps-then _ _ (save-Keeps c.max_cycles c.task.id _ _ refl)
          (Keeps-then _ _ (save-Keeps c.max_cycles c.task.id _ _ refl) (Keeps-pure _)))

  fail_quality-Keeps :
      (run : StageRun) (quality : Quality)
      → Keeps (CyclesBounded c.max_cycles) (fail_quality services settings keyword c run quality)
  unfolding fail_quality
  fail_quality-Keeps run quality =
      Keeps-then _ _ (block-Keeps c.max_cycles c.task.id)
        (Keeps-then _ _ (save-Keeps c.max_cycles c.task.id _ _ refl) (Keeps-pure _))

  replan_quality-Keeps :
      (run : StageRun) (quality : Quality) (strategy signature : Text)
      → c.cycle < c.max_cycles
      → Keeps
          (CyclesBounded c.max_cycles)
          (replan_quality services settings keyword c run quality strategy signature)
  unfolding replan_quality
  replan_quality-Keeps run quality strategy signature room =
      Keeps-then _ _ (save-Keeps c.max_cycles c.task.id _ _ refl) (
        Keeps-then _ _ (feedback-Keeps c.max_cycles c.task.id c.stage strategy _)
          (Keeps-then _ _ (start-Keeps c.max_cycles c.task.id c.cycle _ room) (Keeps-pure _)))

  handle_quality_failure-Keeps :
      (run : StageRun) (quality : Quality) (strategy : Text)
      → Keeps
          (CyclesBounded c.max_cycles)
          (handle_quality_failure services settings keyword c run quality strategy)
  unfolding handle_quality_failure quality_failure_signature is_low_information_quality_failure
  handle_quality_failure-Keeps run quality strategy =
      Keeps-bind _ _
        (Keeps-bind _ _ (list_project_events-Keeps c.max_cycles _ _) (λ plans. Keeps-pure _))
        (λ signature.
          Keeps-bind _ _
            (Keeps-bind _ _ (list_project_events-Keeps c.max_cycles _ _) (λ events. Keeps-pure _))
            (λ low.
              Keeps-if (settings.low_info_stop_enabled && low) _ _
                (stop_low_quality-Keeps run quality signature)
                (Keeps-if_of (leb c.max_cycles c.cycle) _ _ (λ e. fail_quality-Keeps run quality)
                  (λ e. replan_quality-Keeps run quality strategy signature (ground (arith, e))))))

  pass_review-Keeps :
      (run : StageRun) (strategy : Text)
      → Keeps (CyclesBounded c.max_cycles) (pass_review services settings keyword c run strategy)
  unfolding pass_review
  pass_review-Keeps run strategy =
      Keeps-then _ _ (feedback-Keeps c.max_cycles c.task.id c.stage strategy _) (
        Keeps-then _ _ (bounded.assessment c run)
          (Keeps-then _ _ (finalize_task-Keeps c.max_cycles services c.task.id) (Keeps-pure _)))

  fail_review-Keeps :
      (run : StageRun)
      → Keeps (CyclesBounded c.max_cycles) (fail_review services settings keyword c run)
  unfolding fail_review
  fail_review-Keeps run =
      Keeps-then _ _ (block-Keeps c.max_cycles c.task.id)
        (Keeps-then _ _ (save-Keeps c.max_cycles c.task.id _ _ refl) (Keeps-pure _))

  replan_review-Keeps :
      (run : StageRun)
      → c.cycle < c.max_cycles
      → Keeps (CyclesBounded c.max_cycles) (replan_review services settings keyword c run)
  unfolding replan_review
  replan_review-Keeps run room =
      Keeps-then _ _ (save-Keeps c.max_cycles c.task.id _ _ refl)
        (Keeps-then _ _ (start-Keeps c.max_cycles c.task.id c.cycle _ room) (Keeps-pure _))

  handle_review_outcome-Keeps :
      (run : StageRun) (strategy : Text)
      → Keeps
          (CyclesBounded c.max_cycles)
          (handle_review_outcome services settings keyword c run strategy)
  unfolding handle_review_outcome
  handle_review_outcome-Keeps run strategy =
      Keeps-if (services.is_local_echo_mode run || not (misses_keyword keyword run.output_text)) _ _
        (pass_review-Keeps run strategy)
        (Keeps-if_of (leb c.max_cycles c.cycle) _ _ (λ e. fail_review-Keeps run)
          (λ e. replan_review-Keeps run (ground (arith, e))))

  handle_stage_success-Keeps :
      (run : StageRun) (strategy : Text)
      → Keeps
          (CyclesBounded c.max_cycles)
          (handle_stage_success services settings keyword c run strategy)
  unfolding handle_stage_success
  handle_stage_success-Keeps run strategy =
      Keeps-then _ _ (feedback-Keeps c.max_cycles c.task.id c.stage strategy _) (
        Keeps-then _ _
          (Keeps-if (text_eq c.stage stage_plan) _ _ (bounded.plan c run strategy) (Keeps-pure tt))
          (Keeps-then _ _ (bounded.handoff c run) (
            Keeps-then _ _
              (Keeps-if (text_eq c.stage stage_plan) _ _
                (Keeps-then _ _ (bounded.spawn c) (
                  Keeps-bind _ _ (list_project_events-Keeps c.max_cycles _ _) (λ events.
                    Keeps-then _ _ (child_gate_status-Keeps c.max_cycles _ events)
                      (Keeps-pure tt))))
                (Keeps-pure tt))
              (Keeps-pure _))))

  after_run-Keeps :
      (run : StageRun) (strategy : Text) (quality : Quality)
      → Keeps
          (CyclesBounded c.max_cycles)
          (after_run services settings keyword c run strategy quality)
  unfolding after_run
  after_run-Keeps run strategy quality =
      Keeps-if (not quality.passed) _ _ (handle_quality_failure-Keeps run quality strategy) (
        Keeps-if (text_eq c.stage stage_review) _ _ (handle_review_outcome-Keeps run strategy)
          (handle_stage_success-Keeps run strategy))

  process-Keeps :
      (events : List ProjectEvent)
      → Keeps (CyclesBounded c.max_cycles) (process services settings keyword c events)
  unfolding process
  process-Keeps events = Keeps-bind _ _ (bounded.select events c) (λ strategy.
      Keeps-bind _ _ (bounded.attempt c strategy) (λ run.
        Keeps-then _ _ (record_stage_completed-Keeps run strategy (services.assess c strategy run))
          (after_run-Keeps run strategy (services.assess c strategy run))))

  handle_failure-Keeps :
      (events : List ProjectEvent) (error : Error)
      → Keeps (CyclesBounded c.max_cycles) (handle_failure services settings keyword c events error)
  unfolding handle_failure
  handle_failure-Keeps events error =
      Keeps-bind _ _ (bounded.select events c)
        (λ strategy. handle_stage_failure-Keeps services settings c events strategy error)

  pub process_or_recover-Keeps :
      (events : List ProjectEvent)
      → Keeps (CyclesBounded c.max_cycles) (process_or_recover services settings keyword c events)
  unfolding process_or_recover
  process_or_recover-Keeps events = record {
    at = λ s h.
        recovered (process services settings keyword c events s) ((process-Keeps events).at s h);
  }
    where
      recovered :
          (out : Result AutonomyResult × Store)
          → CyclesBounded c.max_cycles out.1
          → CyclesBounded c.max_cycles (recover services settings keyword c events out).1
      recovered (ok r, s) h = h
      recovered (err e, s) h = (handle_failure-Keeps events e).at s h
