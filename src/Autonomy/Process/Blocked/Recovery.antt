-- ===== src/Autonomy/Process/Blocked/Recovery.antt =====
-- The recovery from a stage that raised blocks the task whenever it answers that the task failed.
use syncore.Common.{ℕ, refl, leb, ltb, Text, ◌&&◌, List}
use syncore.Models.{ProjectEvent}
use syncore.Store.{Error}
use syncore.Autonomy.Stage.{Services, StageContext, record_event, record_feedback, start_cycle}
use syncore.Autonomy.Taxonomy.{
  Failure, FailureSettings, classify_failure, is_low_information_failure,
}
use syncore.Autonomy.Failures.{
  stop_low_information, record_stage_failed, record_retry, schedule_retry, replan_after_failure,
  give_up, after_failure, handle_stage_failure, read_clock,
}
use syncore.Autonomy.Process.Blocked.{
  Blocks, Always, answers_failed, Blocks-pure, Blocks-IsBlocked, Blocks-if, Blocks-bind,
  Blocks-then, Blocks-keep, Blocks-block, event-Keeps,
}

module _ (services : Services) (settings : FailureSettings) (c : StageContext) where
  stop_low_information-Blocks :
      (failure : Failure)
      → Blocks answers_failed c.task.id Always (stop_low_information services settings c failure)
  unfolding stop_low_information
  stop_low_information-Blocks failure = Blocks-block c.task.id _ (
      Blocks-keep _ _ (event-Keeps c.task.id c.task.id _ _)
        (Blocks-keep _ _ (event-Keeps c.task.id c.task.id _ _) (Blocks-IsBlocked _)))

  record_retry-Blocks :
      (attempt : ℕ) (failure : Failure) (now : ℕ)
      → Blocks answers_failed c.task.id Always
          (record_retry services settings c attempt failure now)
  unfolding record_retry
  record_retry-Blocks attempt failure now = Blocks-then (record_event _ _ _) _ (Blocks-pure _ refl)

  schedule_retry-Blocks :
      (attempt : ℕ) (failure : Failure)
      → Blocks answers_failed c.task.id Always (schedule_retry services settings c attempt failure)
  unfolding schedule_retry
  schedule_retry-Blocks attempt failure =
      Blocks-bind (read_clock services settings) _ (record_retry-Blocks attempt failure)

  replan_after_failure-Blocks :
      (strategy : Text) (failure : Failure)
      → Blocks answers_failed c.task.id Always
          (replan_after_failure services settings c strategy failure)
  unfolding replan_after_failure
  replan_after_failure-Blocks strategy failure =
      Blocks-then (record_feedback _ _ _ _) _
        (Blocks-then (start_cycle _ _ _) _ (Blocks-pure _ refl))

  give_up-Blocks :
      (strategy error : Text) (attempt : ℕ)
      → Blocks answers_failed c.task.id Always (give_up services settings c strategy error attempt)
  unfolding give_up
  give_up-Blocks strategy error attempt = Blocks-then (record_feedback _ _ _ _) _ (
      Blocks-block c.task.id _
        (Blocks-keep _ _ (event-Keeps c.task.id c.task.id _ _) (Blocks-IsBlocked _)))

  after_failure-Blocks :
      (strategy error : Text) (attempt : ℕ) (failure : Failure)
      → Blocks answers_failed c.task.id Always
          (after_failure services settings c strategy error attempt failure)
  unfolding after_failure
  after_failure-Blocks strategy error attempt failure =
      Blocks-if (failure.retry_allowed && leb attempt c.max_retries)
        (schedule_retry-Blocks attempt failure)
        (Blocks-if (failure.should_replan && ltb c.cycle c.max_cycles)
          (replan_after_failure-Blocks strategy failure) (give_up-Blocks strategy error attempt))

  pub handle_stage_failure-Blocks :
      (events : List ProjectEvent) (strategy : Text) (error : Error)
      → Blocks answers_failed c.task.id Always
          (handle_stage_failure services settings c events strategy error)
  unfolding handle_stage_failure
  handle_stage_failure-Blocks events strategy error =
      Blocks-bind (classify_failure services settings _ _) _ (λ failure.
        Blocks-bind (is_low_information_failure services settings _ _) _ (λ low.
          Blocks-if (settings.low_info_stop_enabled && low) (stop_low_information-Blocks failure) (
            Blocks-then (record_stage_failed services settings _ _ _ _ _) _
              (after_failure-Blocks strategy _ _ failure))))
