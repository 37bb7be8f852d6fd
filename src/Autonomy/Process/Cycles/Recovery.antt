-- ===== src/Autonomy/Process/Cycles/Recovery.antt =====
-- The recovery from a stage that raised starts no cycle past the limit.
use syncore.Common.{ℕ, ◌<◌, refl, arith, Text, List}
use syncore.Models.{ProjectEvent}
use syncore.Store.{Error}
use syncore.Store.Keeps.{Keeps, Keeps-bind, Keeps-then, Keeps-if, Keeps-if_of, Keeps-pure}
use syncore.Autonomy.Stage.{Services, StageContext}
use syncore.Autonomy.Taxonomy.{
  Failure, FailureSettings, classify_failure, is_low_information_failure,
}
use syncore.Autonomy.Failures.{
  stop_low_information, record_stage_failed, record_retry, schedule_retry, replan_after_failure,
  give_up, after_failure, handle_stage_failure, read_clock,
}
use syncore.Autonomy.Process.Cycles.{
  CyclesBounded, save-Keeps, start-Keeps, quiet-Keeps, list_project_events-Keeps, snapshot-Keeps,
  block-Keeps, feedback-Keeps,
}

module _ (services : Services) (settings : FailureSettings) (c : StageContext) where
  stop_low_information-Keeps :
      (failure : Failure)
      → Keeps (CyclesBounded c.max_cycles) (stop_low_information services settings c failure)
  unfolding stop_low_information
  stop_low_information-Keeps failure = Keeps-then _ _ (block-Keeps c.max_cycles c.task.id) (
      Keeps-then _ _ (save-Keeps c.max_cycles c.task.id _ _ refl)
        (Keeps-then _ _ (save-Keeps c.max_cycles c.task.id _ _ refl) (Keeps-pure _)))

  record_stage_failed-Keeps :
      (strategy error : Text) (attempt : ℕ) (failure : Failure)
      → Keeps
          (CyclesBounded c.max_cycles)
          (record_stage_failed services settings c strategy error attempt failure)
  unfolding record_stage_failed
  record_stage_failed-Keeps strategy error attempt failure =
      Keeps-then _ _ (save-Keeps c.max_cycles c.task.id _ _ refl)
        (Keeps-then _ _ (snapshot-Keeps c.max_cycles _) (Keeps-pure _))

  record_retry-Keeps :
      (attempt : ℕ) (failure : Failure) (now : ℕ)
      → Keeps (CyclesBounded c.max_cycles) (record_retry services settings c attempt failure now)
  unfolding record_retry
  record_retry-Keeps attempt failure now =
      Keeps-then _ _ (save-Keeps c.max_cycles c.task.id _ _ refl) (Keeps-pure _)

  schedule_retry-Keeps :
      (attempt : ℕ) (failure : Failure)
      → Keeps (CyclesBounded c.max_cycles) (schedule_retry services settings c attempt failure)
  unfolding schedule_retry
  schedule_retry-Keeps attempt failure =
      Keeps-bind (read_clock services settings) (record_retry services settings c attempt failure)
        (quiet-Keeps c.max_cycles (read_clock services settings) (λ s. refl))
        (record_retry-Keeps attempt failure)

  give_up-Keeps :
      (strategy error : Text) (attempt : ℕ)
      → Keeps (CyclesBounded c.max_cycles) (give_up services settings c strategy error attempt)
  unfolding give_up
  give_up-Keeps strategy error attempt =
      Keeps-then _ _ (feedback-Keeps c.max_cycles c.task.id c.stage strategy _) (
        Keeps-then _ _ (block-Keeps c.max_cycles c.task.id)
          (Keeps-then _ _ (save-Keeps c.max_cycles c.task.id _ _ refl) (Keeps-pure _)))

  replan_after_failure-Keeps :
      (strategy : Text) (failure : Failure)
      → c.cycle < c.max_cycles
      → Keeps
          (CyclesBounded c.max_cycles)
          (replan_after_failure services settings c strategy failure)
  unfolding replan_after_failure
  replan_after_failure-Keeps strategy failure room =
      Keeps-then _ _ (feedback-Keeps c.max_cycles c.task.id c.stage strategy _)
        (Keeps-then _ _ (start-Keeps c.max_cycles c.task.id c.cycle _ room) (Keeps-pure _))

  after_failure-Keeps :
      (strategy error : Text) (attempt : ℕ) (failure : Failure)
      → Keeps
          (CyclesBounded c.max_cycles)
          (after_failure services settings c strategy error attempt failure)
  unfolding after_failure
  after_failure-Keeps strategy error attempt failure =
      Keeps-if _ _ _ (schedule_retry-Keeps attempt failure) (
        Keeps-if_of _ _ _ (λ e. replan_after_failure-Keeps strategy failure (ground (arith, e)))
          (λ e. give_up-Keeps strategy error attempt))

  pub handle_stage_failure-Keeps :
      (events : List ProjectEvent) (strategy : Text) (error : Error)
      → Keeps
          (CyclesBounded c.max_cycles)
          (handle_stage_failure services settings c events strategy error)
  unfolding handle_stage_failure classify_failure is_low_information_failure
  handle_stage_failure-Keeps events strategy error =
      Keeps-bind _ _
        (Keeps-bind _ _ (list_project_events-Keeps c.max_cycles _ _)
          (λ es. Keeps-bind _ _ (list_project_events-Keeps c.max_cycles _ _) (λ ps. Keeps-pure _)))
        (λ failure.
          Keeps-bind _ _
            (Keeps-bind _ _ (list_project_events-Keeps c.max_cycles _ _) (λ es. Keeps-pure _))
            (λ low. Keeps-if _ _ _ (stop_low_information-Keeps failure) (
              Keeps-then _ _ (record_stage_failed-Keeps strategy _ _ failure)
                (after_failure-Keeps strategy _ _ failure))))
