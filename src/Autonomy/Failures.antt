-- ===== src/Autonomy/Failures.antt =====
-- services/orchestrator/app/services/autonomy_stage_failures.py: what happens when a stage raises.
-- Delays are in microseconds.
use syncore.Common.{
  ℕ, suc, ◌+◌, ◌-◌, ◌*◌, ◌^◌, leb, ltb, if◌then◌else◌, Text, codes, take, Bool, ◌&&◌, none, List,
  [], ◌∷◌, ◌++◌, pos,
}
use syncore.Models.{flag, int, real, text, ProjectEvent}
use syncore.Store.{Action, ok, Error, ◌>>=◌, ◌>>◌, pure}
use syncore.Store.Workspaces.{save_autonomy_snapshot}
use syncore.Store.{message}
use syncore.Autonomy.Gate.{failed_attempts}
use syncore.Autonomy.Stage.{
  Services, StageContext, LoopStatus, failed, retry_scheduled, replanning, AutonomyResult,
  record_event, block_task, at_stage, start_cycle, record_feedback,
}
use syncore.Autonomy.Taxonomy.{
  Failure, FailureSettings, classify_failure, is_low_information_failure,
}

module _ (services : Services) (settings : FailureSettings) where
  abbrev pub answer : StageContext → LoopStatus → AutonomyResult
  answer c status = record { task_id = c.task.id; status = status; run_id = none }

  unfoldable pub stop_low_information : StageContext → Failure → Action AutonomyResult
  stop_low_information c failure = do
    block_task c.task.id
    record_event c.task.id "autonomy.low_information_gain.detected" (
        at_stage c
        ++ ("failure_category", text failure.category)
          ∷ ("signature", text (take 250 failure.signature))
          ∷ [])
    record_event c.task.id "autonomy.stopped.low_information_gain"
        (at_stage c ++ ("reason", text (take 250 failure.reason)) ∷ [])
    pure (answer c failed)

  unfoldable pub record_stage_failed : StageContext → Text → Text → ℕ → Failure → Action (Unit {0})
  record_stage_failed c strategy error attempt failure = do
    record_event c.task.id "autonomy.stage.failed" (
        at_stage c
        ++ ("attempt", int (pos attempt))
          ∷ ("error", text (take 250 error))
          ∷ ("strategy", text strategy)
          ∷ ("failure_category", text failure.category)
          ∷ ("retry_allowed", flag failure.retry_allowed)
          ∷ ("should_replan", flag failure.should_replan)
          ∷ ("recommended_strategy", text (take 120 failure.strategy))
          ∷ ("signature", text (take 250 failure.signature))
          ∷ [])
    save_autonomy_snapshot (record {
      task_id = c.task.id;
      cycle = c.cycle;
      stage = c.stage;
      state = "failed";
      strategy = strategy;
      quality_score = 0;
      details =
          ("attempt", int (pos attempt))
          ∷ ("error", text (take 250 error))
          ∷ ("failure_category", text failure.category)
          ∷ ("recommended_strategy", text failure.strategy)
          ∷ ("signature", text (take 250 failure.signature))
          ∷ [];
    })
    pure tt

  -- datetime.now(timezone.utc).timestamp(), in microseconds
  abbrev pub read_clock : Action ℕ
  read_clock s = (ok (s.clock s.tick), record s { tick = suc s.tick })

  unfoldable pub record_retry : StageContext → ℕ → Failure → ℕ → Action AutonomyResult
  record_retry c attempt failure now = do
    record_event c.task.id "autonomy.retry.scheduled" (
        at_stage c
        ++ ("attempt", int (pos attempt))
          ∷ ("retry_at_epoch", real (now + settings.retry_base_micros * 2 ^ (attempt - 1)))
          ∷ ("failure_category", text failure.category)
          ∷ [])
    pure (answer c retry_scheduled)

  unfoldable pub schedule_retry : StageContext → ℕ → Failure → Action AutonomyResult
  schedule_retry c attempt failure = do now ← read_clock; record_retry c attempt failure now

  unfoldable pub replan_after_failure : StageContext → Text → Failure → Action AutonomyResult
  replan_after_failure c strategy failure = do
    record_feedback c.task.id c.stage strategy (codes "replan_required")
    start_cycle c.task.id (c.cycle + 1) (("failure_category", text failure.category) ∷ [])
    pure (answer c replanning)

  unfoldable pub give_up : StageContext → Text → Text → ℕ → Action AutonomyResult
  give_up c strategy error attempt = do
    record_feedback c.task.id c.stage strategy (codes "failed")
    block_task c.task.id
    record_event c.task.id "autonomy.failed"
        (at_stage c ++ ("attempt", int (pos attempt)) ∷ ("error", text (take 250 error)) ∷ [])
    pure (answer c failed)

  -- What follows the failure event: a retry, a new cycle, or the end.
  unfoldable pub after_failure : StageContext → Text → Text → ℕ → Failure → Action AutonomyResult
  after_failure c strategy error attempt failure =
      if failure.retry_allowed && leb attempt c.max_retries
      then schedule_retry c attempt failure
      else if failure.should_replan && ltb c.cycle c.max_cycles
      then replan_after_failure c strategy failure
      else give_up c strategy error attempt

  abbrev pub stop_or_go : StageContext → Text → Text → ℕ → Failure → Bool → Action AutonomyResult
  stop_or_go c strategy error attempt failure low =
      if settings.low_info_stop_enabled && low then stop_low_information c failure else do
        record_stage_failed c strategy error attempt failure
        after_failure c strategy error attempt failure

  unfoldable pub handle_stage_failure :
      StageContext → List ProjectEvent → Text → Error → Action AutonomyResult
  handle_stage_failure c events strategy error = do
    let attempt = failed_attempts events c.stage c.cycle + 1
    failure ← classify_failure services settings c (message error)
    low ← is_low_information_failure services settings c failure.signature
    stop_or_go c strategy (message error) attempt failure low
