-- ===== src/Autonomy/Outcomes.antt =====
-- services/orchestrator/app/services/autonomy_stage_outcomes.py and autonomy_stage_processor.py: what
-- follows a stage that ran. The texts of notes are left out.
use syncore.Common.{
  lower, ℕ, suc, ◌+◌, ◌-◌, leb, if◌then◌else◌, Text, codes, take, text_eq, strip, upper, contains,
  is_empty, reverse, Bool, not, ◌&&◌, ◌||◌, none, some, List, [], ◌∷◌, ◌++◌, pos,
}
use syncore.Models.{flag, int, text, field, ProjectEvent}
use syncore.Store.{Store, Action, Result, ok, err, Error, ◌>>=◌, ◌>>◌, pure}
use syncore.Store.Events.{list_project_events}
use syncore.Store.Workspaces.{save_autonomy_snapshot}
use syncore.Autonomy.Uuid.{uuid_text}
use syncore.Autonomy.Values.{has_type, latest_event, text_or_empty, stage_of}
use syncore.Autonomy.Gate.{stage_plan, stage_review}
use syncore.Autonomy.Stage.{
  Services, StageContext, StageRun, Quality, LoopStatus, failed, replanning, in_progress, completed,
  AutonomyResult, record_event, block_task, at_stage, start_cycle, record_feedback,
}
use syncore.Autonomy.Finalizer.{child_gate_status, finalize_task}
use syncore.Autonomy.Taxonomy.{FailureSettings, plan_signature}
use syncore.Autonomy.Failures.{handle_stage_failure}

-- `self._review_pass_keyword.upper() not in output.upper()`, with an empty keyword passing.
abbrev pub misses_keyword : Text → Text → Bool
misses_keyword keyword output =
    not (is_empty keyword) && not (contains (upper output) (upper keyword))

-- The loop of is_low_information_quality_failure, from the newest event on.
equal_quality_failures : Text → Text → List ProjectEvent → ℕ
equal_quality_failures stage signature [] = 0
equal_quality_failures stage signature (e ∷ es) =
    let rest = equal_quality_failures stage signature es in
    if not (has_type "autonomy.quality.failed" e)
    then rest
    else if text_eq (stage_of e) stage
        && text_eq (strip (text_or_empty (field "signature" e.event_data))) signature
    then suc rest
    else 0

abbrev pub finished : StageContext → StageRun → LoopStatus → AutonomyResult
finished c run status = record { task_id = c.task.id; status = status; run_id = run.run_id }

abbrev run_text : StageRun → Text
run_text run = elim run.run_id [ none ↦ codes "None" | some k ↦ uuid_text k ]

-- record_stage_completed; the count of the checklist is left out.
unfoldable pub record_stage_completed : StageContext → StageRun → Text → Quality → Action (Unit {0})
record_stage_completed c run strategy quality = do
  record_event c.task.id "autonomy.stage.completed" (
      at_stage c
      ++ ("run_id", text (run_text run))
        ∷ ("provider", text run.provider)
        ∷ ("target_model", text run.target_model)
        ∷ ("strategy", text strategy)
        ∷ [])
  save_autonomy_snapshot (record {
    task_id = c.task.id;
    cycle = c.cycle;
    stage = c.stage;
    state = "completed";
    strategy = strategy;
    quality_score = quality.score;
    details =
        ("quality_passed", flag quality.passed)
        ∷ ("quality_reasons", text quality.reasons)
        ∷ ("run_id", text (run_text run))
        ∷ ("sdlc_enforced", flag c.enforce_sdlc)
        ∷ [];
  })
  pure tt

module _ (services : Services) (settings : FailureSettings) (review_pass_keyword : Text) where
  unfoldable pub is_low_information_quality_failure : StageContext → Text → Action Bool
  unfolding equal_quality_failures stage_of text_or_empty
  is_low_information_quality_failure c signature = do
    events ← list_project_events (some c.task.id) 200
    pure (
        not (is_empty signature)
        && leb (settings.low_info_threshold - 1)
            (equal_quality_failures c.stage signature (reverse events)))

  unfoldable pub quality_failure_signature : StageContext → Quality → Action Text
  unfolding text_or_empty
  quality_failure_signature c quality = do
    plans ← list_project_events (some c.task.id) 300
    pure (
        services.signature (
          ("stage", c.stage)
          ∷ ("reason", take 160 (lower quality.reasons))
          ∷ ("plan_signature", plan_signature (latest_event plans "autonomy.execute_plan.created"))
          ∷ []))

  unfoldable pub stop_low_quality : StageContext → StageRun → Quality → Text → Action AutonomyResult
  stop_low_quality c run quality signature = do
    block_task c.task.id
    record_event c.task.id "autonomy.low_information_gain.detected" (
        at_stage c
        ++ ("failure_category", text (codes "quality_gate_failure"))
          ∷ ("signature", text signature)
          ∷ [])
    record_event c.task.id "autonomy.stopped.low_information_gain"
        (at_stage c ++ ("reason", text (take 250 quality.reasons)) ∷ [])
    pure (finished c run failed)

  unfoldable pub fail_quality : StageContext → StageRun → Quality → Action AutonomyResult
  fail_quality c run quality = do
    block_task c.task.id
    record_event c.task.id "autonomy.failed" (at_stage c ++ ("error", text quality.reasons) ∷ [])
    pure (finished c run failed)

  unfoldable pub replan_quality :
      StageContext → StageRun → Quality → Text → Text → Action AutonomyResult
  replan_quality c run quality strategy signature = do
    record_event c.task.id "autonomy.quality.failed" (
        at_stage c
        ++ ("reason", text (take 250 quality.reasons))
          ∷ ("next_cycle", int (pos (c.cycle + 1)))
          ∷ ("strategy", text strategy)
          ∷ ("quality_score", int (pos quality.score))
          ∷ ("signature", text signature)
          ∷ [])
    record_feedback c.task.id c.stage strategy (codes "quality_failed")
    start_cycle c.task.id (c.cycle + 1) []
    pure (finished c run replanning)

  -- handle_quality_outcome on a failed gate.
  unfoldable pub handle_quality_failure :
      StageContext → StageRun → Quality → Text → Action AutonomyResult
  handle_quality_failure c run quality strategy = do
    signature ← quality_failure_signature c quality
    low ← is_low_information_quality_failure c signature
    if settings.low_info_stop_enabled && low
        then stop_low_quality c run quality signature
        else if leb c.max_cycles c.cycle
        then fail_quality c run quality
        else replan_quality c run quality strategy signature

  unfoldable pub pass_review : StageContext → StageRun → Text → Action AutonomyResult
  pass_review c run strategy = do
    record_feedback c.task.id c.stage strategy (codes "success")
    services.record_meaningful_change_assessment c run
    finalize_task services c.task.id
    pure (finished c run completed)

  unfoldable pub fail_review : StageContext → StageRun → Action AutonomyResult
  fail_review c run = do
    block_task c.task.id
    record_event c.task.id "autonomy.failed" (
        ("stage", text stage_review)
        ∷ ("cycle", int (pos c.cycle))
        ∷ ("error", text (codes "Review did not satisfy pass gate; max cycles reached."))
        ∷ [])
    pure (finished c run failed)

  unfoldable pub replan_review : StageContext → StageRun → Action AutonomyResult
  replan_review c run = do
    record_event c.task.id "autonomy.review.failed" (
        ("cycle", int (pos c.cycle))
        ∷ ("required_keyword", text review_pass_keyword)
        ∷ ("next_cycle", int (pos (c.cycle + 1)))
        ∷ [])
    start_cycle c.task.id (c.cycle + 1) []
    pure (finished c run replanning)

  unfoldable pub handle_review_outcome : StageContext → StageRun → Text → Action AutonomyResult
  handle_review_outcome c run strategy =
      if services.is_local_echo_mode run || not (misses_keyword review_pass_keyword run.output_text)
      then pass_review c run strategy
      else if leb c.max_cycles c.cycle
      then fail_review c run
      else replan_review c run

  -- handle_stage_success: each way out answers "in_progress".
  unfoldable pub handle_stage_success : StageContext → StageRun → Text → Action AutonomyResult
  handle_stage_success c run strategy = do
    record_feedback c.task.id c.stage strategy (codes "success")
    if text_eq c.stage stage_plan then services.persist_execute_plan c run strategy else pure tt
    services.persist_stage_handoff_artifacts c run
    if text_eq c.stage stage_plan
        then (do
          services.spawn_subtasks_once c
          events ← list_project_events (some c.task.id) 500
          child_gate_status c.task.id events
          pure tt)
        else pure tt
    pure (finished c run in_progress)

  unfoldable pub after_run : StageContext → StageRun → Text → Quality → Action AutonomyResult
  after_run c run strategy quality =
      if not quality.passed
      then handle_quality_failure c run quality strategy
      else if text_eq c.stage stage_review
      then handle_review_outcome c run strategy
      else handle_stage_success c run strategy

  -- AutonomyStageProcessor.process
  unfoldable pub process : StageContext → List ProjectEvent → Action AutonomyResult
  process c events = do
    strategy ← services.select_replan_strategy events c
    run ← services.attempt c strategy
    let quality = services.assess c strategy run
    record_stage_completed c run strategy quality
    after_run c run strategy quality

  -- AutonomyStageProcessor.handle_failure
  unfoldable pub handle_failure : StageContext → List ProjectEvent → Error → Action AutonomyResult
  handle_failure c events error = do
    strategy ← services.select_replan_strategy events c
    handle_stage_failure services settings c events strategy error

  -- try: process … except (LookupError, OSError, RuntimeError, ValueError): handle_failure
  abbrev pub recover :
      StageContext
      → List ProjectEvent
      → Result AutonomyResult × Store
      → Result AutonomyResult × Store
  recover c events (ok r, s) = (ok r, s)
  recover c events (err e, s) = handle_failure c events e s

  unfoldable pub process_or_recover : StageContext → List ProjectEvent → Action AutonomyResult
  process_or_recover c events s = recover c events (process c events s)
