-- ===== src/Autonomy/Gate/Tests.antt =====
-- The task gate on the events of one task.
use syncore.Common.{
  ◌<◌, ◌≤◌, ◌≡◌, refl, arith, codes, leb, false, first, not, some, [], ◌∷◌, ◌++◌, pos, length,
}
use syncore.Models.{ProjectEvent, text, int}
use syncore.Store.Events.Window.{window}
use syncore.Autonomy.Values.{in_cycle, stage_of}
use syncore.Autonomy.Gate.{next_stage, total_step_events, stages, stage_execute}
use syncore.Autonomy.Gate.Stages.{
  next_stage-eq-first, next_stage-progress, is_completed, completed_count,
}
use syncore.Autonomy.Gate.Budget.{total_step_events-lt}
use syncore.Samples.{event, empty_store}

abbrev planned : ProjectEvent
planned =
    event 3 7 "autonomy.stage.completed"
      (("stage", text (codes "plan")) ∷ ("cycle", int (pos 1)) ∷ [])

abbrev executed : ProjectEvent
executed =
    event 4 7 "autonomy.stage.completed"
      (("stage", text (codes "execute")) ∷ ("cycle", int (pos 1)) ∷ [])

-- The stage after the plan is execute.
next_stage-run : next_stage (planned ∷ []) 1 stages ≡ some stage_execute
unfolding next_stage in_cycle stage_of
next_stage-run = refl

next_stage-eq-first_example :
    next_stage (planned ∷ []) 1 stages
    ≡ first (λ stage. not (is_completed (planned ∷ []) 1 stage)) stages
next_stage-eq-first_example = next_stage-eq-first (planned ∷ []) 1 stages

next_stage-progress_example :
    (completed_count (planned ∷ []) 1 stages
      < completed_count (planned ∷ [] ++ executed ∷ []) 1 stages)
    × (completed_count (planned ∷ [] ++ executed ∷ []) 1 stages ≤ length stages)
unfolding in_cycle stage_of
next_stage-progress_example =
    next_stage-progress (planned ∷ []) executed 1 stages stage_execute next_stage-run refl

total_step_events-lt_example :
    leb 250 (total_step_events (window (some 7) 500 (record empty_store { events = planned ∷ [] })))
    ≡ false
total_step_events-lt_example =
    total_step_events-lt (record empty_store { events = planned ∷ [] }) 7 250 (omega arith)
