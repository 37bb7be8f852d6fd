-- ===== src/Autonomy/Process/Retry.antt =====
-- A scheduled retry holds the stage back until its time.
use syncore.Common.{
  Option, ℕ, zero, suc, ◌+◌, ◌-◌, ◌*◌, ◌^◌, ◌≤◌, ◌≡◌, refl, ap, ◌∙◌, arith, Text, text_eq,
  text_eq_refl, strip, lower, true, some, List, [], ◌∷◌, ◌++◌, reverse, reverse-append, pos,
}
use syncore.Models.{field, ProjectEvent, ProjectEventCreate, Fields, int, real, text}
use syncore.Store.{Store}
use syncore.Store.Events.{save_project_event}
use syncore.Store.Events.Window.{IsOrdered, window, tick-IsOrdered}
use syncore.Store.Events.Recent.{saved, before, window-save}
use syncore.Autonomy.Values.{in_cycle, int_or_one, event_int, stage_of, text_or_empty}
use syncore.Autonomy.Gate.{scheduled_retry_epoch, scheduled_retry_from}
use syncore.Autonomy.Stage.{Services, StageContext, at_stage}
use syncore.Autonomy.Taxonomy.{Failure, FailureSettings}
use syncore.Autonomy.Failures.{record_retry, schedule_retry}

-- An event of a stage and a cycle is found for that stage and that cycle.
in_cycle-pos :
    (cycle : ℕ) (e : ProjectEvent) (more : Fields) (stage : Text)
    → 1 ≤ cycle
    → e.event_data ≡ ("stage", text stage) ∷ ("cycle", int (pos cycle)) ∷ more
    → in_cycle cycle e ≡ true
unfolding in_cycle int_or_one event_int
in_cycle-pos zero e more stage h d = absurd (omega (arith, h))
in_cycle-pos (suc n) e more stage h d = rw d (ground arith)

stage_of-stage :
    (e : ProjectEvent) (more : Fields) (stage : Text)
    → lower (strip stage) ≡ stage
    → e.event_data ≡ ("stage", text stage) ∷ more
    → text_eq (stage_of e) stage ≡ true
unfolding stage_of text_or_empty
stage_of-stage e more stage h d = rw (d, h) (text_eq_refl stage)

-- The retry event is the first that the loop finds.
scheduled_retry_from-hit :
    (parse : Text → Option ℕ) (e : ProjectEvent) (rest : List ProjectEvent) (more : Fields)
    (stage : Text) (cycle epoch : ℕ)
    → 1 ≤ cycle
    → lower (strip stage) ≡ stage
    → e.event_type ≡ "autonomy.retry.scheduled"
    → e.event_data ≡ ("stage", text stage) ∷ ("cycle", int (pos cycle)) ∷ more
    → field "retry_at_epoch" more ≡ real epoch
    → scheduled_retry_from parse (e ∷ rest) stage cycle ≡ some epoch
unfolding scheduled_retry_from stage_of in_cycle
scheduled_retry_from-hit parse e rest more stage cycle epoch h n t d f =
    rw (t, stage_of-stage e _ stage n d, in_cycle-pos cycle e more stage h d, d, f) refl

module _ (services : Services) (settings : FailureSettings) (c : StageContext) where
  -- A retry waits for its time: after schedule_retry, the retry gate finds in the events that the next
  -- process_task reads the time that was scheduled, the time of the clock and the base delay doubled
  -- for each attempt after the first, on a store whose events were saved as time went by, for a stage
  -- whose name is stripped and in lower case, in a cycle from 1 on.
  pub schedule_retry-scheduled_retry_epoch :
      (attempt : ℕ) (failure : Failure) (s : Store)
      → IsOrdered s
      → 1 ≤ c.cycle
      → lower (strip c.stage) ≡ c.stage
      → scheduled_retry_epoch services.parse_float
          (window (some c.task.id) 500 (schedule_retry services settings c attempt failure s).1)
          c.stage
          c.cycle
        ≡ some (s.clock s.tick + settings.retry_base_micros * 2 ^ (attempt - 1))
  unfolding schedule_retry record_retry scheduled_retry_epoch save_project_event
  schedule_retry-scheduled_retry_epoch attempt failure s h one n =
      let epoch = s.clock s.tick + settings.retry_base_micros * 2 ^ (attempt - 1) in
      let more : Fields =
        ("attempt", int (pos attempt))
        ∷ ("retry_at_epoch", real epoch)
        ∷ ("failure_category", text failure.category)
        ∷ [] in
      let event : ProjectEventCreate = record {
        task_id = c.task.id;
        event_type = "autonomy.retry.scheduled";
        event_data = at_stage c ++ more;
      } in
      let later : Store = record s { tick = suc s.tick } in
      let e = saved event later in
      ap (λ es. scheduled_retry_from services.parse_float (reverse es) c.stage c.cycle)
        (window-save event later (tick-IsOrdered s h))
      ∙ ap (λ es. scheduled_retry_from services.parse_float es c.stage c.cycle)
          (reverse-append (before c.task.id later) (e ∷ []))
      ∙ scheduled_retry_from-hit services.parse_float e (reverse (before c.task.id later)) more
          c.stage c.cycle epoch one n refl refl refl
