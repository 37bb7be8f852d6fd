-- ===== src/Autonomy/Process/Gates.antt =====
-- _execute_plan_gate and _implementation_recommendation_gate of autonomy_service.py.
use syncore.Common.{
  ℕ, ◌+◌, leb, if◌then◌else◌, Text, codes, take, text_eq, strip, is_empty, pos, split, keep, map,
  Bool, true, false, not, ◌&&◌, ◌||◌, Option, none, some, [], ◌∷◌,
}
use syncore.Models.{TaskType, implementation, int, text, field, ProjectEvent}
use syncore.Store.{Action, ◌>>=◌, ◌>>◌, pure}
use syncore.Store.Events.{list_project_events}
use syncore.Autonomy.Values.{latest_event, text_or_empty}
use syncore.Autonomy.Gate.{stage_execute}
use syncore.Autonomy.Uuid.{parse_uuid, uuid_text}
use syncore.Autonomy.Stage.{
  Services, StageContext, LoopStatus, in_progress, failed, replanning, SiblingState, ready, waiting,
  stopped, Prefs, pref, record_event, block_task, start_cycle,
}
use syncore.Autonomy.Process.Preferences.{Settings}

-- A gate lets the call go on, or ends it with a status.
pub data Gate : Type 0 where
  pass : Gate
  stop : LoopStatus → Gate

-- split_delimited: whether a piece is left
abbrev has_piece : ℕ → Text → Bool
has_piece delimiter value =
    elim (keep (λ t. not (is_empty t)) (map strip (split delimiter value))) [
      | [] ↦ false
      | x ∷ xs ↦ true
    ]

-- _execute_plan_is_concrete on what _latest_execute_plan reads from the event.
unfoldable pub is_concrete : ProjectEvent → Bool
unfolding text_or_empty
is_concrete e =
    not (is_empty (strip (text_or_empty (field "objective" e.event_data))))
    && (has_piece 44 (text_or_empty (field "verification_commands" e.event_data))
        || has_piece 44 (text_or_empty (field "target_files" e.event_data))
        || has_piece 124 (text_or_empty (field "actions" e.event_data)))

abbrev pub has_concrete_plan : Option ProjectEvent → Bool
has_concrete_plan none = false
has_concrete_plan (some e) = is_concrete e

abbrev pub parent_text : Prefs → Text
parent_text prefs = elim (pref "parent_task_id" prefs) [ none ↦ [] | some t ↦ t ]

unfoldable pub block_without_plan : StageContext → Action Gate
block_without_plan c = do
  block_task c.task.id
  record_event c.task.id "autonomy.implementation.blocked.missing_plan"
      (("cycle", int (pos c.cycle)) ∷ [])
  pure (stop failed)

unfoldable pub replan_without_plan : StageContext → Action Gate
replan_without_plan c = do
  record_event c.task.id "autonomy.execute_plan.missing"
      (("cycle", int (pos c.cycle)) ∷ ("parent_task_id", text (parent_text c.prefs)) ∷ [])
  start_cycle c.task.id (c.cycle + 1) (("reason", text (codes "missing_execute_plan")) ∷ [])
  pure (stop replanning)

unfoldable pub execute_plan_gate : Settings → StageContext → Action Gate
execute_plan_gate g c =
    if not (text_eq c.stage stage_execute) || not g.execute_plan_enabled then pure pass else do
      events ← list_project_events (some c.task.id) 300
      if has_concrete_plan (latest_event events "autonomy.execute_plan.created")
          then pure pass
          else if leb c.max_cycles c.cycle
          then block_without_plan c
          else replan_without_plan c

abbrev pub is_implementation : TaskType → Bool
is_implementation implementation = true
is_implementation _ = false

-- parse_uuid(prefs.get("parent_task_id"))
abbrev pub parent_of : Prefs → Option ℕ
parent_of prefs =
    let raw = strip (parent_text prefs) in if is_empty raw then none else parse_uuid raw

abbrev sibling_text : SiblingState → Text
sibling_text ready = codes "ready"
sibling_text (waiting note) = codes "waiting"
sibling_text (stopped note) = codes "blocked"

abbrev pub by_sibling : StageContext → ℕ → SiblingState → Action Gate
by_sibling c parent_id ready = pure pass
by_sibling c parent_id (stopped note) = do
  block_task c.task.id
  record_event c.task.id "autonomy.failed" (("error", text (take 250 note)) ∷ [])
  pure (stop failed)
by_sibling c parent_id (waiting note) = do
  record_event c.task.id "autonomy.implementation.blocked.missing_recommendation"
      (("parent_task_id", text (uuid_text parent_id)) ∷ [])
  pure (stop in_progress)

module _ (services : Services) where
  abbrev pub bind_sibling : StageContext → Option ℕ → Action Gate
  bind_sibling c none = pure pass
  bind_sibling c (some parent_id) = do
    state ← services.recommended_improvement_state parent_id
    record_event c.task.id "autonomy.implementation.bound" (
        ("stage", text c.stage)
        ∷ ("parent_task_id", text (uuid_text parent_id))
        ∷ ("recommendation_status", text (sibling_text state))
        ∷ [])
    by_sibling c parent_id state

  unfoldable pub implementation_recommendation_gate : StageContext → Action Gate
  implementation_recommendation_gate c =
      if not (text_eq c.stage stage_execute) || not (is_implementation c.task.task_type)
      then pure pass
      else bind_sibling c (parent_of c.prefs)
