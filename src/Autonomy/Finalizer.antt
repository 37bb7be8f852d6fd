-- ===== src/Autonomy/Finalizer.antt =====
-- services/orchestrator/app/services/autonomy_finalizer.py
use syncore.Common.{
  ◌++◌, ℕ, ◌+◌, leb, ltb, if◌then◌else◌, Text, codes, take, length, reverse, split, strip, is_empty,
  keep, map, Bool, true, false, not, ◌&&◌, Option, none, some, List, [], ◌∷◌, pos,
}
use syncore.Models.{Task, TaskStatus, completed, blocked, to_status, int, text, field, ProjectEvent}
use syncore.Store.{Action, ◌>>=◌, ◌>>◌, pure}
use syncore.Store.Tasks.{get_task, update_task}
use syncore.Store.Events.{list_project_events, get_latest_baton_packet}
use syncore.Autonomy.Values.{has_type, latest_event, text_or_empty}
use syncore.Autonomy.Uuid.{parse_uuid, uuid_text}
use syncore.Autonomy.Stage.{Services, record_event}

-- The loop of latest_stage_completion, from the newest event on: the first run id that is there, or
-- None if it is no UUID.
abbrev stage_completion_from : List ProjectEvent → Option Text
stage_completion_from [] = none
stage_completion_from (e ∷ es) =
    let rest = stage_completion_from es in
    let raw = strip (text_or_empty (field "run_id" e.event_data)) in
    if has_type "autonomy.stage.completed" e && not (is_empty raw) then some raw else rest

unfoldable pub latest_stage_completion : List ProjectEvent → Option ℕ
unfolding text_or_empty
latest_stage_completion events = elim (stage_completion_from (reverse events)) [
  | none ↦ none
  | some raw ↦ parse_uuid raw
]

-- str(latest_run_id) if latest_run_id else ""
abbrev pub run_id_text : Option ℕ → Text
run_id_text none = []
run_id_text (some k) = uuid_text k

pub data ChildGate : Type 0 where
  no_children awaiting_children children_completed : ChildGate
  -- with its note
  children_failed : Text → ChildGate

-- The children that are found: how many are completed and active, and the ids of the blocked ones.
pub record Children : Type 0 where
  pub completed_count : ℕ
  pub blocked_ids : List Text
  pub active_count : ℕ

abbrev add_child : ℕ → TaskStatus → Children → Children
add_child id completed c = record c { completed_count = c.completed_count + 1 }
add_child id blocked c = record c { blocked_ids = c.blocked_ids ++ uuid_text id ∷ [] }
add_child id _ c = record c { active_count = c.active_count + 1 }

abbrev pub count_child : Option Task → Children → Children
count_child none c = c
count_child (some t) c = add_child t.id t.status c

unfoldable pub count_children : List Text → Children → Action Children
count_children [] c = pure c
count_children (raw ∷ rest) c = elim (parse_uuid raw) [
  | none ↦ count_children rest c
  | some k ↦ do child ← get_task k; count_children rest (count_child child c)
]

-- [item.strip() for item in raw_ids.split(",") if item.strip()]
abbrev pub child_ids_of : Text → List Text
child_ids_of raw_ids = keep (λ t. not (is_empty t)) (map strip (split 44 raw_ids))

abbrev pub spawned_ids : Option ProjectEvent → List Text
spawned_ids none = []
spawned_ids (some e) =
    let raw_ids = strip (text_or_empty (field "child_task_ids" e.event_data)) in
    if is_empty raw_ids then [] else child_ids_of raw_ids

-- ", ".join(items)
abbrev join : List Text → Text
join [] = []
join (t ∷ []) = t
join (t ∷ u ∷ rest) = t ++ codes ", " ++ join (u ∷ rest)

abbrev pub blocked_note : List Text → Text
blocked_note ids = codes "Child tasks blocked: " ++ join (take 5 ids) ++ codes "."

abbrev pub is_none : Option ProjectEvent → Bool
is_none none = true
is_none (some e) = false

unfoldable pub gate_of_children : ℕ → List ProjectEvent → ℕ → Children → Action ChildGate
gate_of_children task_id events count c =
    if ltb 0 (length c.blocked_ids)
    then pure (children_failed (blocked_note c.blocked_ids))
    else if leb count c.completed_count
    then (if is_none (latest_event events "autonomy.children.completed")
        then (do
          record_event task_id "autonomy.children.completed" (("count", int (pos count)) ∷ [])
          pure children_completed)
        else pure children_completed)
    else pure awaiting_children

abbrev no_one : Children
no_one = record { completed_count = 0; blocked_ids = []; active_count = 0 }

abbrev pub child_gate_of : ℕ → List ProjectEvent → List Text → Action ChildGate
child_gate_of task_id events [] = pure no_children
child_gate_of task_id events (first_id ∷ more) = do
  counted ← count_children (first_id ∷ more) no_one
  gate_of_children task_id events (length (first_id ∷ more)) counted

unfoldable pub child_gate_status : ℕ → List ProjectEvent → Action ChildGate
unfolding latest_event text_or_empty
child_gate_status task_id events =
    child_gate_of task_id events (spawned_ids (latest_event events "autonomy.subtasks.spawned"))

-- `if task.status != "completed"`
abbrev pub mark_status : ℕ → TaskStatus → Action (Unit {0})
mark_status task_id completed = pure tt
mark_status task_id _ = do update_task task_id (to_status completed); pure tt

abbrev pub mark_completed : ℕ → Option Task → Action (Unit {0})
mark_completed task_id none = pure tt
mark_completed task_id (some task) = mark_status task_id task.status

abbrev pub note_completion : ℕ → List ProjectEvent → Option ProjectEvent → Action (Unit {0})
note_completion task_id events (some e) = pure tt
note_completion task_id events none = do
  record_event task_id "autonomy.completed"
      (("run_id", text (run_id_text (latest_stage_completion events))) ∷ [])
  pure tt

module _ (services : Services) where
  unfoldable pub generate_digest_event : ℕ → Action (Unit {0})
  generate_digest_event task_id = do
    events ← list_project_events (some task_id) 200
    baton ← get_latest_baton_packet task_id
    record_event task_id "analyst.digest.generated" (services.digest events baton)
    pure tt

  unfoldable pub finalize_task : ℕ → Action (Unit {0})
  unfolding generate_digest_event
  finalize_task task_id = do
    task ← get_task task_id
    mark_completed task_id task
    events ← list_project_events (some task_id) 500
    note_completion task_id events (latest_event events "autonomy.completed")
    generate_digest_event task_id
