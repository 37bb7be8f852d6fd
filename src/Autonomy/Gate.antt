-- ===== src/Autonomy/Gate.antt =====
-- services/orchestrator/app/services/autonomy_task_gate.py: what the events of a task say about its
-- cycle, its stages, its approval and its retries.
pub mod Stages
pub mod Budget
pub mod Tests
use syncore.Common.{
  ℕ, zero, suc, ◌*◌, ltb, leb, ◌==◌, if◌then◌else◌, Text, codes, text_eq, ℤ, pos, negsuc, Bool,
  true, false, not, ◌&&◌, ◌||◌, Option, none, some, List, [], ◌∷◌, ◌++◌, String, reverse, count_if,
  any,
}
use syncore.Models.{
  Value, null, flag, int, real, text, Fields, field, ProjectEvent, ProjectEventCreate,
}
use syncore.Store.{Action, Store, ◌>>=◌, ◌>>◌, pure}
use syncore.Store.Events.{save_project_event}
use syncore.Autonomy.Values.{
  text_or_empty, event_bool, event_int, int_or_one, in_cycle, stage_of, has_type, latest_event,
}

-- AUTONOMY_STAGES
abbrev pub stage_plan : Text
stage_plan = codes "plan"

abbrev pub stage_execute : Text
stage_execute = codes "execute"

abbrev pub stage_review : Text
stage_review = codes "review"

abbrev pub stages : List Text
stages = stage_plan ∷ stage_execute ∷ stage_review ∷ []

abbrev pub positive : Option ℤ → Option ℕ
positive none = none
positive (some (pos zero)) = none
positive (some (pos (suc n))) = some (suc n)
positive (some (negsuc n)) = none

-- The loop of current_cycle, over the events from the newest on.
unfoldable pub current_cycle_from : List ProjectEvent → ℕ
current_cycle_from [] = 1
current_cycle_from (e ∷ es) =
    let rest = current_cycle_from es in
    if has_type "autonomy.cycle.started" e
    then (elim (positive (event_int (field "cycle" e.event_data))) [ some n ↦ n | none ↦ rest ])
    else rest

unfoldable pub current_cycle : List ProjectEvent → ℕ
unfolding current_cycle_from event_int
current_cycle events = current_cycle_from (reverse events)

abbrev pub is_step : ProjectEvent → Bool
is_step e = has_type "autonomy.stage.completed" e || has_type "autonomy.stage.failed" e

unfoldable pub total_step_events : List ProjectEvent → ℕ
total_step_events events = count_if is_step events

pub data ApprovalState : Type 0 where
  not_required awaiting approved rejected : ApprovalState

abbrev pub approval_state : Option ProjectEvent → ApprovalState
approval_state none = awaiting
approval_state (some e) = if event_bool (field "approved" e.event_data) then approved else rejected

unfoldable pub approval_gate_state : List ProjectEvent → Text → Bool → ApprovalState
unfolding latest_event event_bool
approval_gate_state events stage requires_approval =
    if not requires_approval || not (text_eq stage stage_execute)
    then not_required
    else approval_state (latest_event events "autonomy.approval")

abbrev pub request_approval : ℕ → Option ProjectEvent → Action (Unit {0})
request_approval task_id (some e) = pure tt
request_approval task_id none = do
  save_project_event (record {
    task_id = task_id;
    event_type = "autonomy.approval.requested";
    event_data = ("stage", text stage_execute) ∷ [];
  })
  pure tt

unfoldable pub ensure_approval_requested : ℕ → List ProjectEvent → Action (Unit {0})
unfolding latest_event
ensure_approval_requested task_id events =
    request_approval task_id (latest_event events "autonomy.approval.requested")

-- `stage in names`
abbrev pub member : Text → List Text → Bool
member t names = any (λ n. text_eq n t) names

-- The first loop of next_stage: the set of the stages of `names` completed in the cycle.
completed_stages : ℕ → List Text → List Text → List ProjectEvent → List Text
completed_stages cycle names done [] = done
completed_stages cycle names done (e ∷ es) =
    completed_stages cycle names
      (if has_type "autonomy.stage.completed" e && in_cycle cycle e && member (stage_of e) names
        then stage_of e ∷ done
        else done)
      es

-- The second loop: the first stage that is not in the set.
first_missing : List Text → List Text → Option Text
first_missing done [] = none
first_missing done (stage ∷ rest) =
    if member stage done then first_missing done rest else some stage

unfoldable pub next_stage : List ProjectEvent → ℕ → List Text → Option Text
unfolding completed_stages first_missing
next_stage events cycle names = first_missing (completed_stages cycle names [] events) names

-- `for_stage`: the stage and the cycle of an event are the given ones.
abbrev pub for_stage : Text → ℕ → ProjectEvent → Bool
for_stage stage cycle e = text_eq (stage_of e) stage && in_cycle cycle e

-- What the loop of scheduled_retry_epoch does with `retry_at_epoch`: it returns a number, returns
-- None on a text that is no number, or goes on. A float is in microseconds, and a time before 1970
-- counts as 0, which has passed as well. `parse` is Python's float(text): none for a ValueError.
pub data RetryEpoch : Type 0 where
  return : Option ℕ → RetryEpoch
  continue : RetryEpoch

abbrev pub retry_epoch : (Text → Option ℕ) → Value → RetryEpoch
retry_epoch parse null = continue
retry_epoch parse (flag b) = return (some (if b then 1_000_000 else 0))
retry_epoch parse (int (pos n)) = return (some (n * 1_000_000))
retry_epoch parse (int (negsuc n)) = return (some 0)
retry_epoch parse (real n) = return (some n)
retry_epoch parse (text t) = return (parse t)

unfoldable pub scheduled_retry_from : (Text → Option ℕ) → List ProjectEvent → Text → ℕ → Option ℕ
scheduled_retry_from parse [] stage cycle = none
scheduled_retry_from parse (e ∷ es) stage cycle =
    let rest = scheduled_retry_from parse es stage cycle in
    if has_type "autonomy.retry.scheduled" e && for_stage stage cycle e
    then (elim (retry_epoch parse (field "retry_at_epoch" e.event_data)) [
      | return r ↦ r
      | continue ↦ rest
    ])
    else rest

unfoldable pub scheduled_retry_epoch : (Text → Option ℕ) → List ProjectEvent → Text → ℕ → Option ℕ
unfolding scheduled_retry_from
scheduled_retry_epoch parse events stage cycle =
    scheduled_retry_from parse (reverse events) stage cycle

-- The loop of stage_inflight: the times of the last start and of the last end of the stage.
inflight_times : Text → ℕ → Option ℕ → Option ℕ → List ProjectEvent → Option ℕ × Option ℕ
inflight_times stage cycle started_at terminal_at [] = (started_at, terminal_at)
inflight_times stage cycle started_at terminal_at (e ∷ es) =
    inflight_times stage cycle
      (if for_stage stage cycle e && has_type "autonomy.stage.started" e
        then some e.created_at
        else started_at)
      (if for_stage stage cycle e && not (has_type "autonomy.stage.started" e) && is_step e
        then some e.created_at
        else terminal_at)
      es

abbrev pub is_open : Option ℕ × Option ℕ → Bool
is_open (none, terminal_at) = false
is_open (some started, none) = true
is_open (some started, some terminal) = ltb terminal started

unfoldable pub stage_inflight : List ProjectEvent → Text → ℕ → Bool
unfolding inflight_times
stage_inflight events stage cycle = is_open (inflight_times stage cycle none none events)

unfoldable pub failed_attempts : List ProjectEvent → Text → ℕ → ℕ
failed_attempts events stage cycle =
    count_if (λ e. has_type "autonomy.stage.failed" e && for_stage stage cycle e) events
