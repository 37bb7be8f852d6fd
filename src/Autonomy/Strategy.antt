-- ===== src/Autonomy/Strategy.antt =====
-- services/orchestrator/app/services/autonomy_failure_policy.py: FailurePolicy. The strategies stand
-- by their names.
pub mod Best
pub mod Tests
use syncore.Common.{
  ℕ, leb, if◌then◌else◌, Text, codes, text_eq, strip, lower, contains, ℤ, pos, negsuc, ◌+ℤ◌, lebℤ,
  Bool, true, false, ◌&&◌, ◌||◌, Option, none, some, List, [], ◌∷◌, any, String,
}
use syncore.Models.{ProjectEvent, field}
use syncore.Store.{Action, ◌>>=◌, pure}
use syncore.Store.Events.{list_project_events}
use syncore.Autonomy.Values.{text_or_empty, has_type, latest_event}

abbrev pub default_strategy : Text
default_strategy = codes "default"

abbrev pub tighten_scope : Text
tighten_scope = codes "tighten_scope"

abbrev pub increase_detail : Text
increase_detail = codes "increase_detail"

abbrev pub raise_verification : Text
raise_verification = codes "raise_verification"

abbrev pub switch_execution_role : Text
switch_execution_role = codes "switch_execution_role"

-- AUTONOMY_STRATEGIES but the first
abbrev pub replan_strategies : List Text
replan_strategies =
    tighten_scope ∷ increase_detail ∷ raise_verification ∷ switch_execution_role ∷ []

-- item in AUTONOMY_STRATEGIES
abbrev pub is_strategy : Text → Bool
is_strategy name = any (text_eq name) (default_strategy ∷ replan_strategies)

unfoldable pub points : Text → ℤ
points outcome =
    if text_eq outcome (codes "success")
    then pos 3
    else if text_eq outcome (codes "quality_failed")
    then negsuc 1
    else if text_eq outcome (codes "failed")
    then negsuc 2
    else pos 0

abbrev stripped : String → ProjectEvent → Text
stripped name e = strip (text_or_empty (field name e.event_data))

-- scores[name] after one event of the feedback.
abbrev scored : Text → ℤ → ProjectEvent → ℤ
scored name total e =
    if has_type "autonomy.feedback" e && text_eq (stripped "strategy" e) name
    then total +ℤ points (stripped "outcome" e)
    else total

-- scores[name], from `total` on.
abbrev score_from : Text → ℤ → List ProjectEvent → ℤ
score_from name total [] = total
score_from name total (e ∷ feedback) = score_from name (scored name total e) feedback

-- scores.get(name, 0)
unfoldable pub score : List ProjectEvent → Text → ℤ
score feedback name = if is_strategy name then score_from name (pos 0) feedback else pos 0

abbrev pub better : (Text → ℤ) → Text → Text → Text
better key best c = if lebℤ (key c) (key best) then best else c

-- max(candidates, key=key): the first one of those with the greatest key.
abbrev pub best_of : (Text → ℤ) → Text → List Text → Text
best_of key best [] = best
best_of key best (c ∷ candidates) = best_of key (better key best c) candidates

-- The candidates are `first` and the others.
unfoldable pub best_strategy_from_feedback : Text → List Text → Action Text
best_strategy_from_feedback first others = do
  feedback ← list_project_events none 500
  pure (
      let best = best_of (score feedback) first others in
      if is_strategy best then best else default_strategy)

abbrev pub reason_of : Option ProjectEvent → Text
reason_of none = []
reason_of (some e) = lower (text_or_empty (field "reason" e.event_data))

-- The candidates of a replan, by the tests of the if and the two elif.
abbrev pub candidates_by : Bool → Bool → Bool → Text × List Text
candidates_by true _ _ =
    (increase_detail, tighten_scope ∷ raise_verification ∷ switch_execution_role ∷ [])
candidates_by false true _ =
    (raise_verification, increase_detail ∷ tighten_scope ∷ switch_execution_role ∷ [])
candidates_by false false true =
    (switch_execution_role, increase_detail ∷ tighten_scope ∷ raise_verification ∷ [])
candidates_by false false false =
    (tighten_scope, increase_detail ∷ raise_verification ∷ switch_execution_role ∷ [])

abbrev pub candidates_for : Text → Text → Text → Text × List Text
candidates_for reason stage execute_role =
    candidates_by (contains reason (codes "short"))
      (contains reason (codes "risk") || text_eq stage (codes "review"))
      (text_eq execute_role (codes "coder"))

unfoldable pub select_replan_strategy : List ProjectEvent → Text → ℕ → Text → Action Text
select_replan_strategy events stage cycle execute_role =
    let reason = reason_of (latest_event events "autonomy.quality.failed") in
    let candidates = candidates_for reason stage execute_role in
    if leb cycle 1
    then pure default_strategy
    else best_strategy_from_feedback candidates.0 candidates.1

unfoldable pub strategy_guidance : Text → Text
strategy_guidance strategy =
    if text_eq strategy tighten_scope
    then codes "Break work into smaller validated increments and avoid broad refactors."
    else if text_eq strategy increase_detail
    then codes "Increase implementation detail and include explicit step-by-step artifacts."
    else if text_eq strategy raise_verification
    then codes "Prioritize tests, checks, and explicit verification evidence."
    else if text_eq strategy switch_execution_role
    then codes "Shift execution perspective to reduce repeated blind spots."
    else codes "Deliver concise, actionable, and verifiable output."
