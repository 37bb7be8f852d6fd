-- ===== src/Autonomy/Taxonomy.antt =====
-- services/orchestrator/app/services/autonomy_failure_handler.py: what kind of failure a stage met, and
-- whether it is the same failure again.
use syncore.Common.{
  ℕ, suc, ◌-◌, leb, if◌then◌else◌, Text, codes, take, text_eq, strip, lower, contains, is_empty,
  reverse, Bool, true, false, not, ◌&&◌, ◌||◌, Option, none, some, List, [], ◌∷◌, ◌++◌,
}
use syncore.Models.{Value, field, ProjectEvent}
use syncore.Store.{Action, ◌>>=◌, pure}
use syncore.Store.Events.{list_project_events}
use syncore.Autonomy.Values.{has_type, latest_event, text_or_empty, stage_of, event_int, eqℤ}
use syncore.Autonomy.Stage.{Services, StageContext}

pub record Failure : Type 0 where
  pub category : Text
  pub strategy : Text
  pub retry_allowed : Bool
  pub should_replan : Bool
  pub reason : Text
  pub signature : Text

-- What the loop over the events leaves: category, strategy and reason.
pub record Finding : Type 0 where
  pub category : Text
  pub strategy : Text
  pub reason : Text

-- `str(value or default)`
abbrev or_default : Value → Text → Text
or_default v d = let t = text_or_empty v in if is_empty t then d else t

abbrev is_workspace_failure : ProjectEvent → Bool
is_workspace_failure e =
    has_type "workspace.execution.preflight.failed" e
    || has_type "workspace.execution.verification.failed" e

-- `(event_int(…) or cycle) == cycle`: an event without a cycle counts.
abbrev in_this_cycle : ℕ → Value → Bool
in_this_cycle cycle v = elim (event_int v) [ none ↦ true | some n ↦ eqℤ n 0 || eqℤ n cycle ]

-- From the newest event on.
scan_failures : ℕ → Finding → List ProjectEvent → Finding
scan_failures cycle d [] = d
scan_failures cycle d (e ∷ es) =
    let rest = scan_failures cycle d es in
    if not (in_this_cycle cycle (field "cycle" e.event_data))
    then rest
    else if is_workspace_failure e
    then record {
      category = or_default (field "failure_category" e.event_data) d.category;
      strategy = or_default (field "recommended_strategy" e.event_data) d.strategy;
      reason = or_default (field "reason" e.event_data) d.reason;
    }
    else if has_type "run.failed" e
    then record {
      category = codes "provider_failure";
      strategy = codes "switch_model_or_provider";
      reason = or_default (field "error" e.event_data) d.reason;
    }
    else rest

-- The ladder over the category and the lowered reason.
pub record Verdict : Type 0 where
  pub category : Text
  pub strategy : Text
  pub retry_allowed : Bool
  pub should_replan : Bool

abbrev verdict : Text → Text → Bool → Bool → Verdict
verdict c s r p = record { category = c; strategy = s; retry_allowed = r; should_replan = p }

unfoldable pub judge : Text → Text → Text → Verdict
judge category strategy lowered =
    if text_eq category (codes "environment_failure")
    then verdict category strategy false false
    else if text_eq category (codes "provider_failure")
    then verdict category strategy true false
    else if text_eq category (codes "policy_block") || text_eq category (codes "risk_guardrail")
    then verdict category strategy false false
    else if text_eq category (codes "verification_failure")
        || text_eq category (codes "acceptance_failure")
    then verdict category strategy false true
    else if contains lowered (codes "no changes or verification commands were produced")
    then verdict (codes "no_artifact_change") (codes "tighten_implementation_scope") false true
    else if contains lowered (codes "required verification commands did not pass")
    then verdict (codes "verification_failure") (codes "raise_verification") false true
    else if contains lowered (codes "provider")
    then verdict (codes "provider_failure") (codes "switch_model_or_provider") true false
    else if contains lowered (codes "approval")
    then verdict (codes "policy_block") (codes "request_approval") false false
    else verdict category strategy true false

-- The signature of the latest execute plan, as _latest_execute_plan reads it.
abbrev pub plan_signature : Option ProjectEvent → Text
plan_signature none = []
plan_signature (some e) = strip (text_or_empty (field "signature" e.event_data))

-- The settings of the failure handling.
pub record FailureSettings : Type 0 where
  pub failure_taxonomy_v2_enabled : Bool
  pub low_info_stop_enabled : Bool
  pub low_info_threshold : ℕ
  pub retry_base_micros : ℕ

abbrev start_finding : Text → Text → Finding
start_finding stage error = record {
  category = codes "stage_failure";
  strategy = codes "replan";
  reason =
      let reason = strip error in if is_empty reason then stage ++ codes " failure" else reason;
}

-- The loop of is_low_information_failure, from the newest event on: the failures in a row with the
-- same stage and signature.
equal_failures : Text → Text → List ProjectEvent → ℕ
equal_failures stage signature [] = 0
equal_failures stage signature (e ∷ es) =
    let rest = equal_failures stage signature es in
    if not (has_type "autonomy.stage.failed" e)
    then rest
    else if text_eq (stage_of e) stage
        && text_eq (strip (text_or_empty (field "signature" e.event_data))) signature
    then suc rest
    else 0

module _ (services : Services) (settings : FailureSettings) where
  abbrev pub classified : Text → Finding → Text → Failure
  classified stage found plan =
      let lowered = lower found.reason in
      let v = judge found.category found.strategy lowered in
      record {
        category = v.category;
        strategy = v.strategy;
        retry_allowed = if settings.failure_taxonomy_v2_enabled then v.retry_allowed else true;
        should_replan = if settings.failure_taxonomy_v2_enabled then v.should_replan else false;
        reason = found.reason;
        signature = services.signature (
            ("stage", stage)
            ∷ ("category", v.category)
            ∷ ("reason", take 160 lowered)
            ∷ ("plan_signature", plan)
            ∷ []);
      }

  unfoldable pub classify_failure : StageContext → Text → Action Failure
  unfolding scan_failures judge text_or_empty event_int
  classify_failure c error = do
    events ← list_project_events (some c.task.id) 300
    let found = scan_failures c.cycle (start_finding c.stage error) (reverse events)
    plans ← list_project_events (some c.task.id) 300
    pure (
        classified c.stage found
          (plan_signature (latest_event plans "autonomy.execute_plan.created")))

  unfoldable pub is_low_information_failure : StageContext → Text → Action Bool
  unfolding equal_failures stage_of text_or_empty
  is_low_information_failure c signature = do
    events ← list_project_events (some c.task.id) 200
    pure (
        not (is_empty signature)
        && leb (settings.low_info_threshold - 1)
            (equal_failures c.stage signature (reverse events)))
