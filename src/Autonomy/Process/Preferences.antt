-- ===== src/Autonomy/Process/Preferences.antt =====
-- The settings of AutonomyService, and what process_task reads before its gates: preferences, mode,
-- approval, SDLC, retries and the kick-off of a new task.
use syncore.Common.{
  ℕ, zero, ltb, if◌then◌else◌, Text, codes, take, text_eq, strip, lower, is_empty, ℤ, pos, lebℤ,
  clip, parse_int, Bool, true, false, not, ◌&&◌, ◌||◌, Option, none, some, List, [], ◌∷◌, ◌++◌,
  String, max,
}
use syncore.Models.{
  Task, ComplexityLevel, low, Value, null, int, text, flag, real, Fields, field, ProjectEvent,
  Workspace, section, BatonPacketCreate,
}
use syncore.Store.{Action, value_error, ◌>>=◌, ◌>>◌, pure, raise}
use syncore.Store.Events.{count_project_events, save_baton_packet}
use syncore.Store.Workspaces.{get_workspace}
use syncore.Autonomy.Values.{
  show_int, has_type, latest_event, text_or_empty, as_bool, word, event_int,
}
use syncore.Autonomy.Gate.{current_cycle}
use syncore.Autonomy.Stage.{Prefs, pref, put_pref, record_event}
use syncore.Autonomy.Taxonomy.{FailureSettings}
use syncore.Router.{decide, role_text, tier_text, RoutingDecision}

-- What __init__ keeps, after its max(…) bounds.
pub record Settings : Type 0 where
  pub default_max_retries : ℕ
  pub max_cycles : ℕ
  pub max_total_steps : ℕ
  pub review_pass_keyword : Text
  pub workspace_auto_approve_low_risk : Bool
  pub execute_plan_enabled : Bool
  pub failure_taxonomy_v2_enabled : Bool
  pub low_info_stop_enabled : Bool
  pub low_info_threshold : ℕ
  pub retry_base_micros : ℕ

abbrev pub failure_settings : Settings → FailureSettings
failure_settings g = record {
  failure_taxonomy_v2_enabled = g.failure_taxonomy_v2_enabled;
  low_info_stop_enabled = g.low_info_stop_enabled;
  low_info_threshold = g.low_info_threshold;
  retry_base_micros = g.retry_base_micros;
}

-- The bounds that __init__ puts on what it is given.
unfoldable pub make_settings : Settings → Settings
make_settings g = record g {
  max_cycles = max g.max_cycles 1;
  max_total_steps = max g.max_total_steps 1;
  review_pass_keyword =
      strip (if is_empty g.review_pass_keyword then codes "PASS" else g.review_pass_keyword);
  low_info_threshold = max g.low_info_threshold 2;
  retry_base_micros = max g.retry_base_micros 100_000;
}

-- str(value) of a bool or a number, and the text itself
abbrev pref_text : Value → Option Text
pref_text null = none
pref_text (flag b) = some (if b then codes "True" else codes "False")
pref_text (int (pos zero)) = some (codes "0")
pref_text (int n) = some (text_or_empty (int n))
pref_text (real zero) = some (codes "0.0")
pref_text (real n) = some (text_or_empty (real n))
pref_text (text t) = some t

abbrev merge_data : Prefs → Fields → Prefs
merge_data prefs [] = prefs
merge_data prefs ((k, v) ∷ rest) =
    merge_data (elim (pref_text v) [ none ↦ prefs | some t ↦ put_pref k t prefs ]) rest

merge_events : Prefs → List ProjectEvent → Prefs
merge_events prefs [] = prefs
merge_events prefs (e ∷ es) =
    merge_events (if has_type "task.preferences" e then merge_data prefs e.event_data else prefs) es

unfoldable pub load_preferences : List ProjectEvent → Prefs
unfolding merge_events text_or_empty
load_preferences events = merge_events [] events

abbrev pub pref_word : String → Prefs → Text
pref_word k prefs = elim (pref k prefs) [ none ↦ [] | some t ↦ lower (strip t) ]

abbrev or_text : Text → Text → Text
or_text t d = if is_empty t then d else t

-- int(readiness.get("score") or 0): a text that is no number raises.
abbrev pub score_of : Value → Option ℤ
score_of null = some (pos 0)
score_of (text t) = if is_empty t then some (pos 0) else parse_int t
score_of v = event_int v

-- The mode, and the note if it was lowered.
abbrev pub choose_mode : Text → Text → ℤ → Text × Text
choose_mode requested recommended score =
    if is_empty requested
    then (or_text recommended (codes "supervised"), [])
    else if text_eq requested (codes "unattended") && not (lebℤ (pos 85) score)
    then (
      or_text recommended (codes "supervised"),
      codes "Requested unattended mode was downgraded because workspace readiness score is "
          ++ show_int score
          ++ codes ".",
    )
    else (requested, [])

abbrev pub mode_of_score : Text → Text → Option ℤ → Action (Text × Text)
mode_of_score requested recommended none = raise (value_error (codes "invalid literal for int()"))
mode_of_score requested recommended (some score) = pure (choose_mode requested recommended score)

abbrev pub mode_of_workspace : Text → Option Workspace → Action (Text × Text)
mode_of_workspace requested none = pure (or_text requested (codes "supervised"), [])
mode_of_workspace requested (some w) =
    let readiness = section "workspace_readiness" w.metadata in
    mode_of_score requested (word (field "recommended_autonomy_mode" readiness))
      (score_of (field "score" readiness))

abbrev pub mode_of_id : Text → Option ℕ → Action (Text × Text)
mode_of_id requested none = pure (or_text requested (codes "supervised"), [])
mode_of_id requested (some w) = do
  workspace ← get_workspace w
  mode_of_workspace requested workspace

unfoldable pub resolve_autonomy_mode : Task → Prefs → Action (Text × Text)
unfolding text_or_empty event_int
resolve_autonomy_mode task prefs = mode_of_id (pref_word "autonomy_mode" prefs) task.workspace_id

abbrev is_low : ComplexityLevel → Bool
is_low low = true
is_low _ = false

abbrev has_workspace : Option ℕ → Bool
has_workspace none = false
has_workspace (some w) = true

-- The value of requires_approval after its three overrides.
unfoldable pub must_approve : Settings → Task → Prefs → Text → Bool
unfolding as_bool
must_approve g task prefs mode =
    if text_eq mode (codes "unattended")
    then false
    else if text_eq mode (codes "guided")
    then true
    else if g.workspace_auto_approve_low_risk
        && has_workspace task.workspace_id
        && is_low task.complexity
    then false
    else as_bool (pref "requires_approval" prefs)

unfoldable pub resolve_max_retries : Settings → Prefs → ℕ
resolve_max_retries g prefs = elim (pref "autonomy_max_retries" prefs) [
  | none ↦ g.default_max_retries
  | some raw ↦ elim (parse_int raw) [ none ↦ g.default_max_retries | some n ↦ clip n ]
]

abbrev is_syncore : Option Workspace → Bool
is_syncore none = false
is_syncore (some w) = text_eq (lower (strip w.name)) (codes "syncore")

abbrev pub sdlc_of_id : Option ℕ → Action Bool
sdlc_of_id none = pure false
sdlc_of_id (some w) = do workspace ← get_workspace w; pure (is_syncore workspace)

unfoldable pub should_enforce_sdlc : Task → Prefs → Action Bool
unfolding as_bool
should_enforce_sdlc task prefs =
    if as_bool (pref "sdlc_enforce" prefs) then pure true else sdlc_of_id task.workspace_id

abbrev is_role : Text → Bool
is_role t =
    text_eq t (codes "planner")
    || text_eq t (codes "coder")
    || text_eq t (codes "reviewer")
    || text_eq t (codes "analyst")
    || text_eq t (codes "memory")

-- _normalize_agent_role
unfoldable pub normalize_agent_role : Text → Text
normalize_agent_role candidate =
    let normalized = lower (strip candidate) in
    if is_role normalized then normalized else codes "coder"

abbrev kickoff : Task → Text → BatonPacketCreate
kickoff task role = record {
  task_id = task.id;
  from_agent = codes "planner";
  to_agent = some (normalize_agent_role role);
  summary = codes "Autonomy kickoff for task: " ++ task.title;
  payload = record {
    objective = task.title;
    completed_work = codes "Task accepted by autonomy loop" ∷ [];
    constraints = codes "Honor task constraints and active context policies" ∷ [];
    open_questions = [];
    next_best_action = codes "Execute the task and report completion details";
    relevant_artifacts = [];
  };
}

unfoldable pub bootstrap : Task → RoutingDecision → Action (Text × ℕ)
bootstrap task decision = do
  let role = normalize_agent_role (role_text decision.worker_role)
  record_event task.id "routing.decision" (
      ("worker_role", text (role_text decision.worker_role))
      ∷ ("model_tier", text (tier_text decision.model_tier))
      ∷ ("reasoning", text (take 250 decision.reasoning))
      ∷ ("source", text (codes "autonomy"))
      ∷ [])
  record_event task.id "autonomy.started" (("execute_role", text role) ∷ [])
  record_event task.id "autonomy.cycle.started"
      (("cycle", int (pos 1)) ∷ ("mode", text (codes "initial")) ∷ [])
  save_baton_packet (kickoff task role)
  pure (role, 1)

abbrev pub continue_or_start : Task → List ProjectEvent → Option ProjectEvent → Action (Text × ℕ)
continue_or_start task events (some e) = pure (
  normalize_agent_role
      (or_text (text_or_empty (field "execute_role" e.event_data)) (codes "coder")),
  current_cycle events,
)
continue_or_start task events none = do
  count ← count_project_events task.id
  bootstrap task (
      decide (record {
        task_type = task.task_type;
        complexity = task.complexity;
        requires_memory = ltb 0 count;
      }))

-- _bootstrap_if_needed: the execute role and the cycle
unfoldable pub bootstrap_if_needed : Task → List ProjectEvent → Action (Text × ℕ)
bootstrap_if_needed task events =
    continue_or_start task events (latest_event events "autonomy.started")
