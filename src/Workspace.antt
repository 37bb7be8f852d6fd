-- ===== src/Workspace.antt =====
-- services/orchestrator/app/services/workspace_execution_utils.py: what a policy lets an action of the
-- workspace loop do. A policy is the dict that resolve_workspace_policy builds; a missing key reads as
-- an empty list. re.fullmatch is a parameter.
pub mod Profiles
pub mod Packs
pub mod Resolver
pub mod Risk
pub mod Dispatch
pub mod Granted
pub mod Resolved
pub mod Accepted
pub mod Guarded
pub mod Tests
use syncore.Common.{
  ℕ, suc, ◌==◌, if◌then◌else◌, Text, codes, text_eq, text_in, is_empty, is_space, strip, lower,
  starts_with, contains, reverse, length, drop, Bool, true, false, not, ◌&&◌, ◌||◌, Option, none,
  some, List, [], ◌∷◌, ◌++◌, any, keep, map, String,
}

-- A literal list of strings.
abbrev pub texts : List String → List Text
texts = map codes

pub record Policy : Type 0 where
  pub allow_write : Bool
  pub allow_patch : Bool
  pub allow_read : Bool
  pub allow_search : Bool
  pub allow_delete : Bool
  pub allow_move : Bool
  pub allow_commands : List Text
  pub allowed_actions : List Text
  pub denied_actions : List Text
  pub blocked_commands : List Text
  pub allowed_command_patterns : List Text
  pub allowed_paths : List Text
  pub forbidden_paths : List Text
  pub approval_required_paths : List Text
  pub verification_required_commands : List Text
  pub network_policy : Option Text
  pub timeout_seconds : ℕ
  pub max_output_chars : ℕ
  pub profile : Text
  pub policy_pack : Option Text

abbrev pub has_text : Text → Bool
has_text t = not (is_empty t)

-- string_list: the items stripped, without the empty ones
abbrev pub string_list : List Text → List Text
string_list ts = keep has_text (map strip ts)

abbrev pub has_items : List Text → Bool
has_items [] = false
has_items (t ∷ ts) = true

abbrev drop_slashes : Text → Text
drop_slashes [] = []
drop_slashes (c ∷ t) = let rest = drop_slashes t in if c == 47 then rest else c ∷ t

-- path.rstrip("/")
abbrev pub rstrip_slash : Text → Text
rstrip_slash t = reverse (drop_slashes (reverse t))

-- path == root or path.startswith(root.rstrip("/") + "/")
abbrev pub is_under : Text → Text → Bool
is_under path root = text_eq path root || starts_with path (rstrip_slash root ++ codes "/")

abbrev pub under_any : Text → List Text → Bool
under_any path roots = any (is_under path) roots

-- {"status": "ok"}, or {"status": "blocked", "reason": …}
pub data Verdict : Type 0 where
  allowed : Verdict
  blocked : Text → Verdict

-- `if test: return {"status": "blocked", …}` and what comes after it.
abbrev pub refuse_if : Bool → Text → Verdict → Verdict
refuse_if true reason rest = blocked reason
refuse_if false reason rest = rest

-- {str(item).strip().lower() for item in …}
abbrev pub normal_names : List Text → List Text
normal_names ts = map (λ t. lower (strip t)) ts

-- The tests of check_action_allowed; an empty path or command is None.
abbrev pub is_denied : Text → Policy → Bool
is_denied action_type policy = text_in action_type (normal_names policy.denied_actions)

abbrev pub is_unlisted : Text → Policy → Bool
is_unlisted action_type policy =
    has_items (normal_names policy.allowed_actions)
    && not (text_in action_type (normal_names policy.allowed_actions))

abbrev pub is_in_roots : Text → List Text → Bool
is_in_roots path roots = has_text path && has_items roots && under_any path roots

abbrev pub is_forbidden : Text → Policy → Bool
is_forbidden path policy = is_in_roots path (string_list policy.forbidden_paths)

abbrev pub is_outside : Text → Policy → Bool
is_outside path policy =
    has_text path
    && has_items (string_list policy.allowed_paths)
    && not (under_any path (string_list policy.allowed_paths))

abbrev pub needs_approval : Text → Policy → Bool
needs_approval path policy = is_in_roots path (string_list policy.approval_required_paths)

module _ (fullmatch : Text → Text → Bool) where
  unfoldable pub command_allowed : Text → Policy → Bool
  command_allowed command policy =
      if any (starts_with command) policy.blocked_commands
      then false
      else if any (starts_with command) policy.allow_commands
      then true
      else any (λ pattern. fullmatch pattern command) policy.allowed_command_patterns

  abbrev pub is_refused : Text → Policy → Bool
  is_refused command policy = has_text command && not (command_allowed command policy)

  unfoldable pub check_action_allowed : Text → Policy → Text → Text → Verdict
  check_action_allowed action_type policy path command =
      refuse_if (is_denied action_type policy)
        (codes "Action " ++ action_type ++ codes " denied by policy")
        (refuse_if (is_unlisted action_type policy)
          (codes "Action " ++ action_type ++ codes " is not allowed")
          (refuse_if (is_forbidden path policy)
            (codes "Path " ++ path ++ codes " is forbidden by workspace policy")
            (refuse_if (is_outside path policy)
              (codes "Path " ++ path ++ codes " is outside allowed workspace roots")
              (refuse_if (needs_approval path policy)
                (codes "Path " ++ path ++ codes " requires explicit approval")
                (refuse_if (is_refused command policy)
                  (codes "Command " ++ command ++ codes " is not allowed") allowed)))))

-- classify_workspace_issue: the category and the strategy.
unfoldable pub classify_workspace_issue : Text → String × String
classify_workspace_issue reason =
    let has = λ (t : String). contains (lower reason) (codes t) in
    if has "env var" || has "binary" || has "os"
    then ("environment_failure", "repair_environment")
    else if has "provider"
    then ("provider_failure", "switch_model_or_provider")
    else if has "command" && has "allowed"
    then ("policy_block", "relax_policy_or_request_approval")
    else if has "forbidden" || has "approval"
    then ("risk_guardrail", "request_approval_or_narrow_scope")
    else if has "acceptance" || has "behavior"
    then ("acceptance_failure", "tighten_implementation_to_acceptance")
    else if has "verification" || has "probe"
    then ("verification_failure", "run_stronger_verification_or_fix_output")
    else if has "no changes"
    then ("no_artifact_change", "narrow_scope_and_require_mutation_intent")
    else ("workspace_failure", "replan_with_repo_context")
