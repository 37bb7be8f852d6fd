-- ===== src/Workspace/Resolver.antt =====
-- services/orchestrator/app/services/execution_policy.py: resolve_workspace_policy. The dicts of the
-- workspace's metadata are records; a missing key is an empty list, and a value that is one string is a
-- list of one.
use syncore.Common.{
  Text, codes, is_empty, strip, lower, text_in, Bool, not, ◌&&◌, Option, none, some, List, [], ◌∷◌,
  ◌++◌, if◌then◌else◌, map,
}
use syncore.Execution.{entry}
use syncore.Execution.Providers.{add_names, or_empty}
use syncore.Workspace.{Policy, string_list}
use syncore.Workspace.Profiles.{policy_profiles, balanced}
use syncore.Workspace.Packs.{PolicyPack, get_policy_pack}

pub record Runbook : Type 0 where
  pub allowed_commands : List Text
  pub runbook_commands : List Text
  pub setup_commands : List Text
  pub build_commands : List Text
  pub test_commands : List Text
  pub lint_commands : List Text
  pub format_commands : List Text
  pub runner_setup : List Text
  pub runner_build : List Text
  pub runner_test : List Text
  pub runner_lint : List Text
  pub runner_format : List Text
  pub probe_commands : List Text
  pub allowed_command_patterns : List Text
  pub blocked_commands : List Text
  pub allowed_paths : List Text
  pub forbidden_paths : List Text
  pub approval_required_paths : List Text

-- What resolve_workspace_policy reads of the metadata.
pub record WorkspaceMetadata : Type 0 where
  pub policy_pack : Text
  pub workspace_runbook : Runbook
  pub allow_actions : List Text
  pub deny_actions : List Text

-- values or default
abbrev pub or_list : List Text → List Text → List Text
or_list [] default = default
or_list (t ∷ ts) default = t ∷ ts

-- tuple(dict.fromkeys(values))
abbrev pub unique : List Text → List Text
unique ts = add_names [] ts

abbrev pub profile_names : List Text
profile_names = map (λ e. e.0) policy_profiles

abbrev or_balanced : Option Policy → Policy
or_balanced none = balanced
or_balanced (some p) = p

-- self.workspace_policy_profiles[name], for a name that is there
abbrev pub profile_of : Text → Policy
profile_of name = or_balanced (entry name policy_profiles)

-- The base policy, and the name of its profile, before the pack adds to it.
abbrev pub pack_profile : Bool → Text → Option PolicyPack → Text
pack_profile explicit profile none = profile
pack_profile explicit profile (some pack) =
    if not explicit && text_in (strip pack.profile) profile_names
    then strip pack.profile
    else profile

-- str(pack.get("network_policy") or "offline")
abbrev or_offline : Text → Text
or_offline t = if is_empty t then codes "offline" else t

abbrev pub with_pack : Option PolicyPack → Policy → Policy
with_pack none base = base
with_pack (some pack) base = record base {
  allow_commands = or_list pack.allow_commands base.allow_commands;
  allowed_command_patterns = or_list pack.allowed_command_patterns base.allowed_command_patterns;
  verification_required_commands = pack.verification_required_commands;
  allowed_actions = or_list pack.allowed_actions base.allowed_actions;
  approval_required_paths = pack.approval_required_paths;
  network_policy = some (or_offline pack.network_policy);
}

abbrev pub runbook_allowed : Runbook → List Text
runbook_allowed b =
    string_list b.allowed_commands
    ++ string_list b.runbook_commands
    ++ string_list b.setup_commands
    ++ string_list b.build_commands
    ++ string_list b.test_commands
    ++ string_list b.lint_commands
    ++ string_list b.format_commands
    ++ string_list b.runner_setup
    ++ string_list b.runner_build
    ++ string_list b.runner_test
    ++ string_list b.runner_lint
    ++ string_list b.runner_format

-- `if more: base["allow_commands"] = tuple(dict.fromkeys(… + more))`
abbrev pub add_commands : List Text → List Text → List Text
add_commands commands [] = commands
add_commands commands (t ∷ ts) = unique (commands ++ t ∷ ts)

abbrev pub with_runbook : Runbook → Policy → Policy
with_runbook b base = record base {
  allow_commands =
      add_commands (add_commands base.allow_commands (runbook_allowed b))
        (string_list b.probe_commands);
  allowed_command_patterns =
      or_list (string_list b.allowed_command_patterns) base.allowed_command_patterns;
  blocked_commands = string_list b.blocked_commands;
  allowed_paths = string_list b.allowed_paths;
  forbidden_paths = string_list b.forbidden_paths;
  approval_required_paths =
      or_list (string_list b.approval_required_paths) base.approval_required_paths;
}

abbrev pub with_contract : WorkspaceMetadata → Policy → Policy
with_contract metadata base = record base {
  allowed_actions = or_list (string_list metadata.allow_actions) base.allowed_actions;
  denied_actions = or_list (string_list metadata.deny_actions) base.denied_actions;
}

abbrev pub pack_name_of : WorkspaceMetadata → Option Text → Text
pack_name_of metadata preferred =
    strip (if is_empty (or_empty preferred) then metadata.policy_pack else or_empty preferred)

-- The arguments: requested_profile, workspace_metadata, and policy_pack of the preferences.
unfoldable pub resolve_workspace_policy : Text → WorkspaceMetadata → Option Text → Policy
unfolding get_policy_pack
resolve_workspace_policy requested_profile metadata preferred =
    let requested = lower (strip requested_profile) in
    let explicit = text_in requested profile_names in
    let pack_name = pack_name_of metadata preferred in
    let pack = get_policy_pack pack_name in
    let profile = pack_profile explicit (if explicit then requested else codes "balanced") pack in
    record (with_contract metadata
      (with_runbook metadata.workspace_runbook (with_pack pack (profile_of profile)))) {
        profile = profile;
        policy_pack = if is_empty pack_name then none else some pack_name;
      }
