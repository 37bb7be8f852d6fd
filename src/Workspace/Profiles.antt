-- ===== src/Workspace/Profiles.antt =====
-- services/orchestrator/app/services/workspace_policy_profiles.py.
use syncore.Common.{Text, codes, true, false, none, List, [], ◌∷◌}
use syncore.Workspace.{Policy, texts}

-- What a profile leaves open is empty until a policy is resolved.
abbrev pub strict : Policy
strict = record {
  allow_write = true;
  allow_patch = true;
  allow_read = true;
  allow_search = true;
  allow_delete = false;
  allow_move = false;
  allow_commands = texts ("pytest" ∷ "python -m pytest" ∷ []);
  allowed_actions = texts (
      "read_file" ∷ "search_code" ∷ "write_file" ∷ "patch_file" ∷ "run_command" ∷ "run_test"
      ∷ "complete_work" ∷ "next_action" ∷ "finish" ∷ []);
  denied_actions = [];
  blocked_commands = [];
  allowed_command_patterns = [];
  allowed_paths = [];
  forbidden_paths = [];
  approval_required_paths = [];
  verification_required_commands = [];
  network_policy = none;
  timeout_seconds = 90;
  max_output_chars = 3000;
  profile = [];
  policy_pack = none;
}

abbrev pub balanced : Policy
balanced = record {
  allow_write = true;
  allow_patch = true;
  allow_read = true;
  allow_search = true;
  allow_delete = false;
  allow_move = true;
  allow_commands = texts ("pytest" ∷ "python -m pytest" ∷ "npm test" ∷ "npm run test" ∷ []);
  allowed_actions = texts (
      "read_file" ∷ "search_code" ∷ "write_file" ∷ "patch_file" ∷ "move_file" ∷ "run_command"
      ∷ "run_test" ∷ "run_build" ∷ "run_lint" ∷ "run_format" ∷ "complete_work" ∷ "next_action"
      ∷ "finish" ∷ []);
  denied_actions = [];
  blocked_commands = [];
  allowed_command_patterns = [];
  allowed_paths = [];
  forbidden_paths = [];
  approval_required_paths = [];
  verification_required_commands = [];
  network_policy = none;
  timeout_seconds = 120;
  max_output_chars = 6000;
  profile = [];
  policy_pack = none;
}

abbrev pub full_dev : Policy
full_dev = record {
  allow_write = true;
  allow_patch = true;
  allow_read = true;
  allow_search = true;
  allow_delete = true;
  allow_move = true;
  allow_commands = texts (
      "pytest" ∷ "python -m pytest" ∷ "npm test" ∷ "npm run test" ∷ "npm run lint" ∷ "npm run build"
      ∷ "uv run pytest" ∷ "go test" ∷ "cargo test" ∷ []);
  allowed_actions = texts (
      "read_file" ∷ "search_code" ∷ "write_file" ∷ "patch_file" ∷ "move_file" ∷ "delete_file"
      ∷ "run_command" ∷ "run_test" ∷ "run_build" ∷ "run_lint" ∷ "run_format" ∷ "run_targeted_test"
      ∷ "install_deps" ∷ "complete_work" ∷ "next_action" ∷ "finish" ∷ []);
  denied_actions = [];
  blocked_commands = [];
  allowed_command_patterns = [];
  allowed_paths = [];
  forbidden_paths = [];
  approval_required_paths = [];
  verification_required_commands = [];
  network_policy = none;
  timeout_seconds = 180;
  max_output_chars = 10000;
  profile = [];
  policy_pack = none;
}

abbrev pub policy_profiles : List (Text × Policy)
policy_profiles =
    (codes "strict", strict) ∷ (codes "balanced", balanced) ∷ (codes "full-dev", full_dev) ∷ []
