-- ===== src/Workspace/Tests.antt =====
-- A policy with a forbidden folder, and a workspace whose state is the list of the files written.
use syncore.Common.{none, some, ◌≡◌, refl, Text, codes, text_eq, List, [], ◌∷◌, ◌++◌}
use syncore.Store.{ok}
use syncore.Workspace.{Policy, check_action_allowed, command_allowed, texts}
use syncore.Workspace.Profiles.{balanced}
use syncore.Workspace.Resolver.{Runbook, WorkspaceMetadata, resolve_workspace_policy}
use syncore.Workspace.Resolved.{Resolved, resolve_workspace_policy-Resolved}
use syncore.Workspace.Risk.{verify_diff_risk}
use syncore.Workspace.Accepted.{Accepted, verify_diff_risk-Accepted}
use syncore.Workspace.Granted.{Granted, check_action_allowed-Granted}
use syncore.Workspace.Dispatch.{Action, LoopState, Operations, dispatch_actions}
use syncore.Workspace.Guarded.{guarded, dispatch_actions-guarded}

abbrev policy : Policy
policy = record balanced {
  forbidden_paths = texts ("secrets/" ∷ []);
  blocked_commands = texts ("pytest --rootdir" ∷ []);
}

check_action_allowed-Granted_example :
    Granted text_eq (codes "run_test") policy (codes "src/app.py") (codes "pytest -q")
unfolding check_action_allowed command_allowed
check_action_allowed-Granted_example =
    check_action_allowed-Granted text_eq (codes "run_test") policy (codes "src/app.py")
      (codes "pytest -q") refl

abbrev files : Operations (List Text)
files = record {
  write_with_diff = λ path content w. (ok (codes "ref"), w ++ path ∷ []);
  patch_with_diff = λ path before after w. (ok (codes "ref"), w ++ path ∷ []);
  delete_with_diff = λ path w. (ok (codes "ref"), w ++ path ∷ []);
  move_with_diff = λ path destination w. (ok (codes "ref"), w ++ path ∷ destination ∷ []);
  read_file = λ path w. (ok [], w);
  search_code = λ pattern w. (ok [], w);
  store_text_reference = λ kind content hint w. (ok (codes "ref"), w);
  run_workspace_command =
      λ command w. (ok (record { command = command; status = codes "ok"; output = [] }), w);
  runner_default_command = λ kind fallback. fallback;
}

abbrev write : Text → Action
write path = record {
  type = codes "write_file";
  path = path;
  destination = [];
  content = codes "x = 1";
  before = [];
  after = [];
  pattern = [];
  command = [];
  text = [];
  summary = [];
}

abbrev at_start : LoopState
at_start = record {
  changed_files = [];
  diff_refs = [];
  command_results = [];
  read_refs = [];
  read_context = [];
  verification_context = [];
  completed_work = [];
  next_action = codes "Run the repo's verification checks for the changed files.";
  finish_summary = [];
}

dispatch_actions-guarded_example :
    dispatch_actions files text_eq policy
      (write (codes "secrets/key") ∷ write (codes "src/app.py") ∷ [])
      at_start
      []
    ≡ dispatch_actions
        (guarded policy files)
        text_eq
        policy
        (write (codes "secrets/key") ∷ write (codes "src/app.py") ∷ [])
        at_start
        []
dispatch_actions-guarded_example =
    dispatch_actions-guarded files text_eq policy
      (write (codes "secrets/key") ∷ write (codes "src/app.py") ∷ []) at_start []

abbrev no_runbook : Runbook
no_runbook = record {
  allowed_commands = texts ("make check" ∷ []);
  runbook_commands = [];
  setup_commands = [];
  build_commands = [];
  test_commands = [];
  lint_commands = [];
  format_commands = [];
  runner_setup = [];
  runner_build = [];
  runner_test = [];
  runner_lint = [];
  runner_format = [];
  probe_commands = [];
  allowed_command_patterns = [];
  blocked_commands = [];
  allowed_paths = [];
  forbidden_paths = [];
  approval_required_paths = [];
}

abbrev metadata : WorkspaceMetadata
metadata = record {
  policy_pack = codes "go-service";
  workspace_runbook = no_runbook;
  allow_actions = [];
  deny_actions = [];
}

resolve_workspace_policy-Resolved_example :
    Resolved metadata (resolve_workspace_policy (codes "Strict") metadata none)
resolve_workspace_policy-Resolved_example =
    resolve_workspace_policy-Resolved (codes "Strict") metadata none

verify_diff_risk-Accepted_example :
    Accepted (texts ("src/app.py" ∷ [])) (texts ("secrets" ∷ [])) (some 3)
unfolding verify_diff_risk
verify_diff_risk-Accepted_example =
    verify_diff_risk-Accepted (texts ("src/app.py" ∷ [])) (texts ("secrets" ∷ [])) (some 3) refl
