-- ===== src/Workspace/Risk.antt =====
-- services/orchestrator/app/services/workspace_risk_service.py: verify_diff_risk.
use syncore.Common.{ℕ, ltb, if◌then◌else◌, Text, ◌&&◌, Option, none, some, List, keep, take, length}
use syncore.Workspace.{under_any, has_items}
use syncore.Workspace.Resolver.{unique}

-- {"status": "ok"}, or {"status": "failed"} with what was found.
pub data RiskReport : Type 0 where
  ok : RiskReport
  changed_forbidden : List Text → RiskReport
  changed_too_many : ℕ → ℕ → RiskReport

abbrev too_many : List Text → ℕ → RiskReport
too_many changed_files limit =
    if ltb 0 limit && ltb limit (length (unique changed_files))
    then changed_too_many (length (unique changed_files)) limit
    else ok

abbrev pub count_changed : List Text → Option ℕ → RiskReport
count_changed changed_files none = ok
count_changed changed_files (some limit) = too_many changed_files limit

abbrev pub violations : List Text → List Text → List Text
violations changed_files forbidden_paths =
    keep (λ path. under_any path forbidden_paths) changed_files

-- `max_changed_files` is an int, or anything else.
unfoldable pub verify_diff_risk : List Text → List Text → Option ℕ → RiskReport
verify_diff_risk changed_files forbidden_paths max_changed_files =
    if has_items forbidden_paths && has_items (violations changed_files forbidden_paths)
    then changed_forbidden (take 20 (violations changed_files forbidden_paths))
    else count_changed changed_files max_changed_files
