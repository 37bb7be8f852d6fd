-- ===== src/Workspace/Packs.antt =====
-- services/orchestrator/app/services/policy_packs.py.
use syncore.Common.{
  Text, codes, text_in, if◌then◌else◌, is_empty, ◌&&◌, ◌||◌, Option, none, some, List, [], ◌∷◌,
}
use syncore.Execution.{entry}
use syncore.Workspace.{texts}

-- A pack; missing keys are empty.
pub record PolicyPack : Type 0 where
  pub profile : Text
  pub runner : Text
  pub required_binaries : List Text
  pub allow_commands : List Text
  pub allowed_command_patterns : List Text
  pub verification_required_commands : List Text
  pub allowed_actions : List Text
  pub approval_required_paths : List Text
  pub network_policy : Text

abbrev python_fastapi_pack : PolicyPack
python_fastapi_pack = record {
  profile = codes "balanced";
  runner = codes "python-fastapi";
  required_binaries = texts ("python" ∷ []);
  allow_commands = texts (
      "uv sync" ∷ "uv run pytest" ∷ "pytest" ∷ "python -m pytest" ∷ "python -m ruff"
      ∷ "python -m pip install" ∷ []);
  allowed_command_patterns = texts ("^uv run pytest( .*)?$" ∷ "^pytest( .*)?$" ∷ []);
  verification_required_commands = texts ("pytest" ∷ []);
  allowed_actions = texts (
      "read_file" ∷ "search_code" ∷ "write_file" ∷ "patch_file" ∷ "run_command" ∷ "run_test"
      ∷ "run_lint" ∷ "complete_work" ∷ "next_action" ∷ "finish" ∷ []);
  approval_required_paths = texts ("alembic/" ∷ "migrations/" ∷ "infra/" ∷ []);
  network_policy = codes "package_registries_only";
}

abbrev python_django_pack : PolicyPack
python_django_pack = record {
  profile = codes "balanced";
  runner = codes "python-django";
  required_binaries = texts ("python" ∷ []);
  allow_commands = texts (
      "python -m pip install" ∷ "python manage.py test" ∷ "pytest" ∷ "python -m pytest"
      ∷ "python manage.py check" ∷ []);
  allowed_command_patterns =
      texts ("^python manage\\.py (test|check)( .*)?$" ∷ "^pytest( .*)?$" ∷ []);
  verification_required_commands = texts ("python manage.py test" ∷ []);
  allowed_actions = texts (
      "read_file" ∷ "search_code" ∷ "write_file" ∷ "patch_file" ∷ "run_command" ∷ "run_test"
      ∷ "run_lint" ∷ "complete_work" ∷ "next_action" ∷ "finish" ∷ []);
  approval_required_paths = texts ("migrations/" ∷ "settings/" ∷ "infra/" ∷ []);
  network_policy = codes "package_registries_only";
}

abbrev python_flask_pack : PolicyPack
python_flask_pack = record {
  profile = codes "balanced";
  runner = codes "python-flask";
  required_binaries = texts ("python" ∷ []);
  allow_commands =
      texts ("python -m pip install" ∷ "pytest" ∷ "python -m pytest" ∷ "python -m ruff" ∷ []);
  allowed_command_patterns = texts ("^pytest( .*)?$" ∷ "^python -m pytest( .*)?$" ∷ []);
  verification_required_commands = texts ("pytest" ∷ []);
  allowed_actions = texts (
      "read_file" ∷ "search_code" ∷ "write_file" ∷ "patch_file" ∷ "run_command" ∷ "run_test"
      ∷ "run_lint" ∷ "complete_work" ∷ "next_action" ∷ "finish" ∷ []);
  approval_required_paths = texts ("migrations/" ∷ "infra/" ∷ []);
  network_policy = codes "package_registries_only";
}

abbrev node_next_pack : PolicyPack
node_next_pack = record {
  profile = codes "balanced";
  runner = codes "node-next";
  required_binaries = texts ("node" ∷ "npm" ∷ []);
  allow_commands =
      texts ("npm install" ∷ "npm test" ∷ "npm run test" ∷ "npm run lint" ∷ "npm run build" ∷ []);
  allowed_command_patterns =
      texts ("^npm (run )?(test|lint|build)( .*)?$" ∷ "^node -e \"console\\.log\\(.*\\)\"$" ∷ []);
  verification_required_commands = texts ("npm test" ∷ "npm run build" ∷ []);
  allowed_actions = texts (
      "read_file" ∷ "search_code" ∷ "write_file" ∷ "patch_file" ∷ "run_command" ∷ "run_test"
      ∷ "run_build" ∷ "run_lint" ∷ "complete_work" ∷ "next_action" ∷ "finish" ∷ []);
  approval_required_paths = texts ("pages/api/" ∷ "src/app/api/" ∷ "infra/" ∷ []);
  network_policy = codes "package_registries_only";
}

abbrev node_express_pack : PolicyPack
node_express_pack = record {
  profile = codes "balanced";
  runner = codes "node-express";
  required_binaries = texts ("node" ∷ "npm" ∷ []);
  allow_commands = texts ("npm test" ∷ "npm run test" ∷ "npm run lint" ∷ []);
  allowed_command_patterns =
      texts ("^npm (run )?(test|lint)( .*)?$" ∷ "^node -e \"console\\.log\\(.*\\)\"$" ∷ []);
  verification_required_commands = texts ("npm test" ∷ []);
  allowed_actions = texts (
      "read_file" ∷ "search_code" ∷ "write_file" ∷ "patch_file" ∷ "run_command" ∷ "run_test"
      ∷ "run_lint" ∷ "complete_work" ∷ "next_action" ∷ "finish" ∷ []);
  approval_required_paths = texts ("infra/" ∷ "migrations/" ∷ []);
  network_policy = codes "package_registries_only";
}

abbrev node_nest_pack : PolicyPack
node_nest_pack = record {
  profile = codes "balanced";
  runner = codes "node-nest";
  required_binaries = texts ("node" ∷ "npm" ∷ []);
  allow_commands = texts ("npm test" ∷ "npm run test" ∷ "npm run build" ∷ "npm run lint" ∷ []);
  allowed_command_patterns =
      texts ("^npm (run )?(test|build|lint)( .*)?$" ∷ "^node -e \"console\\.log\\(.*\\)\"$" ∷ []);
  verification_required_commands = texts ("npm test" ∷ "npm run build" ∷ []);
  allowed_actions = texts (
      "read_file" ∷ "search_code" ∷ "write_file" ∷ "patch_file" ∷ "run_command" ∷ "run_test"
      ∷ "run_build" ∷ "run_lint" ∷ "complete_work" ∷ "next_action" ∷ "finish" ∷ []);
  approval_required_paths = texts ("infra/" ∷ "migrations/" ∷ []);
  network_policy = codes "package_registries_only";
}

abbrev vite_react_pack : PolicyPack
vite_react_pack = record {
  profile = codes "balanced";
  runner = codes "vite-react";
  required_binaries = texts ("node" ∷ "npm" ∷ []);
  allow_commands = texts ("npm test" ∷ "npm run test" ∷ "npm run build" ∷ "npm run lint" ∷ []);
  allowed_command_patterns =
      texts ("^npm (run )?(test|build|lint)( .*)?$" ∷ "^node -e \"console\\.log\\(.*\\)\"$" ∷ []);
  verification_required_commands = texts ("npm run build" ∷ []);
  allowed_actions = texts (
      "read_file" ∷ "search_code" ∷ "write_file" ∷ "patch_file" ∷ "run_command" ∷ "run_test"
      ∷ "run_build" ∷ "run_lint" ∷ "complete_work" ∷ "next_action" ∷ "finish" ∷ []);
  approval_required_paths = texts ("infra/" ∷ []);
  network_policy = codes "package_registries_only";
}

abbrev monorepo_pnpm_pack : PolicyPack
monorepo_pnpm_pack = record {
  profile = codes "full-dev";
  runner = codes "monorepo-pnpm";
  required_binaries = texts ("node" ∷ "pnpm" ∷ []);
  allow_commands = texts ("pnpm install" ∷ "pnpm test" ∷ "pnpm lint" ∷ "pnpm build" ∷ []);
  allowed_command_patterns =
      texts ("^pnpm (install|test|lint|build)( .*)?$" ∷ "^node -e \"console\\.log\\(.*\\)\"$" ∷ []);
  verification_required_commands = texts ("pnpm test" ∷ []);
  allowed_actions = texts (
      "read_file" ∷ "search_code" ∷ "write_file" ∷ "patch_file" ∷ "move_file" ∷ "run_command"
      ∷ "run_test" ∷ "run_build" ∷ "run_lint" ∷ "complete_work" ∷ "next_action" ∷ "finish" ∷ []);
  approval_required_paths = texts ("infra/" ∷ "apps/" ∷ "packages/" ∷ []);
  network_policy = codes "package_registries_only";
}

abbrev go_service_pack : PolicyPack
go_service_pack = record {
  profile = codes "full-dev";
  runner = codes "go-service";
  required_binaries = texts ("go" ∷ []);
  allow_commands = texts ("go mod tidy" ∷ "go test" ∷ "go test ./..." ∷ "go build" ∷ "go vet" ∷ []);
  allowed_command_patterns = texts ("^go (test|build|vet)( .*)?$" ∷ []);
  verification_required_commands = texts ("go test" ∷ []);
  allowed_actions = texts (
      "read_file" ∷ "search_code" ∷ "write_file" ∷ "patch_file" ∷ "run_command" ∷ "run_test"
      ∷ "run_build" ∷ "complete_work" ∷ "next_action" ∷ "finish" ∷ []);
  approval_required_paths = texts ("migrations/" ∷ "infra/" ∷ []);
  network_policy = codes "offline";
}

abbrev rust_cli_pack : PolicyPack
rust_cli_pack = record {
  profile = codes "full-dev";
  runner = codes "rust-cli";
  required_binaries = texts ("cargo" ∷ []);
  allow_commands =
      texts ("cargo fetch" ∷ "cargo build" ∷ "cargo test" ∷ "cargo fmt" ∷ "cargo clippy" ∷ []);
  allowed_command_patterns = texts ("^cargo (build|test|fmt|clippy)( .*)?$" ∷ []);
  verification_required_commands = texts ("cargo test" ∷ []);
  allowed_actions = texts (
      "read_file" ∷ "search_code" ∷ "write_file" ∷ "patch_file" ∷ "run_command" ∷ "run_test"
      ∷ "run_build" ∷ "run_format" ∷ "complete_work" ∷ "next_action" ∷ "finish" ∷ []);
  approval_required_paths = texts (".github/" ∷ "infra/" ∷ []);
  network_policy = codes "offline";
}

abbrev java_gradle_pack : PolicyPack
java_gradle_pack = record {
  profile = codes "full-dev";
  runner = codes "java-gradle";
  required_binaries = texts ("java" ∷ "gradle" ∷ []);
  allow_commands = texts (
      "gradle dependencies" ∷ "./gradlew test" ∷ "gradle test" ∷ "./gradlew build" ∷ "gradle build"
      ∷ "java -version" ∷ []);
  allowed_command_patterns = texts ("^(\\./gradlew|gradle) (test|build)( .*)?$" ∷ []);
  verification_required_commands = texts ("test" ∷ []);
  allowed_actions = texts (
      "read_file" ∷ "search_code" ∷ "write_file" ∷ "patch_file" ∷ "run_command" ∷ "run_test"
      ∷ "run_build" ∷ "complete_work" ∷ "next_action" ∷ "finish" ∷ []);
  approval_required_paths = texts ("infra/" ∷ "src/main/resources/" ∷ []);
  network_policy = codes "package_registries_only";
}

abbrev policy_packs : List (Text × PolicyPack)
policy_packs =
    (codes "python-fastapi", python_fastapi_pack)
    ∷ (codes "python-django", python_django_pack)
    ∷ (codes "python-flask", python_flask_pack)
    ∷ (codes "node-next", node_next_pack)
    ∷ (codes "node-express", node_express_pack)
    ∷ (codes "node-nest", node_nest_pack)
    ∷ (codes "vite-react", vite_react_pack)
    ∷ (codes "monorepo-pnpm", monorepo_pnpm_pack)
    ∷ (codes "go-service", go_service_pack)
    ∷ (codes "rust-cli", rust_cli_pack)
    ∷ (codes "java-gradle", java_gradle_pack)
    ∷ []

-- get_policy_pack: a missing pack is an empty dict, none here.
unfoldable pub get_policy_pack : Text → Option PolicyPack
get_policy_pack name = if is_empty name then none else entry name policy_packs

-- The three lists of a scan that the choice reads.
pub record Scan : Type 0 where
  pub frameworks : List Text
  pub package_managers : List Text
  pub languages : List Text

unfoldable pub infer_policy_pack : Scan → Option Text
infer_policy_pack scan =
    if text_in (codes "nextjs") scan.frameworks
    then some (codes "node-next")
    else if text_in (codes "nestjs") scan.frameworks
    then some (codes "node-nest")
    else if text_in (codes "express") scan.frameworks
    then some (codes "node-express")
    else if text_in (codes "vite") scan.frameworks && text_in (codes "react") scan.frameworks
    then some (codes "vite-react")
    else if text_in (codes "pnpm-workspace") scan.frameworks
        || (text_in (codes "pnpm") scan.package_managers && text_in (codes "nx") scan.frameworks)
    then some (codes "monorepo-pnpm")
    else if text_in (codes "django") scan.frameworks
    then some (codes "python-django")
    else if text_in (codes "flask") scan.frameworks
    then some (codes "python-flask")
    else if text_in (codes "fastapi") scan.frameworks
    then some (codes "python-fastapi")
    else if text_in (codes "python") scan.languages
        && (text_in (codes "pip") scan.package_managers
            || text_in (codes "uv") scan.package_managers)
    then some (codes "python-fastapi")
    else if text_in (codes "jvm") scan.frameworks
        || (text_in (codes "java") scan.languages || text_in (codes "kotlin") scan.languages)
    then some (codes "java-gradle")
    else if text_in (codes "go") scan.languages
    then some (codes "go-service")
    else if text_in (codes "rust") scan.languages
    then some (codes "rust-cli")
    else none
