-- ===== src/Execution/Guards.antt =====
-- What comes before a run: the answer to a repeated request, and the limits on concurrent runs.
use syncore.Common.{
  ℕ, ◌+◌, max, leb, if◌then◌else◌, Text, codes, is_empty, strip, Bool, Option, none, some, List, [],
  ◌∷◌, ◌++◌, count_if,
}
use syncore.Models.{AgentRun, Task}
use syncore.Store.{Action, Reference, runtime_error, ◌>>=◌, ◌>>◌, pure, raise}
use syncore.Store.Tasks.{get_task, list_tasks}
use syncore.Store.Runs.{list_agent_runs}
use syncore.Store.References.{ReferenceCreate, get_context_reference, upsert_context_reference}
use syncore.Autonomy.Uuid.{uuid_hex, uuid_text}
use syncore.Autonomy.Values.{decimal}
use syncore.AgentRuns.{is_active}
use syncore.Execution.{RunRequest, RunResponse, RunConfig}
use syncore.Execution.Providers.{or_empty}

-- (payload.idempotency_key or "").strip()
abbrev pub key_of : RunRequest → Text
key_of payload = strip (or_empty payload.idempotency_key)

-- f"idem_{payload.task_id.hex}_{key}"
unfoldable pub idem_ref : RunRequest → Text
idem_ref payload = codes "idem_" ++ uuid_hex payload.task_id ++ codes "_" ++ key_of payload

abbrev pub load_reference : RunConfig → Option Reference → Action (Option RunResponse)
load_reference config none = pure none
load_reference config (some ref) = λ s. (config.load_json ref.original_content, s)

-- _maybe_get_idempotent_response
unfoldable pub maybe_get_idempotent_response : RunConfig → RunRequest → Action (Option RunResponse)
unfolding idem_ref
maybe_get_idempotent_response config payload =
    if is_empty (key_of payload)
    then pure none
    else (do ref ← get_context_reference (idem_ref payload); load_reference config ref)

abbrev pub response_reference : RunConfig → RunRequest → RunResponse → ReferenceCreate
response_reference config payload response = record {
  ref_id = idem_ref payload;
  task_id = payload.task_id;
  content_type = codes "run_response";
  original_content = config.dump_json response;
  summary = codes "Idempotent response for task " ++ uuid_text payload.task_id;
  retrieval_hint = codes "Internal idempotency replay record.";
}

-- _persist_idempotent_response
unfoldable pub persist_idempotent_response :
    RunConfig → RunRequest → RunResponse → Action (Unit {0})
unfolding idem_ref
persist_idempotent_response config payload response =
    if is_empty (key_of payload)
    then pure tt
    else (do upsert_context_reference (response_reference config payload response); pure tt)

abbrev pub run_is_active : AgentRun → Bool
run_is_active run = is_active run.status

abbrev pub workspace_limit : RunConfig → ℕ
workspace_limit config = max config.max_concurrent_runs_per_workspace 1

abbrev pub task_limit : RunConfig → ℕ
task_limit config = max config.max_concurrent_runs_per_task 1

-- The loop over the tasks of the workspace; `active` runs are counted so far.
abbrev pub count_workspace : RunConfig → ℕ → List Task → Action (Unit {0})
count_workspace config active [] = pure tt
count_workspace config active (t ∷ ts) = do
  runs ← list_agent_runs (some t.id) 200
  let total = active + count_if run_is_active runs
  if leb (workspace_limit config) total
      then raise (
          runtime_error (
            codes "Workspace concurrency limit reached ("
            ++ decimal (workspace_limit config)
            ++ codes ")."))
      else count_workspace config total ts

abbrev pub limit_workspace : RunConfig → Option ℕ → Action (Unit {0})
limit_workspace config none = pure tt
limit_workspace config (some workspace_id) = do
  tasks ← list_tasks 500 (some workspace_id)
  count_workspace config 0 tasks

abbrev pub limit_task_workspace : RunConfig → Option Task → Action (Unit {0})
limit_task_workspace config none = pure tt
limit_task_workspace config (some t) = limit_workspace config t.workspace_id

-- _enforce_concurrency_limits
unfoldable pub enforce_concurrency_limits : RunConfig → ℕ → Action (Unit {0})
enforce_concurrency_limits config task_id = do
  runs ← list_agent_runs (some task_id) 200
  if leb (task_limit config) (count_if run_is_active runs)
      then raise (
          runtime_error
            (codes "Task concurrency limit reached (" ++ decimal (task_limit config) ++ codes ")."))
      else (do task ← get_task task_id; limit_task_workspace config task)
