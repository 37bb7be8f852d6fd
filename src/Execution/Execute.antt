-- ===== src/Execution/Execute.antt =====
-- RunExecutionService.execute.
use syncore.Common.{ℕ, ◌+◌, Text, codes, Option, none, some, List, [], ◌∷◌, ◌++◌, take, pos}
use syncore.Models.{
  AgentRun, AgentRunCreate, AgentRunUpdate, running, completed, failed, text, int, Fields,
  ProjectEvent,
}
use syncore.Store.{
  Store, Action, Result, ok, err, Error, runtime_error, ◌>>=◌, ◌>>◌, pure, raise, message,
}
use syncore.Store.Runs.{create_agent_run, update_agent_run}
use syncore.Autonomy.Stage.{record_event}
use syncore.Autonomy.Uuid.{uuid_text}
use syncore.AgentRuns.{read_now}
use syncore.Execution.{RunRequest, RunResponse, RunConfig, OptimizedBundle, build_prompt}
use syncore.Execution.Providers.{provider_candidates, complete_with_failover}
use syncore.Context.References.{estimate_tokens, compact}
use syncore.Execution.References.{store_text_reference, store_run_output_reference}
use syncore.Execution.Guards.{
  maybe_get_idempotent_response, persist_idempotent_response, enforce_concurrency_limits,
}

-- try: m; except Exception as error: handler(error)
abbrev pub handled : {A : Type 0} → Result A × Store → (Error → Action A) → Result A × Store
handled (ok a, s) handler = (ok a, s)
handled (err e, s) handler = handler e s

abbrev pub try_except : {A : Type 0} → Action A → (Error → Action A) → Action A
try_except m handler s = handled (m s) handler

abbrev pub first_or : Text → List Text → Text
first_or default [] = default
first_or default (t ∷ ts) = t

abbrev pub new_run : RunConfig → RunRequest → AgentRunCreate
new_run config payload = record {
  task_id = payload.task_id;
  role = payload.agent_role;
  status = running;
  input_summary = some (config.shorten (compact payload.prompt) 300);
}

abbrev pub completed_run : RunConfig → Text → AgentRunUpdate
completed_run config output = record {
  status = some completed;
  output_summary = some (config.shorten output 500);
  error_message = none;
}

abbrev pub failed_run : Error → AgentRunUpdate
failed_run e = record {
  status = some failed;
  output_summary = none;
  error_message = some (take 500 (message e));
}

abbrev pub response_of :
    RunRequest → OptimizedBundle → AgentRun → Text → Text × Text → ℕ → RunResponse
response_of payload bundle run prompt (name, output) completed_at = record {
  run_id = run.id;
  task_id = payload.task_id;
  status = completed;
  provider = name;
  target_agent = payload.target_agent;
  target_model = payload.target_model;
  output_text = output;
  estimated_input_tokens = estimate_tokens prompt;
  estimated_output_tokens = estimate_tokens output;
  total_estimated_tokens = estimate_tokens prompt + estimate_tokens output;
  optimized_bundle_id = bundle.bundle_id;
  included_refs = bundle.included_refs;
  warnings = bundle.warnings;
  created_at = run.created_at;
  completed_at = completed_at;
}

module _ (config : RunConfig) (payload : RunRequest) where
  abbrev pub completed_event : Text → Text × Text → Text → Fields
  completed_event prompt (name, output) output_ref_id =
      ("provider", text name)
      ∷ ("target_model", text payload.target_model)
      ∷ ("estimated_input_tokens", int (pos (estimate_tokens prompt)))
      ∷ ("estimated_output_tokens", int (pos (estimate_tokens output)))
      ∷ ("output_ref_id", text output_ref_id)
      ∷ []

  -- The rest of the try block behind the update of the run.
  abbrev pub note_completed :
      OptimizedBundle → AgentRun → Text → Text × Text → ℕ → Action RunResponse
  note_completed bundle run prompt (name, output) completed_at = do
    output_ref_id ←
        store_run_output_reference config payload.task_id run.id name payload.target_model output
    record_event payload.task_id "run.completed"
        (completed_event prompt (name, output) output_ref_id)
    persist_idempotent_response config payload
        (response_of payload bundle run prompt (name, output) completed_at)
    pure (response_of payload bundle run prompt (name, output) completed_at)

  -- From the answer of the provider to the end of the try block.
  abbrev pub finish_run : OptimizedBundle → AgentRun → Text → Text × Text → Action RunResponse
  finish_run bundle run prompt (name, output) = do
    completed_at ← read_now
    update_agent_run run.id (completed_run config output)
    note_completed bundle run prompt (name, output) completed_at

  -- What the except block writes.
  abbrev pub note_failed : AgentRun → Text → Error → Action ProjectEvent
  note_failed run provider error = do
    update_agent_run run.id (failed_run error)
    record_event payload.task_id "run.failed" (
        ("provider", text provider)
        ∷ ("target_model", text payload.target_model)
        ∷ ("error", text (take 250 (message error)))
        ∷ [])

  -- The except block.
  abbrev pub fail_run : AgentRun → Text → Error → Action RunResponse
  fail_run run provider error = do
    note_failed run provider error
    raise (runtime_error (codes "Run execution failed: " ++ message error))

  -- The try block with its handler.
  unfoldable pub attempt_run : OptimizedBundle → AgentRun → Text → Text → Action RunResponse
  attempt_run bundle run prompt provider =
      try_except (complete_with_failover config payload prompt >>= finish_run bundle run prompt)
        (fail_run run provider)

  abbrev pub requested : Text
  requested = first_or config.default_provider (provider_candidates config payload.provider)

  abbrev pub note_started : Text → Text → Text → AgentRun → Action AgentRun
  note_started provider prompt_ref_id context_ref_id run = do
    record_event payload.task_id "run.started" (
        ("run_id", text (uuid_text run.id))
        ∷ ("provider", text provider)
        ∷ ("target_model", text payload.target_model)
        ∷ ("target_agent", text payload.target_agent)
        ∷ ("prompt_ref_id", text prompt_ref_id)
        ∷ ("context_ref_id", text context_ref_id)
        ∷ [])
    pure run

  unfoldable pub start_run : Text → Text → Text → Action AgentRun
  start_run provider prompt_ref_id context_ref_id = do
    run ← create_agent_run (new_run config payload)
    note_started provider prompt_ref_id context_ref_id run

  abbrev pub run_with_context : OptimizedBundle → Action RunResponse
  run_with_context bundle =
      let prompt = build_prompt payload.prompt bundle.rendered_prompt in
      (do
        prompt_ref_id ←
            store_text_reference config payload.task_id (codes "run_prompt") prompt
              (codes "Full worker prompt snapshot for this run.")
        context_ref_id ←
            store_text_reference config payload.task_id (codes "run_context_rendered")
              bundle.rendered_prompt (codes "Rendered optimized context used for this run.")
        run ← start_run requested prompt_ref_id context_ref_id
        attempt_run bundle run prompt requested)

  abbrev pub execute_new : Option RunResponse → Action RunResponse
  execute_new (some duplicate) = pure duplicate
  execute_new none = do
    enforce_concurrency_limits config payload.task_id
    bundle ← config.assemble_optimized_context payload
    run_with_context bundle

  unfoldable pub execute : Action RunResponse
  execute = do duplicate ← maybe_get_idempotent_response config payload; execute_new duplicate
