-- ===== src/Execution/Tests.antt =====
-- Runs of a small store, with local_echo behind a provider that always fails.
pub mod Codec
use syncore.Common.{
  ℕ, Bool, ◌≤◌, ◌≡◌, refl, arith, Text, codes, true, false, none, some, [], ◌∷◌, is_empty, take,
  count_if, join, pos, List,
}
use syncore.Models.{AgentRun, running, queued, coder, Fields}
use syncore.Store.{Store, Result, ok, err, Error, runtime_error}
use syncore.Store.Returns.{Returns}
use syncore.RunQueue.{scan_once}
use syncore.Execution.{
  build_prompt, RunRequest, RunResponse, RunConfig, Provider, ProviderCall, OptimizedBundle,
}
use syncore.Store.Order.{order_asc}
use syncore.Store.Tasks.{get_task}
use syncore.Store.Runs.{create_agent_run, update_agent_run, list_agent_runs}
use syncore.Store.Events.{save_project_event}
use syncore.Store.References.{get_context_reference, upsert_context_reference}
use syncore.Execution.Guards.{
  maybe_get_idempotent_response, enforce_concurrency_limits, persist_idempotent_response,
}
use syncore.Execution.References.{store_text_reference, store_run_output_reference}
use syncore.Execution.Providers.{
  run_complete_with_timeout, provider_candidates, provider_names, complete_with_failover,
  explicit_of, primary_of,
}
use syncore.Execution.Execute.{execute, start_run, attempt_run}
use syncore.Execution.Failover.{
  Candidates, provider_candidates-Candidates, IsAnswerOf, complete_with_failover-answers,
}
use syncore.Execution.LocalEcho.{local_echo, echo_stream, echo_complete, echo_stream-join}
use syncore.Execution.Settled.{active_of, execute-active_le}
use syncore.Execution.Limits.{execute-limited}
use syncore.Execution.Replay.{kept, execute-execute}
use syncore.Execution.Stream.{stream_execute}
use syncore.Execution.Stream.Settled.{stream_execute-active_le}
use syncore.Execution.Stream.Replay.{stream_execute-forgets}
use syncore.Execution.Queue.{run_execution}
use syncore.Execution.Scan.{scan_once-active_le}
use syncore.Execution.Tests.Codec.{dump, load, load-dump}
use syncore.Samples.{task_store, job}

abbrev cut : Text → ℕ → Text
cut t width = take width t

abbrev unreachable : Provider
unreachable = record {
  complete = λ tick call. record { seconds = 0; result = err (runtime_error (codes "503")) };
  stream = λ tick call. record { chunks = []; failure = some (runtime_error (codes "503")) };
}

abbrev config : RunConfig
config = record {
  providers = (codes "openai", unreachable) ∷ (codes "local_echo", local_echo cut) ∷ [];
  default_provider = codes "openai";
  failover_enabled = true;
  fallback_order = codes "openai" ∷ codes "gemini" ∷ [];
  provider_setup_hints = [];
  default_timeout_seconds = 90;
  max_concurrent_runs_per_task = 1;
  max_concurrent_runs_per_workspace = 4;
  sha1 = λ t. t;
  shorten = cut;
  dump_json = dump;
  load_json = load;
  load-dump = load-dump;
  assemble_optimized_context = λ p s. (
    ok (record {
      bundle_id = none;
      rendered_prompt = codes "## Task";
      included_refs = [];
      warnings = [];
    }),
    s,
  );
  assemble-runs = λ p s. refl;
  assemble-replays = λ p s j i. refl;
  assemble-jobs = λ p s. refl;
}

abbrev request : RunRequest
request = record {
  task_id = 7;
  prompt = codes "Add a limit";
  target_agent = codes "coder";
  target_model = codes "local_echo";
  token_budget = 8_000;
  provider = none;
  idempotency_key = some (codes "k1");
  agent_role = coder;
  system_prompt = none;
  max_output_tokens = 64;
  temperature = 200_000;
  timeout_seconds = none;
}

abbrev a_run : AgentRun
a_run = record {
  id = 1;
  task_id = 7;
  role = coder;
  status = running;
  input_summary = none;
  output_summary = none;
  error_message = none;
  created_at = 1;
  updated_at = 1;
}

abbrev busy : Store
busy = record task_store { runs = a_run ∷ [] }

provider_candidates-Candidates_example :
    Candidates true true
      (codes "openai")
      (codes "openai" ∷ codes "local_echo" ∷ [])
      (provider_candidates config none)
provider_candidates-Candidates_example = provider_candidates-Candidates config none

complete_with_failover-answers_example :
    Returns
      (IsAnswerOf (provider_candidates config none))
      (complete_with_failover config request (codes "hello") task_store)
complete_with_failover-answers_example =
    complete_with_failover-answers config request (codes "hello") (codes "local_echo")
      (local_echo cut) task_store refl refl refl (λ tick call. (omega arith, (_, refl)))

echo_stream-join_example :
    join [] (
      echo_stream cut (record {
        model = codes "local_echo";
        prompt = codes "hello";
        system_prompt = none;
        max_output_tokens = 64;
        temperature = 0;
      }))
    ≡ echo_complete cut (record {
      model = codes "local_echo";
      prompt = codes "hello";
      system_prompt = none;
      max_output_tokens = 64;
      temperature = 0;
    })
echo_stream-join_example = echo_stream-join cut (record {
  model = codes "local_echo";
  prompt = codes "hello";
  system_prompt = none;
  max_output_tokens = 64;
  temperature = 0;
})

execute-active_le_example :
    count_if (active_of 7) (execute config request busy).1.runs ≤ count_if (active_of 7) busy.runs
execute-active_le_example = execute-active_le config request 7 busy

stream_execute-active_le_example :
    count_if (active_of 7) (stream_execute config request none task_store).1.runs ≤ 0
stream_execute-active_le_example = stream_execute-active_le config request 7 task_store

scan_once-active_le_example :
    count_if
      (active_of 7)
      (scan_once
        (run_execution config (λ p. []) (λ fields. ok request))
        5
        (record task_store { jobs = job 1 ∷ [] })).1.runs
    ≤ 0
scan_once-active_le_example =
    scan_once-active_le config (λ p. []) (λ fields. ok request) 5 7
      (record task_store { jobs = job 1 ∷ [] })

execute-limited_example :
    (e : Error) × (execute config (record request { idempotency_key = none }) busy ≡ (err e, busy))
execute-limited_example =
    execute-limited config (record request { idempotency_key = none }) busy refl (omega arith)
      (omega arith)

stream_execute-forgets_example :
    kept config request (stream_execute config request (some 0) task_store).1 ≡ none
stream_execute-forgets_example = stream_execute-forgets config request (some 0) task_store refl

abbrev answer_of : Result RunResponse × Store → RunResponse → RunResponse
answer_of (ok r, s) default = r
answer_of (err e, s) default = default

abbrev has_answer : Result RunResponse × Store → Bool
has_answer (ok r, s) = true
has_answer (err e, s) = false

answered :
    (out : Result RunResponse × Store) (default : RunResponse)
    → has_answer out ≡ true
    → out ≡ (ok (answer_of out default), out.1)
answered (ok r, s) default h = refl
answered (err e, s) default h = absurd (ground (arith, h))

abbrev no_response : RunResponse
no_response = record {
  run_id = 0;
  task_id = 0;
  status = queued;
  provider = [];
  target_agent = [];
  target_model = [];
  output_text = [];
  estimated_input_tokens = 0;
  estimated_output_tokens = 0;
  total_estimated_tokens = 0;
  optimized_bundle_id = none;
  included_refs = [];
  warnings = [];
  created_at = 0;
  completed_at = 0;
}

-- The first call fails over to local_echo, which answers.
first_call-answers : has_answer (execute config request task_store) ≡ true
unfolding execute maybe_get_idempotent_response get_context_reference enforce_concurrency_limits
    list_agent_runs order_asc get_task store_text_reference upsert_context_reference start_run
    create_agent_run save_project_event attempt_run complete_with_failover provider_candidates
    run_complete_with_timeout update_agent_run store_run_output_reference
    persist_idempotent_response build_prompt echo_complete
first_call-answers = refl

execute-execute_example : execute config request (execute config request task_store).1 ≡ (
  ok (answer_of (execute config request task_store) no_response),
  (execute config request task_store).1,
)
execute-execute_example =
    execute-execute config request refl task_store (execute config request task_store).1
      (answer_of (execute config request task_store) no_response) refl
      (answered (execute config request task_store) no_response first_call-answers)
