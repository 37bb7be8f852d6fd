-- ===== src/Execution/Stream.antt =====
-- RunExecutionService.stream_execute. What the generator yields is the list of the events. A reader
-- either takes every event (none), or closes the generator after the first event and `n` chunks
-- (some n): GeneratorExit is no Exception, so nothing behind that yield is run.
pub mod Whole
pub mod Settled
pub mod Replay
use syncore.Common.{
  zero, ltb, length, take, if◌then◌else◌, ℕ, suc, Text, codes, Bool, Option, none, some, List, [],
  ◌∷◌, ◌++◌, map, join, String,
}
use syncore.Models.{AgentRun}
use syncore.Store.{Store, Action, Result, ok, err, Error, ◌>>=◌, ◌>>◌, pure, message}
use syncore.Store.Runs.{update_agent_run}
use syncore.Autonomy.Stage.{record_event}
use syncore.Execution.{
  RunRequest, RunResponse, RunConfig, OptimizedBundle, Provider, ProviderStream, build_prompt,
}
use syncore.Context.References.{estimate_tokens}
use syncore.Execution.Providers.{resolve_provider, call_of}
use syncore.Execution.References.{store_text_reference, store_run_output_reference}
use syncore.Execution.Guards.{maybe_get_idempotent_response, enforce_concurrency_limits}
use syncore.Execution.Execute.{try_except, completed_run, completed_event, note_failed, start_run}

-- RunStreamEventType
pub data StreamEventType : Type 0 where
  started chunk completed error : StreamEventType

pub record RunStreamEvent : Type 0 where
  pub event : StreamEventType
  pub run_id : ℕ
  pub task_id : ℕ
  pub provider : Text
  pub target_model : Text
  pub content : Option Text
  pub estimated_output_tokens : Option ℕ
  pub error_text : Option Text

module _ (config : RunConfig) (payload : RunRequest) where
  -- An event of this run without the fields of one kind only.
  abbrev pub event_of : StreamEventType → ℕ → Text → RunStreamEvent
  event_of kind run_id provider = record {
    event = kind;
    run_id = run_id;
    task_id = payload.task_id;
    provider = provider;
    target_model = payload.target_model;
    content = none;
    estimated_output_tokens = none;
    error_text = none;
  }

  abbrev pub chunk_event : ℕ → Text → Text → RunStreamEvent
  chunk_event run_id provider piece = record (event_of chunk run_id provider) {
    content = some piece;
  }

  abbrev pub duplicate_event : RunResponse → RunStreamEvent
  duplicate_event r = record {
    event = completed;
    run_id = r.run_id;
    task_id = r.task_id;
    provider = r.provider;
    target_model = r.target_model;
    content = none;
    estimated_output_tokens = some r.estimated_output_tokens;
    error_text = none;
  }

  -- The try block behind the last chunk.
  abbrev pub finish_stream : AgentRun → Text → Text → Text → Action (List RunStreamEvent)
  finish_stream run prompt provider full_output = do
    update_agent_run run.id (completed_run config full_output)
    output_ref_id ←
        store_run_output_reference config payload.task_id run.id provider payload.target_model
          full_output
    record_event payload.task_id "run.completed"
        (completed_event config payload prompt (provider, full_output) output_ref_id)
    pure (
        record (event_of completed run.id provider) {
          estimated_output_tokens = some (estimate_tokens full_output);
        }
        ∷ [])

  -- The except block.
  abbrev pub fail_stream : AgentRun → Text → Error → Action (List RunStreamEvent)
  fail_stream run provider e = do
    note_failed config payload run provider e
    pure (record (event_of error run.id provider) { error_text = some (message e) } ∷ [])

  -- The end of the stream: an exception of the provider goes to the except block.
  abbrev pub end_stream :
      AgentRun → Text → Text → List Text → Option Error → Action (List RunStreamEvent)
  end_stream run prompt provider chunks (some e) = fail_stream run provider e
  end_stream run prompt provider chunks none =
      try_except (finish_stream run prompt provider (join [] chunks)) (fail_stream run provider)

  -- What a reader has seen that leaves behind these chunks.
  abbrev pub seen : AgentRun → Text → List Text → List RunStreamEvent
  seen run name chunks = event_of started run.id name ∷ map (chunk_event run.id name) chunks

  -- All of the chunks, and what follows.
  abbrev pub whole_stream : AgentRun → Text → Text → ProviderStream → Action (List RunStreamEvent)
  whole_stream run prompt name answer = do
    ending ← end_stream run prompt name answer.chunks answer.failure
    pure (seen run name answer.chunks ++ ending)

  -- From the first event on; the provider is called when the reader asks for the second one.
  unfoldable pub stream_run :
      Option ℕ → AgentRun → Text → Text × Provider → Action (List RunStreamEvent)
  stream_run none run prompt (name, provider) s =
      whole_stream run prompt name (provider.stream s.tick (call_of payload prompt))
        (record s { tick = suc s.tick })
  stream_run (some zero) run prompt (name, provider) s = (ok (seen run name []), s)
  stream_run (some (suc n)) run prompt (name, provider) s =
      let answer = provider.stream s.tick (call_of payload prompt) in
      (if ltb n (length answer.chunks)
          then pure (seen run name (take (suc n) answer.chunks))
          else whole_stream run prompt name answer)
        (record s { tick = suc s.tick })

  module _ (reader : Option ℕ) where
    abbrev pub stream_with_provider :
        OptimizedBundle → Text × Provider → Action (List RunStreamEvent)
    stream_with_provider bundle (name, provider) =
        let prompt = build_prompt payload.prompt bundle.rendered_prompt in
        (do
          prompt_ref_id ←
              store_text_reference config payload.task_id (codes "run_prompt") prompt
                (codes "Full worker prompt snapshot for this run.")
          context_ref_id ←
              store_text_reference config payload.task_id (codes "run_context_rendered")
                bundle.rendered_prompt (codes "Rendered optimized context used for this run.")
          run ← start_run config payload name prompt_ref_id context_ref_id
          stream_run reader run prompt (name, provider))

    abbrev pub stream_new : Option RunResponse → Action (List RunStreamEvent)
    stream_new (some duplicate) = pure (duplicate_event duplicate ∷ [])
    stream_new none = do
      enforce_concurrency_limits config payload.task_id
      bundle ← config.assemble_optimized_context payload
      chosen ← resolve_provider config payload.provider
      stream_with_provider bundle chosen

    unfoldable pub stream_execute : Action (List RunStreamEvent)
    stream_execute = do
      duplicate ← maybe_get_idempotent_response config payload
      stream_new duplicate
