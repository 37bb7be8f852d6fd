-- ===== src/Execution/Stream/Replay.antt =====
-- A streamed run leaves no answer for a repeated request.
use syncore.Common.{ℕ, zero, ltb, length, suc, ◌≡◌, Text, Option, none, some, List, [], join}
use syncore.Models.{AgentRun}
use syncore.Store.{Store, Result, ok, err, Error}
use syncore.Store.Keeps.{Keeps, Keeps-if, Keeps-pure, Keeps-bind, Keeps-then}
use syncore.Store.Runs.{update_agent_run, create_agent_run}
use syncore.Store.Events.{save_project_event}
use syncore.Autonomy.Stage.{record_event}
use syncore.Execution.{RunRequest, RunConfig, Provider, ProviderStream}
use syncore.Execution.Providers.{call_of}
use syncore.Execution.References.{store_run_output_reference}
use syncore.Execution.Execute.{handled, completed_run, completed_event, start_run}
use syncore.Execution.Frame.{start_run-Keeps, record_event-Keeps, store_run_output_reference-Keeps}
use syncore.Execution.Replay.{kept, IsNew, IsNew-stable}
use syncore.Execution.Stream.{
  RunStreamEvent, stream_execute, stream_run, whole_stream, end_stream, finish_stream, fail_stream,
}
use syncore.Execution.Stream.Whole.{stream_execute-Keeps}

module _ (config : RunConfig) (payload : RunRequest) where
  abbrev New : Store → Type 0
  New = IsNew config payload

  fail_stream-IsNew :
      (run : AgentRun) (provider : Text) (e : Error)
      → Keeps New (fail_stream config payload run provider e)
  unfolding IsNew update_agent_run save_project_event
  fail_stream-IsNew run provider e = record { at = λ s h. h }

  finish_stream-IsNew :
      (run : AgentRun) (prompt provider output : Text)
      → Keeps New (finish_stream config payload run prompt provider output)
  unfolding IsNew update_agent_run
  finish_stream-IsNew run prompt provider output =
      let stable = IsNew-stable config payload in
      let fields = completed_event config payload prompt (provider, output) in
      Keeps-then (update_agent_run run.id (completed_run config output)) _
        (record { at = λ s h. h })
        (Keeps-bind
          (store_run_output_reference config payload.task_id run.id provider payload.target_model
            output)
          _ (store_run_output_reference-Keeps New stable config payload run.id provider output)
          (λ ref.
            Keeps-then (record_event payload.task_id "run.completed" (fields ref)) _
              (record_event-Keeps New stable config payload payload.task_id "run.completed"
                (fields ref))
              (Keeps-pure _)))

  handled-IsNew :
      (run : AgentRun) (provider : Text) (out : Result (List RunStreamEvent) × Store)
      → New out.1
      → New (handled out (fail_stream config payload run provider)).1
  handled-IsNew run provider (ok a, s) h = h
  handled-IsNew run provider (err e, s) h = (fail_stream-IsNew run provider e).at s h

  end_stream-IsNew :
      (run : AgentRun) (prompt provider : Text) (chunks : List Text) (failure : Option Error)
      → Keeps New (end_stream config payload run prompt provider chunks failure)
  end_stream-IsNew run prompt provider chunks (some e) = fail_stream-IsNew run provider e
  end_stream-IsNew run prompt provider chunks none = record {
    at = λ s h.
        handled-IsNew run provider
          (finish_stream config payload run prompt provider (join [] chunks) s)
          ((finish_stream-IsNew run prompt provider (join [] chunks)).at s h);
  }

  whole_stream-IsNew :
      (prompt name : Text) (run : AgentRun) (answer : ProviderStream)
      → Keeps New (whole_stream config payload run prompt name answer)
  whole_stream-IsNew prompt name run answer =
      Keeps-bind (end_stream config payload run prompt name answer.chunks answer.failure) _
        (end_stream-IsNew run prompt name answer.chunks answer.failure) (λ ending. Keeps-pure _)

  stream_run-IsNew :
      (reader : Option ℕ) (prompt name : Text) (provider : Provider) (run : AgentRun)
      → Keeps New (stream_run config payload reader run prompt (name, provider))
  unfolding stream_run IsNew
  stream_run-IsNew none prompt name provider run = record {
    at = λ s h.
        (whole_stream-IsNew prompt name run (provider.stream s.tick (call_of payload prompt))).at
          (record s { tick = suc s.tick }) h;
  }
  stream_run-IsNew (some zero) prompt name provider run = record { at = λ s h. h }
  stream_run-IsNew (some (suc n)) prompt name provider run = record {
    at = λ s h.
        let answer = provider.stream s.tick (call_of payload prompt) in
        (Keeps-if (ltb n (length answer.chunks)) _ _ (Keeps-pure _)
            (whole_stream-IsNew prompt name run answer)).at
          (record s { tick = suc s.tick }) h;
  }

  -- If no answer is kept under a request's idempotency key, none is kept after stream_execute either, so
  -- the same request, made again, is run again. This holds for a reader that takes every event and for
  -- one that leaves before the end.
  pub stream_execute-forgets :
      (reader : Option ℕ) (s : Store)
      → kept config payload s ≡ none
      → kept config payload (stream_execute config payload reader s).1 ≡ none
  unfolding IsNew start_run create_agent_run save_project_event
  stream_execute-forgets reader s new =
      (stream_execute-Keeps New (IsNew-stable config payload) config payload reader
          (λ prompt prompt_ref context_ref name provider.
            Keeps-bind (start_run config payload name prompt_ref context_ref) _
              (start_run-Keeps New (λ s rows h. h) config payload name prompt_ref context_ref
                (λ run. record { at = λ s h. h }))
              (stream_run-IsNew reader prompt name provider))).at
        s new
