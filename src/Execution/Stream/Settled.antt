-- ===== src/Execution/Stream/Settled.antt =====
-- A streamed run ends.
use syncore.Common.{ℕ, suc, ◌≤◌, refl, arith, Text, Option, none, some, List, [], count_if, join}
use syncore.Models.{AgentRun}
use syncore.Store.{Store, Result, ok, err, Error, pure, and_then}
use syncore.Store.Keeps.{Keeps-pure, Keeps-bind, Keeps-then}
use syncore.Store.Runs.{update_agent_run}
use syncore.Store.Events.{save_project_event}
use syncore.Autonomy.Stage.{record_event}
use syncore.Execution.{RunRequest, RunConfig, Provider}
use syncore.Execution.Providers.{call_of}
use syncore.Execution.References.{store_run_output_reference}
use syncore.Execution.Execute.{handled, completed_run, completed_event}
use syncore.Execution.Frame.{record_event-Keeps, store_run_output_reference-Keeps}
use syncore.Execution.Settled.{
  active_of, AtMost, AtMostBut, AtMost-stable, weaken, count-ended, note_failed-AtMost,
  start_run-AtMost,
}
use syncore.Execution.Stream.{
  RunStreamEvent, stream_execute, stream_run, end_stream, finish_stream, fail_stream,
}
use syncore.Execution.Stream.Whole.{stream_execute-Keeps}

module _ (config : RunConfig) (payload : RunRequest) (k n : ℕ) where
  abbrev Least : Store → Type 0
  Least = AtMost config payload k n

  abbrev LeastBut : ℕ → Store → Type 0
  LeastBut = AtMostBut config payload k n

  fail_stream-AtMost :
      (run : AgentRun) (provider : Text) (e : Error) (s : Store)
      → LeastBut run.id s
      → Least (fail_stream config payload run provider e s).1
  unfolding update_agent_run save_project_event
  fail_stream-AtMost run provider e s h = note_failed-AtMost config payload k n run provider e s h

  finish_stream-AtMost :
      (run : AgentRun) (prompt provider output : Text) (s : Store)
      → LeastBut run.id s
      → Least (finish_stream config payload run prompt provider output s).1
  unfolding AtMost AtMostBut update_agent_run
  finish_stream-AtMost run prompt provider output s h =
      (Keeps-bind
          (store_run_output_reference config payload.task_id run.id provider payload.target_model
            output)
          _
          (store_run_output_reference-Keeps Least (AtMost-stable config payload k n) config payload
            run.id provider output)
          (λ ref.
            let fields = completed_event config payload prompt (provider, output) ref in
            Keeps-then (record_event payload.task_id "run.completed" fields) _
              (record_event-Keeps Least (AtMost-stable config payload k n) config payload
                payload.task_id "run.completed" fields)
              (Keeps-pure _))).at
        _
        (omega (
          arith,
          h,
          count-ended k run.id (completed_run config output) (s.clock s.tick) (λ now r. refl)
              s.runs,
        ))

  handled-AtMost :
      (run : AgentRun) (provider : Text) (out : Result (List RunStreamEvent) × Store)
      → Least out.1
      → Least (handled out (fail_stream config payload run provider)).1
  handled-AtMost run provider (ok a, s) h = h
  handled-AtMost run provider (err e, s) h =
      fail_stream-AtMost run provider e s (weaken config payload k n run.id s h)

  end_stream-AtMost :
      (run : AgentRun) (prompt provider : Text) (chunks : List Text) (failure : Option Error)
      (s : Store)
      → LeastBut run.id s
      → Least (end_stream config payload run prompt provider chunks failure s).1
  end_stream-AtMost run prompt provider chunks (some e) s h = fail_stream-AtMost run provider e s h
  end_stream-AtMost run prompt provider chunks none s h =
      handled-AtMost run provider
        (finish_stream config payload run prompt provider (join [] chunks) s)
        (finish_stream-AtMost run prompt provider (join [] chunks) s h)

  mapped-AtMost :
      {A B : Type 0} (out : Result A × Store) (f : A → B)
      → Least out.1
      → Least (and_then out (λ a. pure (f a))).1
  mapped-AtMost (ok a, s) f h = h
  mapped-AtMost (err e, s) f h = h

  stream_run-AtMost :
      (prompt name : Text) (provider : Provider) (run : AgentRun) (s : Store)
      → LeastBut run.id s
      → Least (stream_run config payload none run prompt (name, provider) s).1
  unfolding stream_run AtMostBut
  stream_run-AtMost prompt name provider run s h =
      let answer = provider.stream s.tick (call_of payload prompt) in
      let next = record s { tick = suc s.tick } in
      mapped-AtMost (end_stream config payload run prompt name answer.chunks answer.failure next) _
        (end_stream-AtMost run prompt name answer.chunks answer.failure next h)

-- For a reader that takes every event: whether stream_execute is refused, fails or completes, no task
-- has more queued or running runs after it than before. Of a reader that leaves before the end nothing
-- is said; its run stays running.
pub stream_execute-active_le :
    (config : RunConfig) (payload : RunRequest) (k : ℕ) (s : Store)
    → count_if (active_of k) (stream_execute config payload none s).1.runs
      ≤ count_if (active_of k) s.runs
unfolding AtMost
stream_execute-active_le config payload k s =
    let n = count_if (active_of k) s.runs in
    (stream_execute-Keeps (AtMost config payload k n) (AtMost-stable config payload k n) config
        payload none
        (λ prompt prompt_ref context_ref name provider.
          start_run-AtMost config payload k n name prompt_ref context_ref _
            (stream_run-AtMost config payload k n prompt name provider))).at
      s (omega arith)
