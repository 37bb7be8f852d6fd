-- ===== src/Execution/Queue.antt =====
-- The service behind the queue worker: RunExecutionService fills the interface of the worker. Pydantic
-- turns a request into a payload and back.
use syncore.Common.{ℕ, ◌≡◌, refl, ap, ◌∙◌, Text, List}
use syncore.Models.{AgentRun, Fields}
use syncore.Store.{Store, Job, Action, Result, ok, err, Error, ◌>>=◌}
use syncore.Store.Keeps.{Keeps, Keeps-raise, Keeps-bind, Keeps-then}
use syncore.Store.Runs.{update_agent_run, create_agent_run}
use syncore.Store.Events.{save_project_event}
use syncore.AgentRuns.{read_now}
use syncore.Autonomy.Stage.{record_event}
use syncore.RunQueue.{RunExecution}
use syncore.Execution.{SameReplays, RunRequest, RunResponse, RunConfig, OptimizedBundle}
use syncore.Execution.Providers.{complete_with_failover}
use syncore.Execution.Execute.{
  execute, start_run, attempt_run, finish_run, fail_run, handled, completed_run, failed_run,
  requested,
}
use syncore.Execution.Frame.{
  start_run-Keeps, read_now-Keeps, record_event-Keeps, note_completed-Keeps, complete-Keeps,
  persist-Keeps,
}
use syncore.Execution.Whole.{execute-Keeps}

module _ (config : RunConfig) (payload : RunRequest) (js : List Job) where
  HasJobs : Store → Type 0
  HasJobs s = s.jobs ≡ js

  HasJobs-kept : (s s' : Store) → s'.runs ≡ s.runs → s'.jobs ≡ s.jobs → HasJobs s → HasJobs s'
  unfolding HasJobs
  HasJobs-kept s s' er ej h = ej ∙ h

  HasJobs-stable :
      (s s' : Store)
      → s'.runs ≡ s.runs
      → s'.jobs ≡ s.jobs
      → SameReplays s s'
      → HasJobs s
      → HasJobs s'
  HasJobs-stable s s' er ej i h = HasJobs-kept s s' er ej h

  fail_run-HasJobs :
      (run : AgentRun) (provider : Text) (e : Error)
      → Keeps HasJobs (fail_run config payload run provider e)
  unfolding update_agent_run HasJobs
  fail_run-HasJobs run provider e =
      Keeps-then (update_agent_run run.id (failed_run e)) _ (record { at = λ s h. h })
        (Keeps-then (record_event payload.task_id "run.failed" _) _
          (record_event-Keeps HasJobs HasJobs-stable config payload payload.task_id "run.failed" _)
          (Keeps-raise _))

  finish_run-HasJobs :
      (bundle : OptimizedBundle) (run : AgentRun) (prompt : Text) (a : Text × Text)
      → Keeps HasJobs (finish_run config payload bundle run prompt a)
  unfolding update_agent_run HasJobs
  finish_run-HasJobs bundle run prompt (name, output) =
      Keeps-bind read_now _ (read_now-Keeps HasJobs HasJobs-stable config payload) (λ now.
        Keeps-then (update_agent_run run.id (completed_run config output)) _
          (record { at = λ s h. h })
          (note_completed-Keeps HasJobs HasJobs-stable config payload bundle run prompt
            (name, output) now (persist-Keeps HasJobs HasJobs-kept config payload)))

  handled-HasJobs :
      (out : Result RunResponse × Store) (handler : Error → Action RunResponse)
      → ((e : Error) → Keeps HasJobs (handler e))
      → HasJobs out.1
      → HasJobs (handled out handler).1
  handled-HasJobs (ok a, s) handler k h = h
  handled-HasJobs (err e, s) handler k h = (k e).at s h

  attempt_run-HasJobs :
      (bundle : OptimizedBundle) (run : AgentRun) (prompt provider : Text)
      → Keeps HasJobs (attempt_run config payload bundle run prompt provider)
  unfolding attempt_run
  attempt_run-HasJobs bundle run prompt provider = record {
    at = λ s h.
        handled-HasJobs
          ((complete_with_failover config payload prompt
              >>= finish_run config payload bundle run prompt)
            s)
          (fail_run config payload run provider) (fail_run-HasJobs run provider)
          ((Keeps-bind (complete_with_failover config payload prompt)
              (finish_run config payload bundle run prompt)
              (complete-Keeps HasJobs HasJobs-stable config payload prompt)
              (finish_run-HasJobs bundle run prompt)).at
            s h);
  }

  started-HasJobs :
      (bundle : OptimizedBundle) (prompt prompt_ref context_ref : Text)
      → Keeps HasJobs (
          start_run config payload (requested config payload) prompt_ref context_ref
          >>= (λ run. attempt_run config payload bundle run prompt (requested config payload)))
  unfolding start_run create_agent_run save_project_event HasJobs
  started-HasJobs bundle prompt prompt_ref context_ref =
      Keeps-bind (start_run config payload (requested config payload) prompt_ref context_ref) _
        (start_run-Keeps HasJobs (λ s rows h. h) config payload (requested config payload)
          prompt_ref context_ref (λ run. record { at = λ s h. h }))
        (λ run. attempt_run-HasJobs bundle run prompt (requested config payload))

pub execute-jobs :
    (config : RunConfig) (payload : RunRequest) (s : Store)
    → (execute config payload s).1.jobs ≡ s.jobs
unfolding HasJobs
execute-jobs config payload s =
    (execute-Keeps (HasJobs config payload s.jobs) (HasJobs-stable config payload s.jobs) config
        payload (started-HasJobs config payload s.jobs)).at
      s refl

-- The id of the run that a response is about.
abbrev pub run_id_of : Result RunResponse × Store → Result ℕ × Store
run_id_of (ok r, s) = (ok r.run_id, s)
run_id_of (err e, s) = (err e, s)

pub run_id_of-store : (out : Result RunResponse × Store) → (run_id_of out).1 ≡ out.1
run_id_of-store (ok r, s) = refl
run_id_of-store (err e, s) = refl

abbrev pub run_execution :
    RunConfig → (RunRequest → Fields) → (Fields → Result RunRequest) → RunExecution
run_execution config model_dump model_validate = record {
  Request = RunRequest;
  model_dump = model_dump;
  model_validate = model_validate;
  task_id = λ p. p.task_id;
  execute = λ p s. run_id_of (execute config p s);
  execute-jobs = λ p s.
      ap (λ (t : Store). t.jobs) (run_id_of-store (execute config p s)) ∙ execute-jobs config p s;
}
