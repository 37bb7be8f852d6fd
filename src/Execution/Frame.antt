-- ===== src/Execution/Frame.antt =====
-- What the steps of a run leave alone: all but the creation and the updates of the run's row keep every
-- invariant of the runs and the jobs.
use syncore.Common.{
  sym, suc, Bool, starts_with, text_eq, ◌∙◌, arith, true, false, ℕ, ◌+◌, leb, ◌≡◌, refl, Text,
  codes, is_empty, strip, Option, none, some, List, [], ◌∷◌, count_if, String,
}
use syncore.Models.{AgentRun, Task, Fields}
use mathlib.Core.Path.{subst}
use syncore.Store.{has_task, Store, Action, Result, ok, err, pure}
use syncore.Store.Keeps.{
  Keeps, Keeps-pure, Keeps-raise, refer-holds, Keeps-if, Keeps-bind, Keeps-then,
}
use syncore.Store.Tasks.{get_task, list_tasks}
use syncore.Store.Runs.{create_agent_run, list_agent_runs}
use syncore.Store.Events.{save_project_event}
use syncore.Store.References.{
  accepts_reference, ReferenceCreate, upsert_context_reference, get_context_reference,
}
use syncore.Autonomy.Stage.{record_event}
use syncore.AgentRuns.{read_now}
use syncore.Store.References.WriteOnce.{upsert_context_reference-Upserts, Upserts}
use syncore.Execution.{
  SameReplays, RunRequest, RunResponse, RunConfig, Provider, OptimizedBundle, entry,
}
use syncore.Execution.Providers.{
  try_candidates, attempt, or_next, run_complete_with_timeout, complete_with_failover, timeout_of,
  provider_candidates,
}
use syncore.Execution.References.{
  text_reference, store_text_reference, store_run_output_reference, output_hint,
}
use syncore.Context.References.{build_ref_id}
use syncore.Execution.Execute.{
  note_started, start_run, new_run, note_completed, completed_event, response_of,
}
use syncore.Execution.Guards.{
  maybe_get_idempotent_response, load_reference, persist_idempotent_response, key_of, idem_ref,
  response_reference, count_workspace, limit_workspace, limit_task_workspace, workspace_limit,
  task_limit, run_is_active, enforce_concurrency_limits,
}

module _ (K : Store → Type 0)
    (stable : (s s' : Store) → s'.runs ≡ s.runs → s'.jobs ≡ s.jobs → SameReplays s s' → K s → K s')
    (config : RunConfig) (payload : RunRequest) where
  pub read_now-Keeps : Keeps K read_now
  read_now-Keeps = record { at = λ s k. stable s _ refl refl (λ j i. refl) k }

  pub record_event-Keeps :
      (task_id : ℕ) (event_type : String) (fields : Fields)
      → Keeps K (record_event task_id event_type fields)
  unfolding save_project_event
  record_event-Keeps task_id event_type fields = record {
    at = λ s k. stable s _ refl refl (λ j i. refl) k;
  }

  upsert-Keeps :
      (n : ReferenceCreate)
      → ((j : Text) → starts_with j (codes "idem_") ≡ true → text_eq n.ref_id j ≡ false)
      → Keeps K (upsert_context_reference n)
  unfolding upsert_context_reference
  upsert-Keeps n other = record {
    at = λ s k. kept_by s k (accepts_reference n s) (upsert_context_reference-Upserts n s);
  }
    where
      kept_by : (s : Store) → K s → (b : Bool) → Upserts b n s → K (upsert_context_reference n s).1
      kept_by s k true u =
          stable s _ (refer-holds (λ t. t.runs ≡ s.runs) (accepts_reference n s) _ s refl refl)
            (refer-holds (λ t. t.jobs ≡ s.jobs) (accepts_reference n s) _ s refl refl)
            (λ j i. u.contents j ∙ (rw (other j i) refl)) k
      kept_by s k false u = subst (λ out. K out.1) (sym u) (stable s _ refl refl (λ j i. refl) k)

  text_reference-other :
      (task_id : ℕ) (content_type content hint j : Text)
      → starts_with j (codes "idem_") ≡ true
      → text_eq (text_reference config task_id content_type content hint).ref_id j ≡ false
  unfolding build_ref_id
  text_reference-other task_id content_type content hint [] i = absurd (ground (arith, i))
  text_reference-other task_id content_type content hint (c ∷ j) i = ground (arith, i)

  pub store_text_reference-Keeps :
      (task_id : ℕ) (content_type content hint : Text)
      → Keeps K (store_text_reference config task_id content_type content hint)
  unfolding store_text_reference
  store_text_reference-Keeps task_id content_type content hint =
      Keeps-if (is_empty (strip content)) _ _ (Keeps-pure []) (
        Keeps-bind
          (upsert_context_reference (text_reference config task_id content_type content hint)) _
          (upsert-Keeps _ (text_reference-other task_id content_type content hint))
          (λ row. Keeps-pure row.ref_id))

  pub store_run_output_reference-Keeps :
      (run_id : ℕ) (provider output : Text)
      → Keeps K (
          store_run_output_reference config payload.task_id run_id provider payload.target_model
            output)
  unfolding store_run_output_reference
  store_run_output_reference-Keeps run_id provider output =
      Keeps-bind
        (upsert_context_reference (
          text_reference config payload.task_id (codes "run_output") output
            (output_hint run_id provider payload.target_model)))
        _
        (upsert-Keeps _ (
          text_reference-other payload.task_id (codes "run_output") output
            (output_hint run_id provider payload.target_model)))
        (λ row.
          Keeps-then (record_event payload.task_id "run.output.stored" _) _
            (record_event-Keeps payload.task_id "run.output.stored" _) (Keeps-pure row.ref_id))

  pub note_completed-Keeps :
      (bundle : OptimizedBundle) (run : AgentRun) (prompt : Text) (a : Text × Text) (now : ℕ)
      → ((r : RunResponse) → Keeps K (persist_idempotent_response config payload r))
      → Keeps K (note_completed config payload bundle run prompt a now)
  note_completed-Keeps bundle run prompt (name, output) now persist =
      let response = response_of payload bundle run prompt (name, output) now in
      Keeps-bind
        (store_run_output_reference config payload.task_id run.id name payload.target_model output)
        _ (store_run_output_reference-Keeps run.id name output)
        (λ ref.
          let fields = completed_event config payload prompt (name, output) ref in
          Keeps-then (record_event payload.task_id "run.completed" fields) _
            (record_event-Keeps payload.task_id "run.completed" fields)
            (Keeps-then (persist_idempotent_response config payload response) (pure response)
              (persist response) (Keeps-pure response)))

  load-Keeps : (ref : _) → Keeps K (load_reference config ref)
  load-Keeps none = Keeps-pure none
  load-Keeps (some ref) = record { at = λ s k. k }

  pub maybe_get-Keeps : Keeps K (maybe_get_idempotent_response config payload)
  unfolding maybe_get_idempotent_response get_context_reference
  maybe_get-Keeps = Keeps-if (is_empty (key_of payload)) _ _ (Keeps-pure none) (
      Keeps-bind (get_context_reference (idem_ref payload)) (load_reference config)
        (record { at = λ s k. k }) load-Keeps)

  list_runs-Keeps : (task_id : Option ℕ) (limit : ℕ) → Keeps K (list_agent_runs task_id limit)
  unfolding list_agent_runs
  list_runs-Keeps none limit = record { at = λ s k. k }
  list_runs-Keeps (some j) limit = record { at = λ s k. k }

  count_workspace-Keeps : (active : ℕ) (ts : List Task) → Keeps K (count_workspace config active ts)
  count_workspace-Keeps active [] = Keeps-pure tt
  count_workspace-Keeps active (t ∷ ts) =
      Keeps-bind (list_agent_runs (some t.id) 200) _ (list_runs-Keeps (some t.id) 200) (λ runs.
        Keeps-if (leb (workspace_limit config) (active + count_if run_is_active runs)) _ _
          (Keeps-raise _) (count_workspace-Keeps (active + count_if run_is_active runs) ts))

  limit_workspace-Keeps : (workspace : Option ℕ) → Keeps K (limit_workspace config workspace)
  unfolding list_tasks
  limit_workspace-Keeps none = Keeps-pure tt
  limit_workspace-Keeps (some w) =
      Keeps-bind (list_tasks 500 (some w)) (count_workspace config 0) (record { at = λ s k. k })
        (count_workspace-Keeps 0)

  limit_task-Keeps : (task : Option Task) → Keeps K (limit_task_workspace config task)
  limit_task-Keeps none = Keeps-pure tt
  limit_task-Keeps (some t) = limit_workspace-Keeps t.workspace_id

  pub enforce-Keeps : Keeps K (enforce_concurrency_limits config payload.task_id)
  unfolding enforce_concurrency_limits get_task
  enforce-Keeps =
      Keeps-bind (list_agent_runs (some payload.task_id) 200) _
        (list_runs-Keeps (some payload.task_id) 200)
        (λ runs.
          Keeps-if (leb (task_limit config) (count_if run_is_active runs)) _ _ (Keeps-raise _) (
            Keeps-bind (get_task payload.task_id) (limit_task_workspace config)
              (record { at = λ s k. k }) limit_task-Keeps))

  or_next-Keeps :
      (name : Text) (out : Result Text × Store) (next : List Text → Action (Text × Text))
      (errors : List Text)
      → ((more : List Text) → Keeps K (next more))
      → K out.1
      → K (or_next name out next errors).1
  or_next-Keeps name (ok output, s) next errors h k = k
  or_next-Keeps name (err e, s) next errors h k = (h _).at s k

  module _ (prompt : Text) where
    run_complete-Keeps :
        (p : Provider) (timeout : ℕ) → Keeps K (run_complete_with_timeout p payload prompt timeout)
    unfolding run_complete_with_timeout
    run_complete-Keeps p timeout = record { at = λ s k. stable s _ refl refl (λ j i. refl) k }

    attempt-Keeps :
        (name : Text) (p : Option Provider) (next : List Text → Action (Text × Text))
        (errors : List Text)
        → ((more : List Text) → Keeps K (next more))
        → Keeps K
            (attempt name p payload prompt (timeout_of config payload.timeout_seconds) next errors)
    attempt-Keeps name none next errors h = h errors
    attempt-Keeps name (some p) next errors h =
        let timeout = timeout_of config payload.timeout_seconds in
        record {
          at = λ s k.
              or_next-Keeps name (run_complete_with_timeout p payload prompt timeout s) next errors
                h ((run_complete-Keeps p timeout).at s k);
        }

    try_candidates-Keeps :
        (names errors : List Text)
        → Keeps K (
            try_candidates config payload prompt
              (timeout_of config payload.timeout_seconds)
              names
              errors)
    try_candidates-Keeps [] errors = Keeps-raise _
    try_candidates-Keeps (name ∷ names) errors =
        attempt-Keeps name (entry name config.providers) _ errors (try_candidates-Keeps names)

    pub complete-Keeps : Keeps K (complete_with_failover config payload prompt)
    unfolding complete_with_failover
    complete-Keeps = try_candidates-Keeps (provider_candidates config payload.provider) []

  pub assemble-Keeps : Keeps K (config.assemble_optimized_context payload)
  assemble-Keeps = record {
    at = λ s k.
        stable s _ (config.assemble-runs payload s) (config.assemble-jobs payload s)
          (config.assemble-replays payload s) k;
  }

-- The start of a run keeps what neither the runs nor the events matter to.
pub start_run-Keeps :
    (K : Store → Type 0)
    → ((s : Store) (rows : List AgentRun) → K s → K (record s { runs = rows; tick = suc s.tick }))
    → (config : RunConfig) (payload : RunRequest) (provider prompt_ref context_ref : Text)
    → ((run : AgentRun) → Keeps K (note_started config payload provider prompt_ref context_ref run))
    → Keeps K (start_run config payload provider prompt_ref context_ref)
unfolding start_run create_agent_run
start_run-Keeps K stable config payload provider prompt_ref context_ref noted =
    Keeps-bind (create_agent_run (new_run config payload))
      (note_started config payload provider prompt_ref context_ref)
      (record {
        at = λ s k.
            refer-holds K (has_task payload.task_id s) _ s (stable s _ k) (stable s s.runs k);
      })
      noted

-- The answer that is kept for a repeated request changes neither runs nor jobs.
pub persist-Keeps :
    (K : Store → Type 0)
    → ((s s' : Store) → s'.runs ≡ s.runs → s'.jobs ≡ s.jobs → K s → K s')
    → (config : RunConfig) (payload : RunRequest) (r : RunResponse)
    → Keeps K (persist_idempotent_response config payload r)
unfolding persist_idempotent_response upsert_context_reference
persist-Keeps K stable config payload r = Keeps-if (is_empty (key_of payload)) _ _ (Keeps-pure tt) (
    Keeps-then (upsert_context_reference (response_reference config payload r)) _
      (record {
        at = λ s k.
            refer-holds K (accepts_reference (response_reference config payload r) s) _ s
              (stable s _ refl refl k) (stable s _ refl refl k);
      })
      (Keeps-pure tt))
