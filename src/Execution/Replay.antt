-- ===== src/Execution/Replay.antt =====
-- A repeated request: what is answered is kept, and is answered again.
use syncore.Common.{
  Bool, true, ℕ, ◌≡◌, refl, ap, sym, ◌∙◌, arith, Text, codes, text_eq_refl, is_empty, false, Option,
  none, some, first,
}
use mathlib.Core.Path.{subst}
use mathlib.Core.Option.{some-injective}
use syncore.Models.{AgentRun}
use syncore.Store.{Store, Result, ok, err, Reference, ◌>>=◌, ◌>>◌, pure, and_then}
use syncore.Store.Returns.{OnReturn, Gives, Gives-bind, Gives-then}
use syncore.Store.Runs.{update_agent_run, create_agent_run}
use syncore.Store.Events.{save_project_event}
use syncore.AgentRuns.{read_now}
use syncore.Autonomy.Stage.{record_event}
use syncore.Execution.Providers.{complete_with_failover}
use syncore.Execution.References.{store_text_reference, store_run_output_reference}
use syncore.Execution.Frame.{
  read_now-Keeps, record_event-Keeps, start_run-Keeps, store_text_reference-Keeps,
  store_run_output_reference-Keeps, enforce-Keeps, complete-Keeps, assemble-Keeps,
}
use syncore.Store.References.{
  accepts_reference, upsert_context_reference, get_context_reference, reference_is,
}
use syncore.Store.References.WriteOnce.{
  content_in, content_of, upsert_context_reference-Upserts, Upserts,
}
use syncore.Execution.{
  SameReplays, RunRequest, RunResponse, RunConfig, OptimizedBundle, build_prompt,
}
use syncore.Execution.Guards.{
  maybe_get_idempotent_response, load_reference, persist_idempotent_response, response_reference,
  idem_ref, key_of, enforce_concurrency_limits,
}
use syncore.Execution.Execute.{
  execute, execute_new, run_with_context, start_run, attempt_run, finish_run, note_completed,
  response_of, fail_run, handled, requested, completed_run, completed_event,
}

module _ (config : RunConfig) (payload : RunRequest) where
  -- The text under the request's key.
  abbrev pub kept : Store → Option Text
  kept s = content_in s.references (idem_ref payload)

  -- With a key that stands for a response, that response is the answer.
  maybe_get-found :
      (r : RunResponse) (s : Store)
      → is_empty (key_of payload) ≡ false
      → kept s ≡ some (config.dump_json r)
      → maybe_get_idempotent_response config payload s ≡ (ok (some r), s)
  unfolding maybe_get_idempotent_response get_context_reference
  maybe_get-found r s named h =
      rw named (loaded (first (reference_is (idem_ref payload)) s.references) h)
    where
      loaded :
          (o : Option Reference)
          → content_of o ≡ some (config.dump_json r)
          → load_reference config o s ≡ (ok (some r), s)
      loaded none e = absurd (ground (arith, e))
      loaded (some ref) e =
          ap (λ o. (o, s)) (ap config.load_json (some-injective _ _ e) ∙ config.load-dump r)

  maybe_get-missing :
      (s : Store)
      → is_empty (key_of payload) ≡ false
      → kept s ≡ none
      → maybe_get_idempotent_response config payload s ≡ (ok none, s)
  unfolding maybe_get_idempotent_response get_context_reference
  maybe_get-missing s named h =
      rw named (missing (first (reference_is (idem_ref payload)) s.references) h)
    where
      missing :
          (o : Option Reference) → content_of o ≡ none → load_reference config o s ≡ (ok none, s)
      missing none e = refl
      missing (some ref) e = absurd (ground (arith, e))

  -- A new key stands for the response once that is kept.
  persist-kept :
      (r : RunResponse) (s : Store)
      → is_empty (key_of payload) ≡ false
      → kept s ≡ none
      → OnReturn
          (λ _ t. kept t ≡ some (config.dump_json r))
          (persist_idempotent_response config payload r s)
  unfolding persist_idempotent_response
  persist-kept r s named h =
      let n = response_reference config payload r in
      rw named (by_key (accepts_reference n s) (upsert_context_reference-Upserts n s))
    where
      by_key :
          (b : Bool)
          → Upserts b (response_reference config payload r) s
          → OnReturn
              (λ _ t. kept t ≡ some (config.dump_json r))
              (and_then
                (upsert_context_reference (response_reference config payload r) s)
                (λ _. pure tt))
      by_key true u =
          rw u.returned
            (u.contents (idem_ref payload) ∙ (rw (text_eq_refl (idem_ref payload), h) refl))
      by_key false u = rw u tt

  unfoldable pub IsNew : Store → Type 0
  IsNew s = kept s ≡ none

  IsKept : RunResponse → Store → Type 0
  IsKept r s = kept s ≡ some (config.dump_json r)

  pub IsNew-stable :
      (s s' : Store) → s'.runs ≡ s.runs → s'.jobs ≡ s.jobs → SameReplays s s' → IsNew s → IsNew s'
  unfolding IsNew idem_ref
  IsNew-stable s s' er ej i h = i (idem_ref payload) refl ∙ h

  module _ (named : is_empty (key_of payload) ≡ false) where
    persisted-IsKept :
        (r : RunResponse)
        → Gives IsNew IsKept (persist_idempotent_response config payload r >> pure r)
    unfolding IsNew IsKept
    persisted-IsKept r = record {
      at = λ s h.
          returned (persist_idempotent_response config payload r s) (persist-kept r s named h);
    }
      where
        returned :
            (out : Result (Unit {0}) × Store)
            → OnReturn (λ _ t. kept t ≡ some (config.dump_json r)) out
            → OnReturn IsKept (and_then out (λ _. pure r))
        returned (ok t, s) h = h
        returned (err e, s) h = tt

    note_completed-IsKept :
        (bundle : OptimizedBundle) (run : AgentRun) (prompt : Text) (a : Text × Text) (now : ℕ)
        → Gives IsNew IsKept (note_completed config payload bundle run prompt a now)
    note_completed-IsKept bundle run prompt (name, output) now =
        Gives-bind
          (store_run_output_reference config payload.task_id run.id name payload.target_model
            output)
          _ (store_run_output_reference-Keeps IsNew IsNew-stable config payload run.id name output)
          (λ ref.
            let fields = completed_event config payload prompt (name, output) ref in
            Gives-then (record_event payload.task_id "run.completed" fields) _
              (record_event-Keeps IsNew IsNew-stable config payload payload.task_id "run.completed"
                fields)
              (persisted-IsKept (response_of payload bundle run prompt (name, output) now)))

    finish_run-IsKept :
        (bundle : OptimizedBundle) (run : AgentRun) (prompt : Text) (a : Text × Text)
        → Gives IsNew IsKept (finish_run config payload bundle run prompt a)
    unfolding update_agent_run IsNew
    finish_run-IsKept bundle run prompt (name, output) =
        Gives-bind read_now _ (read_now-Keeps IsNew IsNew-stable config payload) (λ now.
          Gives-then (update_agent_run run.id (completed_run config output)) _
            (record { at = λ s h. h }) (note_completed-IsKept bundle run prompt (name, output) now))

    -- The handler raises, so what returns comes of the try block.
    handled-IsKept :
        (run : AgentRun) (provider : Text) (out : Result RunResponse × Store)
        → OnReturn IsKept out
        → OnReturn IsKept (handled out (fail_run config payload run provider))
    unfolding update_agent_run save_project_event
    handled-IsKept run provider (ok r, s) h = h
    handled-IsKept run provider (err e, s) h = tt

    attempt_run-IsKept :
        (bundle : OptimizedBundle) (run : AgentRun) (prompt provider : Text)
        → Gives IsNew IsKept (attempt_run config payload bundle run prompt provider)
    unfolding attempt_run
    attempt_run-IsKept bundle run prompt provider = record {
      at = λ s h.
          handled-IsKept run provider
            ((complete_with_failover config payload prompt
                >>= finish_run config payload bundle run prompt)
              s)
            ((Gives-bind (complete_with_failover config payload prompt)
                (finish_run config payload bundle run prompt)
                (complete-Keeps IsNew IsNew-stable config payload prompt)
                (finish_run-IsKept bundle run prompt)).at
              s h);
    }

    run_with_context-IsKept :
        (bundle : OptimizedBundle) → Gives IsNew IsKept (run_with_context config payload bundle)
    unfolding start_run create_agent_run save_project_event IsNew
    run_with_context-IsKept bundle =
        let prompt = build_prompt payload.prompt bundle.rendered_prompt in
        Gives-bind
          (store_text_reference config payload.task_id (codes "run_prompt") prompt
            (codes "Full worker prompt snapshot for this run."))
          _ (store_text_reference-Keeps IsNew IsNew-stable config payload _ _ _ _)
          (λ prompt_ref.
            Gives-bind
              (store_text_reference config payload.task_id (codes "run_context_rendered")
                bundle.rendered_prompt (codes "Rendered optimized context used for this run."))
              _ (store_text_reference-Keeps IsNew IsNew-stable config payload _ _ _ _)
              (λ context_ref.
                Gives-bind
                  (start_run config payload (requested config payload) prompt_ref context_ref) _
                  (start_run-Keeps IsNew (λ s rows h. h) config payload (requested config payload)
                    prompt_ref context_ref (λ run. record { at = λ s h. h }))
                  (λ run. attempt_run-IsKept bundle run prompt (requested config payload))))

    execute_new-IsKept : Gives IsNew IsKept (execute_new config payload none)
    execute_new-IsKept =
        Gives-then (enforce_concurrency_limits config payload.task_id) _
          (enforce-Keeps IsNew IsNew-stable config payload)
          (Gives-bind (config.assemble_optimized_context payload) (run_with_context config payload)
            (assemble-Keeps IsNew IsNew-stable config payload) run_with_context-IsKept)

    -- If execute answers a request whose idempotency key is not blank and has not been used for the task,
    -- then the same request, made again, gets the same response and changes nothing.
    pub execute-execute :
        (s s' : Store) (r : RunResponse)
        → kept s ≡ none
        → execute config payload s ≡ (ok r, s')
        → execute config payload s' ≡ (ok r, s')
    unfolding execute IsNew IsKept
    execute-execute s s' r new answered =
        let first_time : execute_new config payload none s ≡ (ok r, s') =
          ap (λ out. and_then out (execute_new config payload))
            (sym (maybe_get-missing s named new))
          ∙ answered in
        let held = subst (OnReturn IsKept) first_time (execute_new-IsKept.at s new) in
        ap (λ out. and_then out (execute_new config payload)) (maybe_get-found r s' named held)
