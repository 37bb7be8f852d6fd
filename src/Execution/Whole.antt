-- ===== src/Execution/Whole.antt =====
-- The whole call keeps an invariant of the runs and the jobs when the part that writes the run's row
-- does.
use syncore.Common.{◌≡◌, Text, codes, Option, none, some}
use syncore.Store.{Store, ◌>>=◌}
use syncore.Store.Keeps.{Keeps, Keeps-pure, Keeps-bind, Keeps-then}
use syncore.Execution.{
  SameReplays, RunRequest, RunResponse, RunConfig, OptimizedBundle, build_prompt,
}
use syncore.Execution.References.{store_text_reference}
use syncore.Execution.Guards.{maybe_get_idempotent_response, enforce_concurrency_limits}
use syncore.Execution.Execute.{
  execute, execute_new, run_with_context, start_run, attempt_run, requested,
}
use syncore.Execution.Frame.{
  store_text_reference-Keeps, maybe_get-Keeps, enforce-Keeps, assemble-Keeps,
}

module _ (K : Store → Type 0)
    (stable : (s s' : Store) → s'.runs ≡ s.runs → s'.jobs ≡ s.jobs → SameReplays s s' → K s → K s')
    (config : RunConfig) (payload : RunRequest)
    (started : (bundle : OptimizedBundle) (prompt prompt_ref context_ref : Text)
      → Keeps K (
          start_run config payload (requested config payload) prompt_ref context_ref >>= (λ run.
            attempt_run config payload bundle run prompt (requested config payload)))) where
  run_with_context-Keeps :
      (bundle : OptimizedBundle) → Keeps K (run_with_context config payload bundle)
  run_with_context-Keeps bundle =
      let prompt = build_prompt payload.prompt bundle.rendered_prompt in
      Keeps-bind
        (store_text_reference config payload.task_id (codes "run_prompt") prompt
          (codes "Full worker prompt snapshot for this run."))
        _ (store_text_reference-Keeps K stable config payload _ _ _ _)
        (λ prompt_ref.
          Keeps-bind
            (store_text_reference config payload.task_id (codes "run_context_rendered")
              bundle.rendered_prompt (codes "Rendered optimized context used for this run."))
            _ (store_text_reference-Keeps K stable config payload _ _ _ _)
            (λ context_ref. started bundle prompt prompt_ref context_ref))

  execute_new-Keeps :
      (duplicate : Option RunResponse) → Keeps K (execute_new config payload duplicate)
  execute_new-Keeps (some duplicate) = Keeps-pure duplicate
  execute_new-Keeps none =
      Keeps-then (enforce_concurrency_limits config payload.task_id) _
        (enforce-Keeps K stable config payload)
        (Keeps-bind (config.assemble_optimized_context payload) (run_with_context config payload)
          (assemble-Keeps K stable config payload) run_with_context-Keeps)

  pub execute-Keeps : Keeps K (execute config payload)
  unfolding execute
  execute-Keeps =
      Keeps-bind (maybe_get_idempotent_response config payload) (execute_new config payload)
        (maybe_get-Keeps K stable config payload) execute_new-Keeps
