-- ===== src/Execution/Stream/Whole.antt =====
-- A streamed run keeps an invariant when the part that writes the run's row does.
use syncore.Common.{ℕ, ◌≡◌, Text, codes, is_empty, Option, none, some, [], ◌∷◌}
use syncore.Store.{Store, ◌>>=◌}
use syncore.Store.Keeps.{Keeps, Keeps-pure, Keeps-raise, Keeps-if, Keeps-bind, Keeps-then}
use syncore.Execution.{
  SameReplays, RunRequest, RunResponse, RunConfig, OptimizedBundle, Provider, build_prompt, entry,
}
use syncore.Execution.Providers.{resolve_provider, resolved, no_provider, or_default, or_empty}
use syncore.Execution.References.{store_text_reference}
use syncore.Execution.Guards.{maybe_get_idempotent_response, enforce_concurrency_limits}
use syncore.Execution.Execute.{start_run}
use syncore.Execution.Stream.{
  stream_execute, stream_new, stream_with_provider, stream_run, duplicate_event,
}
use syncore.Execution.Frame.{
  store_text_reference-Keeps, maybe_get-Keeps, enforce-Keeps, assemble-Keeps,
}

module _ (K : Store → Type 0)
    (stable : (s s' : Store) → s'.runs ≡ s.runs → s'.jobs ≡ s.jobs → SameReplays s s' → K s → K s')
    (config : RunConfig) (payload : RunRequest) (reader : Option ℕ)
    (started : (prompt prompt_ref context_ref name : Text) (provider : Provider)
      → Keeps K (
          start_run config payload name prompt_ref context_ref
          >>= (λ run. stream_run config payload reader run prompt (name, provider)))) where
  resolved-Keeps : (name : Text) (p : Option Provider) → Keeps K (resolved config name p)
  resolved-Keeps name (some p) = Keeps-pure (name, p)
  resolved-Keeps name none = no_provider-Keeps (entry name config.provider_setup_hints)
    where
      no_provider-Keeps : (hint : Option Text) → Keeps K (no_provider config name hint)
      no_provider-Keeps none = Keeps-raise _
      no_provider-Keeps (some hint) = Keeps-if (is_empty hint) _ _ (Keeps-raise _) (Keeps-raise _)

  resolve_provider-Keeps : Keeps K (resolve_provider config payload.provider)
  unfolding resolve_provider
  resolve_provider-Keeps =
      let name = or_default (or_empty payload.provider) config.default_provider in
      resolved-Keeps name (entry name config.providers)

  stream_with_provider-Keeps :
      (bundle : OptimizedBundle) (chosen : Text × Provider)
      → Keeps K (stream_with_provider config payload reader bundle chosen)
  stream_with_provider-Keeps bundle (name, provider) =
      let prompt = build_prompt payload.prompt bundle.rendered_prompt in
      Keeps-bind
        (store_text_reference config payload.task_id (codes "run_prompt") prompt
          (codes "Full worker prompt snapshot for this run."))
        _ (store_text_reference-Keeps K stable config payload _ _ _ _)
        (λ prompt_ref.
          Keeps-bind
            (store_text_reference config payload.task_id (codes "run_context_rendered")
              bundle.rendered_prompt (codes "Rendered optimized context used for this run."))
            _ (store_text_reference-Keeps K stable config payload _ _ _ _)
            (λ context_ref. started prompt prompt_ref context_ref name provider))

  stream_new-Keeps :
      (duplicate : Option RunResponse) → Keeps K (stream_new config payload reader duplicate)
  stream_new-Keeps (some duplicate) = Keeps-pure (duplicate_event config payload duplicate ∷ [])
  stream_new-Keeps none =
      Keeps-then (enforce_concurrency_limits config payload.task_id) _
        (enforce-Keeps K stable config payload)
        (Keeps-bind (config.assemble_optimized_context payload) _
          (assemble-Keeps K stable config payload)
          (λ bundle.
            Keeps-bind (resolve_provider config payload.provider) _ resolve_provider-Keeps
              (stream_with_provider-Keeps bundle)))

  pub stream_execute-Keeps : Keeps K (stream_execute config payload reader)
  unfolding stream_execute
  stream_execute-Keeps =
      Keeps-bind (maybe_get_idempotent_response config payload) (stream_new config payload reader)
        (maybe_get-Keeps K stable config payload) stream_new-Keeps
