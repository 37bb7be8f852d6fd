-- ===== src/Execution/Providers.antt =====
-- The choice of a provider, its call under a timeout, and the failover to the next one.
use syncore.Common.{
  Bool, true, false, ℕ, suc, max, ltb, ◌==◌, if◌then◌else◌, Text, codes, is_empty, strip, lower,
  ◌||◌, Option, none, some, List, [], ◌∷◌, ◌++◌, text_in, sort_texts, join, map,
}
use syncore.Store.{Store, Action, Result, ok, err, value_error, runtime_error, pure, raise, message}
use syncore.Autonomy.Values.{decimal}
use syncore.Execution.{RunRequest, RunConfig, Provider, ProviderCall, ProviderAnswer, entry}

-- value or ""
abbrev pub or_empty : Option Text → Text
or_empty none = []
or_empty (some t) = t

abbrev pub provider_names : RunConfig → List Text
provider_names config = map (λ e. e.0) config.providers

-- `if candidate and candidate not in ordered: ordered.append(candidate)`, for each one.
abbrev pub add_candidates : List Text → List Text → List Text
add_candidates ordered [] = ordered
add_candidates ordered (c ∷ cs) =
    if is_empty c || text_in c ordered
    then add_candidates ordered cs
    else add_candidates (ordered ++ c ∷ []) cs

-- The same without the test for an empty name.
abbrev pub add_names : List Text → List Text → List Text
add_names ordered [] = ordered
add_names ordered (c ∷ cs) =
    if text_in c ordered then add_names ordered cs else add_names (ordered ++ c ∷ []) cs

abbrev pub or_default : Text → Text → Text
or_default explicit default = if is_empty explicit then default else explicit

-- (requested_provider or "").strip().lower()
abbrev pub explicit_of : Option Text → Text
explicit_of requested = lower (strip (or_empty requested))

abbrev pub primary_of : RunConfig → Option Text → Text
primary_of config requested =
    lower (strip (or_default (explicit_of requested) config.default_provider))

-- By `not explicit` and `self._failover_enabled`.
abbrev pub candidates_from : Bool → Bool → Text → List Text → List Text → List Text
candidates_from false failover primary fallback names = primary ∷ []
candidates_from true false primary fallback names = primary ∷ []
candidates_from true true primary fallback names =
    add_names (add_candidates (primary ∷ []) fallback) names

-- _provider_candidates
unfoldable pub provider_candidates : RunConfig → Option Text → List Text
provider_candidates config requested =
    candidates_from (is_empty (explicit_of requested)) config.failover_enabled
      (primary_of config requested) config.fallback_order (sort_texts (provider_names config))

-- _run_complete_with_timeout. The block of the executor waits for its worker, so the error of the timeout
-- is raised when the call has ended, `seconds` after it began: the wait is as long as the call.
abbrev pub within_timeout : RunRequest → ℕ → ProviderAnswer → Result Text
within_timeout payload timeout answer =
    if ltb timeout answer.seconds
    then err (
        runtime_error (
          codes "Provider timeout after "
          ++ decimal timeout
          ++ codes "s for model "
          ++ payload.target_model
          ++ codes "."))
    else answer.result

abbrev pub call_of : RunRequest → Text → ProviderCall
call_of payload prompt = record {
  model = payload.target_model;
  prompt = prompt;
  system_prompt = payload.system_prompt;
  max_output_tokens = payload.max_output_tokens;
  temperature = payload.temperature;
}

unfoldable pub run_complete_with_timeout : Provider → RunRequest → Text → ℕ → Action Text
run_complete_with_timeout provider payload prompt timeout s = (
  within_timeout payload timeout (provider.complete s.tick (call_of payload prompt)),
  record s { tick = suc s.tick },
)

-- One candidate's outcome: the answer, or the next candidate with the error noted.
abbrev pub or_next :
    Text
    → Result Text × Store
    → (List Text → Action (Text × Text))
    → List Text
    → Result (Text × Text) × Store
or_next name (ok output, s) next errors = (ok (name, output), s)
or_next name (err e, s) next errors = next (errors ++ (name ++ codes ": " ++ message e) ∷ []) s

abbrev pub attempt :
    Text
    → Option Provider
    → RunRequest
    → Text
    → ℕ
    → (List Text → Action (Text × Text))
    → List Text
    → Action (Text × Text)
attempt name none payload prompt timeout next errors = next errors
attempt name (some provider) payload prompt timeout next errors =
    λ s. or_next name (run_complete_with_timeout provider payload prompt timeout s) next errors

abbrev pub try_candidates :
    RunConfig → RunRequest → Text → ℕ → List Text → List Text → Action (Text × Text)
try_candidates config payload prompt timeout [] errors =
    raise (runtime_error (codes "All provider attempts failed: " ++ join (codes " | ") errors))
try_candidates config payload prompt timeout (name ∷ names) errors =
    attempt name (entry name config.providers) payload prompt timeout
      (try_candidates config payload prompt timeout names) errors

-- payload.timeout_seconds or self._default_timeout_seconds
abbrev pub timeout_of : RunConfig → Option ℕ → ℕ
timeout_of config none = max config.default_timeout_seconds 5
timeout_of config (some n) = if n == 0 then max config.default_timeout_seconds 5 else n

-- _complete_with_failover
unfoldable pub complete_with_failover : RunConfig → RunRequest → Text → Action (Text × Text)
unfolding provider_candidates run_complete_with_timeout
complete_with_failover config payload prompt =
    try_candidates config payload prompt (timeout_of config payload.timeout_seconds)
      (provider_candidates config payload.provider) []

abbrev pub not_configured : RunConfig → Text → Action (Text × Provider)
not_configured config name = raise (
    value_error (
      codes "Provider '"
      ++ name
      ++ codes "' is not configured. Available providers: "
      ++ join (codes ", ") (sort_texts (provider_names config))
      ++ codes "."))

abbrev pub no_provider : RunConfig → Text → Option Text → Action (Text × Provider)
no_provider config name none = not_configured config name
no_provider config name (some hint) =
    if is_empty hint then not_configured config name else raise (value_error hint)

abbrev pub resolved : RunConfig → Text → Option Provider → Action (Text × Provider)
resolved config name (some provider) = pure (name, provider)
resolved config name none = no_provider config name (entry name config.provider_setup_hints)

-- _resolve_provider
unfoldable pub resolve_provider : RunConfig → Option Text → Action (Text × Provider)
resolve_provider config requested =
    let name = or_default (or_empty requested) config.default_provider in
    resolved config name (entry name config.providers)
