-- ===== src/Execution.antt =====
-- services/orchestrator/app/services/run_execution_service.py: a run of a model, from the check for a
-- repeated request to the row, the events and the texts that it leaves. The model providers are
-- network services, and their answers are the environment's: an answer depends on the moment of the
-- call, for which the tick of the store stands. sha1, textwrap.shorten and the JSON text of a response
-- are parameters too, and so is the assembly of the context.
pub mod Providers
pub mod Guards
pub mod References
pub mod Execute
pub mod Stream
pub mod Frame
pub mod Whole
pub mod LocalEcho
pub mod Failover
pub mod Settled
pub mod Replay
pub mod Limits
pub mod Queue
pub mod Scan
pub mod Tests
use syncore.Common.{
  ℕ, suc, ◌+◌, ◌/◌, max, if◌then◌else◌, Text, codes, is_empty, strip, length, Bool, Option, none,
  some, List, [], ◌∷◌, ◌++◌, ◌≡◌, text_eq, true, false, join, starts_with,
}
use syncore.Models.{AgentRole, AgentRunStatus, AgentRun, Fields, ProjectEvent}
use syncore.Store.{Store, Action, Result, ok, err, Error}
use syncore.Store.References.WriteOnce.{content_in}

-- RunExecutionRequest; the temperature in millionths.
pub record RunRequest : Type 0 where
  pub task_id : ℕ
  pub prompt : Text
  pub target_agent : Text
  pub target_model : Text
  pub token_budget : ℕ
  pub provider : Option Text
  pub idempotency_key : Option Text
  pub agent_role : AgentRole
  pub system_prompt : Option Text
  pub max_output_tokens : ℕ
  pub temperature : ℕ
  pub timeout_seconds : Option ℕ

-- RunExecutionResponse
pub record RunResponse : Type 0 where
  pub run_id : ℕ
  pub task_id : ℕ
  pub status : AgentRunStatus
  pub provider : Text
  pub target_agent : Text
  pub target_model : Text
  pub output_text : Text
  pub estimated_input_tokens : ℕ
  pub estimated_output_tokens : ℕ
  pub total_estimated_tokens : ℕ
  pub optimized_bundle_id : Option ℕ
  pub included_refs : List Text
  pub warnings : List Text
  pub created_at : ℕ
  pub completed_at : ℕ

-- The parts of OptimizedContextBundle that a run reads; `rendered_prompt` is
-- optimized_context.get("rendered_prompt", "").
pub record OptimizedBundle : Type 0 where
  pub bundle_id : Option ℕ
  pub rendered_prompt : Text
  pub included_refs : List Text
  pub warnings : List Text

-- The arguments of LlmProvider.complete and stream.
pub record ProviderCall : Type 0 where
  pub model : Text
  pub prompt : Text
  pub system_prompt : Option Text
  pub max_output_tokens : ℕ
  pub temperature : ℕ

-- How a call of complete ended, by an answer or an exception, and after how many seconds. Every call ends:
-- one that does not end holds up the run that waits for it, and is not modelled.
pub record ProviderAnswer : Type 0 where
  pub seconds : ℕ
  pub result : Result Text

-- The chunks of a stream, and the exception that ended it, if one did.
pub record ProviderStream : Type 0 where
  pub chunks : List Text
  pub failure : Option Error

pub record Provider : Type 0 where
  pub complete : ℕ → ProviderCall → ProviderAnswer
  pub stream : ℕ → ProviderCall → ProviderStream

-- Every id that begins with "idem_" stands for the text that it stood for.
abbrev pub SameReplays : Store → Store → Type 0
SameReplays s s' =
    (j : Text)
    → starts_with j (codes "idem_") ≡ true
    → content_in s'.references j ≡ content_in s.references j

-- What the service is built from.
pub record RunConfig : Type 0 where
  -- a dict by name
  pub providers : List (Text × Provider)
  pub default_provider : Text
  pub failover_enabled : Bool
  pub fallback_order : List Text
  pub provider_setup_hints : List (Text × Text)
  -- the constructor raises these three to 5, 1 and 1
  pub default_timeout_seconds : ℕ
  pub max_concurrent_runs_per_task : ℕ
  pub max_concurrent_runs_per_workspace : ℕ
  -- hashlib.sha1(text.encode()).hexdigest()
  pub sha1 : Text → Text
  -- textwrap.shorten(text, width, placeholder=" ...")
  pub shorten : Text → ℕ → Text
  -- model_dump_json, and json.loads with model_validate: none when the text is not JSON, an error when
  -- it is not a response
  pub dump_json : RunResponse → Text
  pub load_json : Text → Result (Option RunResponse)
  pub load-dump : (r : RunResponse) → load_json (dump_json r) ≡ ok (some r)
  -- ContextService.assemble_optimized_context: it saves a bundle and the texts that it cut, whose ids
  -- begin with "ctxref_", and touches neither runs nor jobs
  pub assemble_optimized_context : RunRequest → Action OptimizedBundle
  pub assemble-runs :
      (p : RunRequest) (s : Store) → (assemble_optimized_context p s).1.runs ≡ s.runs
  pub assemble-replays :
      (p : RunRequest) (s : Store) → SameReplays s (assemble_optimized_context p s).1
  pub assemble-jobs :
      (p : RunRequest) (s : Store) → (assemble_optimized_context p s).1.jobs ≡ s.jobs

-- dict.get(name)
abbrev pub entry : {A : Type 0} → Text → List (Text × A) → Option A
entry name [] = none
entry name ((k, a) ∷ more) = if text_eq k name then some a else entry name more

-- _build_prompt
unfoldable pub build_prompt : Text → Text → Text
build_prompt user_prompt rendered_prompt = strip (
    join (codes "\n") (
      codes "You are executing a Syncore run with optimized context."
      ∷ codes "Use context first; request full artifacts by context_ref only when needed."
      ∷ []
      ∷ codes "## Worker Request"
      ∷ strip user_prompt
      ∷ []
      ∷ codes "## Optimized Context"
      ∷ strip rendered_prompt
      ∷ []))
