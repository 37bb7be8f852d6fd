-- ===== src/Router.antt =====
-- services/router/policy.py: the role and the tier for the next step of a task.
use syncore.Common.{Text, codes, Bool, true, false, not, ◌&&◌, if◌then◌else◌, ◌++◌}
use syncore.Models.{
  TaskType, analysis, implementation, integration, review, memory_retrieval, memory_update,
  ComplexityLevel, low, medium, high, WorkerRole, orchestrator, ModelTier, economy, balanced,
  premium,
}

pub record RoutingRequest : Type 0 where
  pub task_type : TaskType
  pub complexity : ComplexityLevel
  pub requires_memory : Bool

pub record RoutingDecision : Type 0 where
  pub worker_role : WorkerRole
  pub model_tier : ModelTier
  pub reasoning : Text

unfoldable pub task_to_role : TaskType → WorkerRole
task_to_role analysis = WorkerRole.analyst
task_to_role review = WorkerRole.analyst
task_to_role implementation = orchestrator
task_to_role integration = orchestrator
task_to_role memory_retrieval = WorkerRole.memory
task_to_role memory_update = WorkerRole.memory

unfoldable pub complexity_to_tier : ComplexityLevel → ModelTier
complexity_to_tier low = economy
complexity_to_tier medium = balanced
complexity_to_tier high = premium

unfoldable pub role_text : WorkerRole → Text
role_text WorkerRole.analyst = codes "analyst"
role_text orchestrator = codes "orchestrator"
role_text WorkerRole.memory = codes "memory"

unfoldable pub tier_text : ModelTier → Text
tier_text economy = codes "economy"
tier_text balanced = codes "balanced"
tier_text premium = codes "premium"

unfoldable pub type_text : TaskType → Text
type_text analysis = codes "analysis"
type_text implementation = codes "implementation"
type_text integration = codes "integration"
type_text review = codes "review"
type_text memory_retrieval = codes "memory_retrieval"
type_text memory_update = codes "memory_update"

abbrev is_memory : WorkerRole → Bool
is_memory WorkerRole.memory = true
is_memory _ = false

unfoldable pub decide : RoutingRequest → RoutingDecision
unfolding task_to_role complexity_to_tier role_text tier_text type_text
decide request =
    let worker_role = task_to_role request.task_type in
    let model_tier = complexity_to_tier request.complexity in
    record {
      worker_role = worker_role;
      model_tier = model_tier;
      reasoning =
          if request.requires_memory && not (is_memory worker_role)
          then codes "Selected "
            ++ role_text worker_role
            ++ codes " for "
            ++ type_text request.task_type
            ++ codes "; memory context is required and should be loaded first."
          else codes "Selected "
            ++ role_text worker_role
            ++ codes " for "
            ++ type_text request.task_type
            ++ codes " at "
            ++ tier_text model_tier
            ++ codes " tier.";
    }
