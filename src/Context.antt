-- ===== src/Context.antt =====
-- services/orchestrator/app/context/schemas.py and compression_policy.py: the sections of a context, and
-- the policy that cuts them. The metadata and the times of a section are left out.
pub mod References
pub mod Transform
pub mod Optimizer
pub mod Sections
pub mod Fits
pub mod Tests
use syncore.Common.{ℕ, Text, codes, Bool, true, false, Option, List}

pub data SectionType : Type 0 where
  task constraint baton routing memory project_event tool_output log_output : SectionType
  file_content error schema code_patch prior_bundle summary other : SectionType

abbrev pub type_name : SectionType → Text
type_name task = codes "task"
type_name constraint = codes "constraint"
type_name baton = codes "baton"
type_name routing = codes "routing"
type_name memory = codes "memory"
type_name project_event = codes "project_event"
type_name tool_output = codes "tool_output"
type_name log_output = codes "log_output"
type_name file_content = codes "file_content"
type_name error = codes "error"
type_name schema = codes "schema"
type_name code_patch = codes "code_patch"
type_name prior_bundle = codes "prior_bundle"
type_name summary = codes "summary"
type_name other = codes "other"

pub record Section : Type 0 where
  pub section_id : Text
  pub title : Text
  pub section_type : SectionType
  pub content : Text
  pub source : Option Text
  pub is_critical : Bool
  pub priority : ℕ

pub record RawBundle : Type 0 where
  pub task_id : ℕ
  pub target_agent : Text
  pub target_model : Text
  pub token_budget : ℕ
  pub sections : List Section

-- `preserve_section_types` as its test.
pub record ContextPolicy : Type 0 where
  pub token_budget : ℕ
  pub layering_enabled : Bool
  pub preserve_section_types : SectionType → Bool
  pub large_content_threshold_chars : ℕ
  pub max_baton_chars : ℕ
  pub recent_events_full_count : ℕ
  pub max_event_summary_chars : ℕ
  pub max_noncritical_chars : ℕ

abbrev pub preserved_type : SectionType → Bool
preserved_type constraint = true
preserved_type error = true
preserved_type schema = true
preserved_type code_patch = true
preserved_type _ = false

unfoldable pub default_context_policy : ℕ → Bool → ContextPolicy
default_context_policy token_budget layering_enabled = record {
  token_budget = token_budget;
  layering_enabled = layering_enabled;
  preserve_section_types = preserved_type;
  large_content_threshold_chars = 2_000;
  max_baton_chars = 3_500;
  recent_events_full_count = 4;
  max_event_summary_chars = 400;
  max_noncritical_chars = 700;
}

-- LOG_LIKE_TYPES
abbrev pub is_log_like : SectionType → Bool
is_log_like log_output = true
is_log_like tool_output = true
is_log_like file_content = true
is_log_like _ = false

-- EVENT_LIKE_TYPES
abbrev pub is_event_like : SectionType → Bool
is_event_like project_event = true
is_event_like memory = true
is_event_like _ = false

abbrev pub is_baton : SectionType → Bool
is_baton baton = true
is_baton _ = false
