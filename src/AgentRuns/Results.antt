-- ===== src/AgentRuns/Results.antt =====
-- get_run_result: the texts that a run left behind, found through its events.
use syncore.Common.{
  ℕ, if◌then◌else◌, Text, text_eq, is_empty, strip, Bool, not, ◌&&◌, ◌||◌, Option, none, some, List,
  String, last_where,
}
use syncore.Models.{AgentRun, ProjectEvent, field}
use syncore.Store.{Action, ◌>>=◌, pure, Reference}
use syncore.Store.Runs.{get_agent_run}
use syncore.Store.Events.{list_project_events}
use syncore.Store.References.{get_context_reference}
use syncore.Autonomy.Values.{text_or_empty, has_type}
use syncore.Autonomy.Uuid.{uuid_text}
use syncore.AgentRuns.{status_name}

pub record AgentRunResult : Type 0 where
  pub run_id : ℕ
  pub task_id : ℕ
  pub status : Text
  pub output_summary : Option Text
  pub prompt_ref_id : Option Text
  pub context_ref_id : Option Text
  pub output_ref_id : Option Text
  pub output_text : Option Text
  pub retrieval_hint : Option Text

-- str(event.event_data.get(key) or "")
abbrev data_text : String → ProjectEvent → Text
data_text key e = text_or_empty (field key e.event_data)

-- The first loop: the newest run.started that names no other run.
abbrev is_start_of : Text → ProjectEvent → Bool
is_start_of run_id e =
    has_type "run.started" e
    && (is_empty (data_text "run_id" e) || text_eq (data_text "run_id" e) run_id)

-- The second loop: the newest output with a reference.
abbrev is_output_of : Text → ProjectEvent → Bool
is_output_of run_id e =
    has_type "run.output.stored" e
    && text_eq (data_text "run_id" e) run_id
    && not (is_empty (strip (data_text "ref_id" e)))

abbrev pub not_empty : Text → Option Text
not_empty t = if is_empty t then none else some t

abbrev pub ref_of : String → Option ProjectEvent → Option Text
ref_of key none = none
ref_of key (some e) = not_empty (strip (data_text key e))

abbrev pub find_reference : Option Text → Action (Option Reference)
find_reference none = pure none
find_reference (some ref_id) = get_context_reference ref_id

abbrev original_of : Option Reference → Option Text
original_of none = none
original_of (some r) = some r.original_content

abbrev hint_of : Option Reference → Option Text
hint_of none = none
hint_of (some r) = some r.retrieval_hint

abbrev run_result : AgentRun → List ProjectEvent → Action (Option AgentRunResult)
run_result run events =
    let started = last_where (is_start_of (uuid_text run.id)) events in
    let output_ref_id = ref_of "ref_id" (last_where (is_output_of (uuid_text run.id)) events) in
    (do
      ref ← find_reference output_ref_id
      pure (
          some (record {
            run_id = run.id;
            task_id = run.task_id;
            status = status_name run.status;
            output_summary = run.output_summary;
            prompt_ref_id = ref_of "prompt_ref_id" started;
            context_ref_id = ref_of "context_ref_id" started;
            output_ref_id = output_ref_id;
            output_text = original_of ref;
            retrieval_hint = hint_of ref;
          })))

abbrev pub result_found : Option AgentRun → Action (Option AgentRunResult)
result_found none = pure none
result_found (some run) = do
  events ← list_project_events (some run.task_id) 500
  run_result run events

unfoldable pub get_run_result : ℕ → Action (Option AgentRunResult)
get_run_result run_id = do run ← get_agent_run run_id; result_found run
