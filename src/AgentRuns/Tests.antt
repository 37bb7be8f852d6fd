-- ===== src/AgentRuns/Tests.antt =====
-- The runs of a small store: one runs since long ago, one has failed.
use syncore.Common.{ℕ, ◌≡◌, refl, codes, none, some, [], ◌∷◌, pos}
use syncore.Models.{AgentRun, AgentRunStatus, queued, running, blocked, failed, coder}
use syncore.Store.{Store, ok}
use syncore.Store.Returns.{Returns}
use syncore.Store.Runs.{get_agent_run}
use syncore.AgentRuns.{get_run, cancel_run, resume_run, list_runs, is_active, is_stopped}
use syncore.AgentRuns.Lifecycle.{
  Commanded, cancel_run-Commanded, resume_run-Commanded, cancel_run-resume_run,
}
use syncore.AgentRuns.Stale.{AllCurrent, list_runs-AllCurrent}
use syncore.Samples.{empty_store}

abbrev a_run : ℕ → AgentRunStatus → AgentRun
a_run id status = record {
  id = id;
  task_id = 7;
  role = coder;
  status = status;
  input_summary = none;
  output_summary = none;
  error_message = none;
  created_at = id;
  updated_at = id;
}

-- The clock reads 3 seconds.
abbrev two_runs : Store
two_runs = record empty_store {
  runs = a_run 1 running ∷ a_run 2 failed ∷ [];
  clock = λ n. 3_000_000;
}

cancel_run-Commanded_example :
    Commanded is_active blocked 1 (a_run 1 running) two_runs (cancel_run 1 two_runs)
unfolding get_run get_agent_run
cancel_run-Commanded_example = cancel_run-Commanded 1 two_runs (a_run 1 running) refl

resume_run-Commanded_example :
    Commanded is_stopped queued 2 (a_run 2 failed) two_runs (resume_run 2 two_runs)
unfolding get_run get_agent_run
resume_run-Commanded_example = resume_run-Commanded 2 two_runs (a_run 2 failed) refl

cancel_run-resume_run_example :
    (after : AgentRun) × (((resume_run 1 (cancel_run 1 two_runs).1).0 ≡ ok (some after))
      × ((after.status ≡ queued) × (after.error_message ≡ some (codes "Canceled by operator."))))
unfolding get_run get_agent_run
cancel_run-resume_run_example = cancel_run-resume_run 1 two_runs (a_run 1 running) refl refl

list_runs-AllCurrent_example :
    Returns (AllCurrent 3_000_000 2) (list_runs (some (pos 2)) none 50 two_runs)
list_runs-AllCurrent_example = list_runs-AllCurrent (some (pos 2)) none 50 two_runs refl
