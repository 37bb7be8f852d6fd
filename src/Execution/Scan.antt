-- ===== src/Execution/Scan.antt =====
-- The queue worker over RunExecutionService.
use syncore.Common.{ℕ, ◌≤◌, sym, arith, List, count_if}
use mathlib.Core.Path.{subst}
use syncore.Models.{AgentRun, Fields}
use syncore.Store.{Store, Result}
use syncore.Store.Keeps.{Keeps}
use syncore.RunQueue.{scan_once}
use syncore.RunQueue.Runs.{OfRuns, scan_once-OfRuns}
use syncore.Execution.{RunRequest, RunConfig}
use syncore.Execution.Execute.{execute}
use syncore.Execution.Settled.{active_of, execute-active_le}
use syncore.Execution.Queue.{run_execution, run_id_of-store}

module _ (config : RunConfig) (model_dump : RunRequest → Fields)
    (model_validate : Fields → Result RunRequest) (k n : ℕ) where
  FewActive : List AgentRun → Type 0
  FewActive runs = count_if (active_of k) runs ≤ n

  execute-FewActive :
      (request : RunRequest)
      → Keeps (OfRuns FewActive) ((run_execution config model_dump model_validate).execute request)
  unfolding FewActive
  execute-FewActive request = record {
    at = λ s h.
        let out = execute config request s in
        subst (λ (t : Store). count_if (active_of k) t.runs ≤ n) (sym (run_id_of-store out))
          (omega (arith, h, execute-active_le config request k s));
  }

-- After a scan of the queue no task has more queued or running runs than before it, whatever the
-- providers answer to the jobs that it settles.
pub scan_once-active_le :
    (config : RunConfig) (model_dump : RunRequest → Fields)
    (model_validate : Fields → Result RunRequest) (limit k : ℕ) (s : Store)
    → count_if
        (active_of k)
        (scan_once (run_execution config model_dump model_validate) limit s).1.runs
      ≤ count_if (active_of k) s.runs
unfolding FewActive
scan_once-active_le config model_dump model_validate limit k s =
    let n = count_if (active_of k) s.runs in
    (scan_once-OfRuns (FewActive config model_dump model_validate k n)
        (run_execution config model_dump model_validate)
        (execute-FewActive config model_dump model_validate k n) limit).at
      s (omega arith)
