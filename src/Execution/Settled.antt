-- ===== src/Execution/Settled.antt =====
-- A run that has ended, in whatever way, is no longer active.
use syncore.Common.{
  Bool, true, false, ◌++◌, suc, ℕ, suc, ◌≤◌, ◌≡◌, refl, arith, ◌==◌, Text, Bool, false, not, ◌&&◌,
  none, List, [], ◌∷◌, count_if, count_if-append, update_where,
}
use syncore.Models.{AgentRun, AgentRunUpdate, running}
use syncore.Store.{
  has_task, refer, and_then, Store, Action, Result, ok, err, Error, ◌>>=◌, and_then,
}
use syncore.Store.Keeps.{Keeps}
use syncore.Store.Runs.{run_is, assign_run, update_agent_run, create_agent_run}
use syncore.Store.Events.{save_project_event}
use syncore.AgentRuns.{is_active}
use syncore.Execution.{SameReplays, RunRequest, RunResponse, RunConfig, OptimizedBundle}
use syncore.Execution.Providers.{complete_with_failover}
use syncore.Execution.Execute.{
  note_started, execute, start_run, attempt_run, finish_run, fail_run, note_failed, handled,
  completed_run, failed_run, requested, new_run,
}
use syncore.Execution.Frame.{
  record_event-Keeps, note_completed-Keeps, complete-Keeps, persist-Keeps,
}
use syncore.Execution.Whole.{execute-Keeps}

-- A queued or running run of the task.
abbrev pub active_of : ℕ → AgentRun → Bool
active_of k r = (r.task_id == k) && is_active r.status

-- Such a run under another id than `run_id`.
abbrev pub active_but : ℕ → ℕ → AgentRun → Bool
active_but k run_id r = active_of k r && not (run_is run_id r)

-- The update ends the runs that it rewrites.
abbrev pub Ends : AgentRunUpdate → Type 0
Ends u = (now : ℕ) (r : AgentRun) → is_active (assign_run u now r).status ≡ false

module _ (k run_id : ℕ) where
  pub count-ended :
      (u : AgentRunUpdate) (now : ℕ)
      → Ends u
      → (rows : List AgentRun)
      → count_if (active_of k) (update_where (run_is run_id) (assign_run u now) rows)
        ≤ count_if (active_but k run_id) rows
  count-ended u now h [] = omega arith
  count-ended u now h (r ∷ rows) = ground (arith, h now r, count-ended u now h rows)

  count-others :
      (u : AgentRunUpdate) (now : ℕ) (rows : List AgentRun)
      → count_if (active_but k run_id) (update_where (run_is run_id) (assign_run u now) rows)
        ≤ count_if (active_but k run_id) rows
  count-others u now [] = omega arith
  count-others u now (r ∷ rows) = ground (arith, count-others u now rows)

  count-but_le :
      (rows : List AgentRun) → count_if (active_but k run_id) rows ≤ count_if (active_of k) rows
  count-but_le [] = omega arith
  count-but_le (r ∷ rows) = ground (arith, count-but_le rows)

module _ (config : RunConfig) (payload : RunRequest) (k n : ℕ) where
  -- At most `n` runs of the task are active; the same without counting `run_id`.
  unfoldable pub AtMost : Store → Type 0
  AtMost s = count_if (active_of k) s.runs ≤ n

  unfoldable pub AtMostBut : ℕ → Store → Type 0
  AtMostBut run_id s = count_if (active_but k run_id) s.runs ≤ n

  pub AtMost-kept : (s s' : Store) → s'.runs ≡ s.runs → s'.jobs ≡ s.jobs → AtMost s → AtMost s'
  unfolding AtMost
  AtMost-kept s s' er ej h = rw er h

  pub AtMost-stable :
      (s s' : Store) → s'.runs ≡ s.runs → s'.jobs ≡ s.jobs → SameReplays s s' → AtMost s → AtMost s'
  AtMost-stable s s' er ej i h = AtMost-kept s s' er ej h

  pub AtMostBut-stable :
      (run_id : ℕ) (s s' : Store)
      → s'.runs ≡ s.runs
      → s'.jobs ≡ s.jobs
      → SameReplays s s'
      → AtMostBut run_id s
      → AtMostBut run_id s'
  unfolding AtMostBut
  AtMostBut-stable run_id s s' er ej i h = rw er h

  pub weaken : (run_id : ℕ) (s : Store) → AtMost s → AtMostBut run_id s
  unfolding AtMost AtMostBut
  weaken run_id s h = omega (arith, h, count-but_le k run_id s.runs)

  -- The except block ends the run.
  pub note_failed-AtMost :
      (run : AgentRun) (provider : Text) (e : Error) (s : Store)
      → AtMostBut run.id s
      → AtMost (note_failed config payload run provider e s).1
  unfolding AtMost AtMostBut update_agent_run
  note_failed-AtMost run provider e s h =
      (record_event-Keeps AtMost AtMost-stable config payload payload.task_id "run.failed" _).at _ (
        omega
          (arith, h, count-ended k run.id (failed_run e) (s.clock s.tick) (λ now r. refl) s.runs))

  fail_run-AtMost :
      (run : AgentRun) (provider : Text) (e : Error) (s : Store)
      → AtMostBut run.id s
      → AtMost (fail_run config payload run provider e s).1
  unfolding update_agent_run save_project_event
  fail_run-AtMost run provider e s h = note_failed-AtMost run provider e s h

  -- The rest of the try block ends the run before anything else.
  finish_run-AtMost :
      (bundle : OptimizedBundle) (run : AgentRun) (prompt : Text) (a : Text × Text) (s : Store)
      → AtMostBut run.id s
      → AtMost (finish_run config payload bundle run prompt a s).1
  unfolding AtMost AtMostBut update_agent_run
  finish_run-AtMost bundle run prompt (name, output) s h =
      (note_completed-Keeps AtMost AtMost-stable config payload bundle run prompt (name, output)
          (s.clock s.tick) (persist-Keeps AtMost AtMost-kept config payload)).at
        _
        (omega (
          arith,
          h,
          count-ended k run.id (completed_run config output) (s.clock (suc s.tick)) (λ now r. refl)
              s.runs,
        ))

  module _ (bundle : OptimizedBundle) (run : AgentRun) (prompt provider : Text) where
    handled-AtMost :
        (out : Result RunResponse × Store)
        → AtMost out.1
        → AtMost (handled out (fail_run config payload run provider)).1
    handled-AtMost (ok a, s) h = h
    handled-AtMost (err e, s) h = fail_run-AtMost run provider e s (weaken run.id s h)

    attempted-AtMost :
        (out : Result (Text × Text) × Store)
        → AtMostBut run.id out.1
        → AtMost
            (handled
              (and_then out (finish_run config payload bundle run prompt))
              (fail_run config payload run provider)).1
    attempted-AtMost (ok a, s) h =
        handled-AtMost (finish_run config payload bundle run prompt a s)
          (finish_run-AtMost bundle run prompt a s h)
    attempted-AtMost (err e, s) h = fail_run-AtMost run provider e s h

    attempt_run-AtMost :
        (s : Store)
        → AtMostBut run.id s
        → AtMost (attempt_run config payload bundle run prompt provider s).1
    unfolding attempt_run
    attempt_run-AtMost s h =
        attempted-AtMost (complete_with_failover config payload prompt s) (
          (complete-Keeps (AtMostBut run.id) (AtMostBut-stable run.id) config payload prompt).at s
            h)

  -- The new row is the only one that is more.
  pub start_run-AtMost :
      {B : Type 0} (provider prompt_ref context_ref : Text) (f : AgentRun → Action B)
      → ((run : AgentRun) (s : Store) → AtMostBut run.id s → AtMost (f run s).1)
      → Keeps AtMost (start_run config payload provider prompt_ref context_ref >>= f)
  unfolding start_run create_agent_run save_project_event AtMost AtMostBut
  start_run-AtMost provider prompt_ref context_ref f ends = record {
    at = λ s h. made s h (has_task payload.task_id s);
  }
    where
      row : Store → AgentRun
      row s = record {
        id = s.uuids s.tick;
        task_id = payload.task_id;
        role = payload.agent_role;
        status = running;
        input_summary = (new_run config payload).input_summary;
        output_summary = none;
        error_message = none;
        created_at = s.clock s.tick;
        updated_at = s.clock s.tick;
      }

      made :
          (s : Store)
          → AtMost s
          → (b : Bool)
          → AtMost
              (and_then
                (and_then
                  (refer b
                    (ok (row s), record s { runs = s.runs ++ row s ∷ []; tick = suc s.tick })
                    s)
                  (note_started config payload provider prompt_ref context_ref))
                f).1
      made s h true = ends _ _ (
          ground (
            arith,
            count_if-append (active_but k (s.uuids s.tick)) s.runs (row s ∷ []),
            count-but_le k (s.uuids s.tick) s.runs,
            h,
          ))
      made s h false = h

-- However execute ends (a repeated request, a limit that is reached, an error of a provider, an answer),
-- no task has more queued or running runs after it than before.
pub execute-active_le :
    (config : RunConfig) (payload : RunRequest) (k : ℕ) (s : Store)
    → count_if (active_of k) (execute config payload s).1.runs ≤ count_if (active_of k) s.runs
unfolding AtMost
execute-active_le config payload k s =
    let n = count_if (active_of k) s.runs in
    (execute-Keeps (AtMost config payload k n) (AtMost-stable config payload k n) config payload
        (λ bundle prompt prompt_ref context_ref.
          start_run-AtMost config payload k n (requested config payload) prompt_ref context_ref _
            (λ run.
              attempt_run-AtMost config payload k n bundle run prompt
                (requested config payload)))).at
      s (omega arith)
