-- ===== src/AgentRuns/Lifecycle.antt =====
-- What the operator's commands make of a run.
use syncore.Common.{
  ℕ, suc, ◌≡◌, ◌≢◌, refl, ap, arith, codes, ==_iff, Bool, true, false, Option, none, some, List, [],
  ◌∷◌, first, update_where, Text, String,
}
use syncore.Models.{AgentRun, AgentRunUpdate, AgentRunStatus, queued, blocked}
use syncore.Store.{Store, Result, ok, err, Error, ◌>>=◌}
use syncore.Store.Runs.{update_agent_run, get_agent_run, run_is, assign_run}
use syncore.Store.Events.{save_project_event}
use syncore.AgentRuns.{
  get_run, cancel_run, cancel_found, canceled, resume_run, resume_found, resumed, is_active,
  is_stopped, note_run,
}

pub first-update_run :
    (k : ℕ) (u : AgentRunUpdate) (now : ℕ) (rows : List AgentRun) (run : AgentRun)
    → first (run_is k) rows ≡ some run
    → first (run_is k) (update_where (run_is k) (assign_run u now) rows)
      ≡ some (assign_run u now run)
first-update_run k u now [] run h = absurd (ground (arith, h))
first-update_run k u now (r ∷ rows) run h = ground (arith, h, first-update_run k u now rows run)

pub first-update_other :
    (k j : ℕ) (u : AgentRunUpdate) (now : ℕ) (rows : List AgentRun)
    → j ≢ k
    → first (run_is j) (update_where (run_is k) (assign_run u now) rows) ≡ first (run_is j) rows
first-update_other k j u now [] n = refl
first-update_other k j u now (r ∷ rows) n =
    ground (arith, ==_iff r.id k, ==_iff r.id j, n, first-update_other k j u now rows n)

-- The run that is returned is found from now on, with its new status, and no other run has changed.
pub record Settled (next : AgentRunStatus) (k : ℕ) (s : Store)
    (out : Result (Option AgentRun) × Store) : Type 0 where
  pub after : AgentRun
  pub returned : out.0 ≡ ok (some after)
  pub status : after.status ≡ next
  pub found : get_run k out.1 ≡ (ok (some after), out.1)
  pub others : (j : ℕ) → j ≢ k → (get_run j out.1).0 ≡ (get_run j s).0

-- A command that takes a run to `next` from the statuses that pass.
pub record Commanded (allowed : AgentRunStatus → Bool) (next : AgentRunStatus) (k : ℕ)
    (run : AgentRun) (s : Store) (out : Result (Option AgentRun) × Store) : Type 0 where
  pub accepted : allowed run.status ≡ true → Settled next k s out
  -- the call raises and nothing has changed
  pub refused : allowed run.status ≡ false → (out.1 ≡ s) × ((e : Error) × (out.0 ≡ err e))

abbrev to : AgentRunStatus → Option Text → AgentRunUpdate
to next error = record { status = some next; output_summary = none; error_message = error }

-- The update of a run with its event.
update_then_note :
    (k : ℕ) (next : AgentRunStatus) (error : Option Text) (event_type : String) (s : Store)
    (run : AgentRun)
    → first (run_is k) s.runs ≡ some run
    → Settled next k s ((update_agent_run k (to next error) >>= note_run event_type) s)
unfolding get_run get_agent_run update_agent_run save_project_event
update_then_note k next error event_type s run h =
    let now = s.clock s.tick in
    let u = to next error in
    let again = first-update_run k u now s.runs run h in
    rw again (record {
      after = assign_run u now run;
      returned = refl;
      status = refl;
      found = rw again refl;
      others = λ j n. ap ok (first-update_other k j u now s.runs n);
    })

found_of :
    (k : ℕ) (s : Store) (run : AgentRun)
    → (get_run k s).0 ≡ ok (some run)
    → first (run_is k) s.runs ≡ some run
unfolding get_run get_agent_run
found_of k s run h = ground (arith, h)

cancel_found-Commanded :
    (k : ℕ) (s : Store) (run : AgentRun)
    → first (run_is k) s.runs ≡ some run
    → Commanded is_active blocked k run s (cancel_found k (some run) s)
cancel_found-Commanded k s run h = record {
  accepted = λ a.
      rw a
        (update_then_note k blocked (some (codes "Canceled by operator.")) "run.canceled" s run h);
  refused = λ r. rw r (refl, (_, refl));
}

resume_found-Commanded :
    (k : ℕ) (s : Store) (run : AgentRun)
    → first (run_is k) s.runs ≡ some run
    → Commanded is_stopped queued k run s (resume_found k (some run) s)
resume_found-Commanded k s run h = record {
  accepted = λ a. rw a (update_then_note k queued none "run.resumed" s run h);
  refused = λ r. rw r (refl, (_, refl));
}

-- A queued or running run is blocked by cancel_run, which returns it, and every other run is left as
-- it was; for a run in any other status the call raises and the store is unchanged.
pub cancel_run-Commanded :
    (k : ℕ) (s : Store) (run : AgentRun)
    → (get_run k s).0 ≡ ok (some run)
    → Commanded is_active blocked k run s (cancel_run k s)
unfolding cancel_run get_agent_run
cancel_run-Commanded k s run h =
    let found = found_of k s run h in rw found (cancel_found-Commanded k s run found)

-- A blocked or failed run is queued by resume_run, which returns it, and every other run is left as
-- it was; for a run in any other status the call raises and the store is unchanged.
pub resume_run-Commanded :
    (k : ℕ) (s : Store) (run : AgentRun)
    → (get_run k s).0 ≡ ok (some run)
    → Commanded is_stopped queued k run s (resume_run k s)
unfolding resume_run get_agent_run
resume_run-Commanded k s run h =
    let found = found_of k s run h in rw found (resume_found-Commanded k s run found)

-- A run that was canceled and then resumed is queued again, and still carries the error text of the
-- cancellation: resume_run passes error_message=None, which update_agent_run takes as no change.
pub cancel_run-resume_run :
    (k : ℕ) (s : Store) (run : AgentRun)
    → (get_run k s).0 ≡ ok (some run)
    → is_active run.status ≡ true
    → (after : AgentRun) × (((resume_run k (cancel_run k s).1).0 ≡ ok (some after))
        × ((after.status ≡ queued) × (after.error_message ≡ some (codes "Canceled by operator."))))
unfolding cancel_run resume_run get_agent_run update_agent_run save_project_event
cancel_run-resume_run k s run h a =
    let found = found_of k s run h in
    let once = first-update_run k canceled (s.clock s.tick) s.runs run found in
    let again =
      first-update_run k resumed (s.clock (suc (suc s.tick)))
        (update_where (run_is k) (assign_run canceled (s.clock s.tick)) s.runs) _ once in
    rw (found, a, once) (rw once (rw again (_, (refl, (refl, refl)))))
