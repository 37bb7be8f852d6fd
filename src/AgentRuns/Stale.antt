-- ===== src/AgentRuns/Stale.antt =====
-- The runs that list_runs marks as stale.
use syncore.Common.{
  any-first, ℕ, ◌≡◌, refl, arith, ==_refl, ◌==◌, sym, Bool, true, false, not, ◌||◌, Option, none,
  some, List, [], ◌∷◌, any, update_where, All, All-take, All-keep, Bool-cases, inl, inr, ℤ, ◌/◌,
  ◌-◌,
}
use mathlib.Core.Path.{subst}
use syncore.Models.{AgentRun, AgentRunUpdate}
use syncore.Store.{Store}
use syncore.Store.Order.Sorted.{All-order_asc, All-order_desc}
use syncore.Store.Returns.{Returns, Returns-and_then}
use syncore.Store.Runs.{update_agent_run, list_agent_runs, run_is, assign_run}
use syncore.Store.Events.{save_project_event}
use syncore.AgentRuns.{
  list_runs, reconcile_stale_runs, reconcile_runs, reconcile_run, mark_stale, is_fresh, is_active,
  stale_timeout, stale,
}
use syncore.AgentRuns.Lifecycle.{first-update_run}

-- An active run has made progress within the timeout.
abbrev pub is_current : ℕ → ℕ → AgentRun → Bool
is_current now timeout run = not (is_active run.status) || is_fresh now timeout run

-- The store has a row under the id.
abbrev IsRow : Store → ℕ → Type 0
IsRow s k = any (run_is k) s.runs ≡ true

any-update_run :
    (j k : ℕ) (u : AgentRunUpdate) (now : ℕ) (rows : List AgentRun)
    → any (run_is j) (update_where (run_is k) (assign_run u now) rows) ≡ any (run_is j) rows
any-update_run j k u now [] = refl
any-update_run j k u now (r ∷ rows) = ground (arith, any-update_run j k u now rows)

module _ (now timeout : ℕ) where
  -- What one round leaves: a run that is current, and no row lost.
  abbrev Reconciled : Store → AgentRun → Store → Type 0
  Reconciled before run after =
      (is_current now timeout run ≡ true) × ((k : ℕ) → IsRow before k → IsRow after k)

  mark_stale-Reconciled :
      (run : AgentRun) (age : ℕ) (s : Store)
      → IsRow s run.id
      → Returns (Reconciled s) (mark_stale run age s)
  unfolding update_agent_run save_project_event
  mark_stale-Reconciled run age s h =
      let found = any-first (run_is run.id) s.runs h in
      let now' = s.clock s.tick in
      rw (first-update_run run.id (stale age) now' s.runs found.0 found.1)
        (refl, λ k row. rw (any-update_run k run.id (stale age) now' s.runs) row)

  reconcile_run-Reconciled :
      (run : AgentRun) (s : Store)
      → IsRow s run.id
      → Returns (Reconciled s) (reconcile_run now timeout run s)
  reconcile_run-Reconciled run s h = elim (Bool-cases (is_active run.status)) [
    | inr e ↦ rw e (rw e refl, λ k row. row)
    | inl e ↦ elim (Bool-cases (is_fresh now timeout run)) [
      | inl f ↦ rw (e, f) (rw (e, f) refl, λ k row. row)
      | inr f ↦ rw (e, f) (mark_stale-Reconciled run ((now - run.updated_at) / 1_000_000) s h)
    ]
  ]

  abbrev pub AllCurrent : List AgentRun → Store → Type 0
  AllCurrent runs s = All (λ r. is_current now timeout r ≡ true) runs

  All-IsRow :
      (before after : Store) (runs : List AgentRun)
      → ((k : ℕ) → IsRow before k → IsRow after k)
      → All (λ r. IsRow before r.id) runs
      → All (λ r. IsRow after r.id) runs
  All-IsRow before after [] k h = tt
  All-IsRow before after (r ∷ runs) k h = (k r.id h.0, All-IsRow before after runs k h.1)

  reconcile_runs-AllCurrent :
      (runs : List AgentRun) (s : Store)
      → All (λ r. IsRow s r.id) runs
      → Returns AllCurrent (reconcile_runs now timeout runs s)
  reconcile_runs-AllCurrent [] s h = tt
  reconcile_runs-AllCurrent (run ∷ runs) s h =
      Returns-and_then (Reconciled s) AllCurrent (reconcile_run now timeout run s) _
        (reconcile_run-Reconciled run s h.0)
        (λ r s' c.
          Returns-and_then AllCurrent AllCurrent (reconcile_runs now timeout runs s') _
            (reconcile_runs-AllCurrent runs s' (All-IsRow s s' runs c.1 h.1))
            (λ rs s'' cs. (c.0, cs)))

-- The rows that a list holds are rows of the store.
All-own : (rows : List AgentRun) → All (λ r. any (run_is r.id) rows ≡ true) rows
All-own [] = tt
All-own (r ∷ rows) = (rw (==_refl r.id) refl, weaken rows (All-own rows))
  where
    weaken :
        (xs : List AgentRun)
        → All (λ x. any (run_is x.id) rows ≡ true) xs
        → All (λ x. any (run_is x.id) (r ∷ rows) ≡ true) xs
    weaken [] h = tt
    weaken (x ∷ xs) h = (ground (arith, h.0), weaken xs h.1)

listed :
    (task_id : Option ℕ) (limit : ℕ) (s : Store)
    → Returns
        (λ runs after. (All (λ r. IsRow s r.id) runs) × (after ≡ s))
        (list_agent_runs task_id limit s)
unfolding list_agent_runs
listed none limit s = (All-take _ _ _ (All-order_desc _ _ s.runs (All-own s.runs)), refl)
listed (some k) limit s =
    (All-take _ _ _ (All-order_asc _ _ _ (All-keep _ _ s.runs (All-own s.runs))), refl)

-- With a positive timeout, list_runs returns, and every run that it returns as queued or running has
-- been updated within the timeout.
pub list_runs-AllCurrent :
    (settings : Option ℤ) (task_id : Option ℕ) (limit : ℕ) (s : Store)
    → (stale_timeout settings == 0) ≡ false
    → Returns
        (AllCurrent (s.clock s.tick) (stale_timeout settings))
        (list_runs settings task_id limit s)
unfolding list_runs reconcile_stale_runs
list_runs-AllCurrent settings task_id limit s h =
    let current = AllCurrent (s.clock s.tick) (stale_timeout settings) in
    Returns-and_then (λ runs after. All (λ r. IsRow s r.id) runs × (after ≡ s)) current
      (list_agent_runs task_id limit s) (reconcile_stale_runs settings) (listed task_id limit s)
      (λ runs after l.
        subst (λ s'. Returns current (reconcile_stale_runs settings runs s')) (sym l.1)
          (rw h (reconcile_runs-AllCurrent (s.clock s.tick) (stale_timeout settings) runs _ l.0)))
