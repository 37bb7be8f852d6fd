-- ===== src/Autonomy/Process/Blocked/Loop.antt =====
-- process_task blocks the task whenever it answers that the task failed.
use syncore.Common.{
  first-passes, ℕ, ◌≡◌, refl, ◌∙◌, arith, leb, Text, codes, Bool, Option, none, some, List, first,
  Bool-cases, inl, inr, ==_iff, update_where,
}
use mathlib.Core.Path.{subst}
use syncore.Models.{
  ProjectEvent, Task, TaskStatus, TaskUpdate, new, in_progress, completed, blocked, to_status,
}
use syncore.Store.{Store, Action, Result, ok, err}
use syncore.Store.Tasks.{get_task, update_task, with_id, or_else, assign, has_assignment}
use syncore.Store.Events.{list_project_events}
use syncore.Autonomy.Gate.{total_step_events, next_stage, stages}
use syncore.Autonomy.Stage.{failed, Services, AutonomyResult, Prefs}
use syncore.Autonomy.Finalizer.{
  finalize_task, child_gate_status, ChildGate, no_children, awaiting_children, children_failed,
  children_completed,
}
use syncore.Autonomy.Process.{
  advance, budget_gated, note_mode, read_clock, by_children, process_open_task, by_status, by_task,
  process_task,
}
use syncore.Autonomy.Process.Preferences.{
  Settings, bootstrap_if_needed, should_enforce_sdlc, resolve_autonomy_mode,
}
use syncore.Autonomy.Process.Blocked.{
  Blocks, Always, Consistent, IsBlocked, answers_failed, Blocks-pure, Blocks-if, Blocks-bind,
  Blocks-then, Blocks-bind_of,
}
use syncore.Autonomy.Process.Blocked.Stages.{fail_task-Blocks, next_or_finish-Blocks}

-- The row that update_task returns is one of the task.
abbrev IsRowOf : ℕ → Option Task → Type 0
IsRowOf k a = (t : Task) → t.id ≡ k → (or_else a t).id ≡ k

first-IsRowOf : (k : ℕ) (a : Option Task) (ts : List Task) → first (with_id k) ts ≡ a → IsRowOf k a
first-IsRowOf k none ts h t e = e
first-IsRowOf k (some u) ts h t e = (==_iff u.id k).0 (first-passes (with_id k) ts u h)

update_task-IsRowOf :
    (k : ℕ) (u : TaskUpdate) (s : Store) (a : Option Task)
    → (update_task k u s).0 ≡ ok a
    → IsRowOf k a
unfolding update_task
update_task-IsRowOf k u s a h = elim (Bool-cases (has_assignment u)) [
  | inl e ↦
      first-IsRowOf k a (update_where (with_id k) (assign u (s.clock s.tick)) s.tasks)
        (ground (arith, e, h))
  | inr e ↦ absurd (ground (arith, e, h))
]

module _ (services : Services) (settings : Settings) (k : ℕ) where
  moved :
      {m : Action AutonomyResult} {i : ℕ}
      → i ≡ k
      → Blocks answers_failed i Always m
      → Blocks answers_failed k Always m
  moved {m} e x = subst (λ j. Blocks answers_failed j Always m) e x

  advance-Blocks :
      (task : Task) (prefs : Prefs) (mode : Text) (approval sdlc : Bool) (now : ℕ)
      (events : List ProjectEvent)
      → task.id ≡ k
      → Blocks answers_failed k Always
          (advance services settings task prefs mode approval sdlc now events)
  unfolding advance
  advance-Blocks task prefs mode approval sdlc now events e =
      Blocks-bind_of (IsRowOf task.id) (update_task _ _) _
        (update_task-IsRowOf task.id (to_status in_progress))
        (λ updated row. Blocks-bind (bootstrap_if_needed _ _) _ (λ started.
          Blocks-bind (list_project_events _ _) _ (λ events'. moved (row task refl ∙ e) (
            next_or_finish-Blocks services settings (or_else updated task) prefs mode approval sdlc
              started.0 started.1 now events' (next_stage events' started.1 stages)))))

  budget_gated-Blocks :
      (task : Task) (prefs : Prefs) (mode : Text) (approval : Bool) (events : List ProjectEvent)
      → task.id ≡ k
      → Blocks answers_failed k Always
          (budget_gated services settings task prefs mode approval events)
  unfolding budget_gated
  budget_gated-Blocks task prefs mode approval events e =
      Blocks-bind (should_enforce_sdlc _ _) _ (λ sdlc.
        Blocks-bind (read_clock services settings) _ (λ now.
          Blocks-if (leb settings.max_total_steps (total_step_events events))
            (moved e (
              fail_task-Blocks services settings task.id
                (codes "Max autonomy step budget reached.")))
            (advance-Blocks task prefs mode approval sdlc now events e)))

  by_children-Blocks :
      (task : Task) (prefs : Prefs) (mode : Text) (approval : Bool) (events : List ProjectEvent)
      (gate : ChildGate)
      → task.id ≡ k
      → Blocks answers_failed k Always
          (by_children services settings task prefs mode approval events gate)
  by_children-Blocks task prefs mode approval events awaiting_children e = Blocks-pure _ refl
  by_children-Blocks task prefs mode approval events (children_failed note) e =
      moved e (fail_task-Blocks services settings task.id note)
  by_children-Blocks task prefs mode approval events children_completed e =
      Blocks-then (finalize_task services _) _ (Blocks-pure _ refl)
  by_children-Blocks task prefs mode approval events no_children e =
      budget_gated-Blocks task prefs mode approval events e

  process_open_task-Blocks :
      (task : Task)
      → task.id ≡ k
      → Blocks answers_failed k Always (process_open_task services settings task)
  unfolding process_open_task
  process_open_task-Blocks task e = Blocks-bind (list_project_events _ _) _ (λ events.
      Blocks-bind (resolve_autonomy_mode _ _) _ (λ adjusted.
        Blocks-then (note_mode services settings _ _ _) _ (
          Blocks-bind (child_gate_status _ _) _
            (λ gate. by_children-Blocks task _ _ _ events gate e))))

  by_status-Blocks :
      (task : Task) (status : TaskStatus)
      → task.id ≡ k
      → Blocks answers_failed k Always (by_status services settings task status)
  by_status-Blocks task completed e = Blocks-pure _ refl
  by_status-Blocks task blocked e = Blocks-pure _ refl
  by_status-Blocks task new e = process_open_task-Blocks task e
  by_status-Blocks task in_progress e = process_open_task-Blocks task e

  by_task-Consistent :
      (found : Option Task) (s : Store)
      → first (with_id k) s.tasks ≡ found
      → Consistent answers_failed k (by_task services settings k found s)
  by_task-Consistent none s h = λ e. absurd (cc)
  by_task-Consistent (some task) s h =
      (by_status-Blocks task task.status
          ((==_iff task.id k).0 (first-passes (with_id k) s.tasks task h))).at
        s tt

  answered :
      (out : Result AutonomyResult × Store) (r : AutonomyResult)
      → Consistent answers_failed k out
      → out.0 ≡ ok r
      → r.status ≡ failed
      → IsBlocked k out.1
  answered (ok a, s) r c h e = c (ground (arith, h, e))
  answered (err x, s) r c h e = absurd (cc)

  -- Whenever process_task answers that the task failed, each row of the task is blocked in the store
  -- that it leaves, whatever the services behind the loop do: by its children, the step budget, the
  -- approval, a gate, the quality, the review or the recovery from an error.
  pub process_task-failed_IsBlocked :
      (s : Store) (r : AutonomyResult)
      → (process_task services settings k s).0 ≡ ok r
      → r.status ≡ failed
      → IsBlocked k (process_task services settings k s).1
  unfolding process_task get_task
  process_task-failed_IsBlocked s r h e =
      answered (process_task services settings k s) r
        (by_task-Consistent (first (with_id k) s.tasks) s refl) h e
