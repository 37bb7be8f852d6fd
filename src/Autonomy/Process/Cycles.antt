-- ===== src/Autonomy/Process/Cycles.antt =====
-- No event ever starts a cycle past max_cycles, whatever the model answers.
pub mod Recovery
pub mod Finish
pub mod Outcomes
pub mod Gates
pub mod Loop
pub mod Reach
use syncore.Common.{
  zero, suc, ◌≤◌, pos, ◌∷◌, List, ℕ, zero, suc, ◌+◌, ◌≤◌, ◌<◌, ◌≡◌, refl, leb, ltb, if◌then◌else◌,
  Text, text_eq, String, ◌=s=◌, Bool, true, false, not, ◌&&◌, ◌||◌, Option, none, some, List, [],
  ◌∷◌, ◌++◌, All, All-append, arith, ℤ, pos, codes, sym,
}
use syncore.Models.{
  int, ProjectEvent, to_status, blocked, ProjectEvent, ProjectEventCreate, Value, int, text, Fields,
  field, Task, TaskUpdate, BatonPacketCreate,
}
use mathlib.Core.Path.{subst}
use syncore.Store.{has_task, Store, Action, Result, ok, err, Error, ◌>>=◌, ◌>>◌, pure, raise}
use syncore.Store.Keeps.{
  Keeps, Keeps-bind, Keeps-then, Keeps-if, Keeps-if_of, Keeps-pure, Keeps-raise, keeps_rules,
  refer-holds,
}
use syncore.Store.Tasks.{get_task, update_task, list_tasks}
use syncore.Store.Events.{
  save_project_event, list_project_events, count_project_events, get_latest_baton_packet,
  save_baton_packet,
}
use syncore.Store.Workspaces.{get_workspace, save_autonomy_snapshot, SnapshotCreate}
use syncore.Autonomy.Values.{has_type, event_int}
use syncore.Autonomy.Gate.{positive, ensure_approval_requested}
use syncore.Autonomy.Stage.{
  Services, StageContext, StageRun, Services, StageContext, StageRun, Quality, record_event,
  block_task, start_cycle, record_feedback, at_stage,
}

abbrev pub within : ℕ → Option ℕ → Bool
within most none = true
within most (some n) = leb n most

-- An event that starts a cycle names one that is at most `most`.
abbrev pub cycle_ok : ℕ → String → Fields → Bool
cycle_ok most event_type event_data =
    not (event_type =s= "autonomy.cycle.started")
    || within most (positive (event_int (field "cycle" event_data)))

abbrev pub CyclesBounded : ℕ → Store → Type 0
CyclesBounded most s = All (λ e. cycle_ok most e.event_type e.event_data ≡ true) s.events

module _ (most : ℕ) where
  -- Saving an event keeps the bound if the event does.
  pub save-Keeps :
      (task_id : ℕ) (event_type : String) (event_data : Fields)
      → cycle_ok most event_type event_data ≡ true
      → Keeps (CyclesBounded most) (record_event task_id event_type event_data)
  unfolding save_project_event
  save-Keeps task_id event_type event_data h = record {
    at = λ s b.
        All-append (λ e. cycle_ok most e.event_type e.event_data ≡ true) s.events _ b (h, tt);
  }

  pub cycle-Keeps :
      (task_id cycle : ℕ) (more : Fields)
      → cycle ≤ most
      → Keeps
          (CyclesBounded most)
          (record_event task_id "autonomy.cycle.started" (("cycle", int (pos cycle)) ∷ more))
  unfolding event_int
  cycle-Keeps task_id zero more h = save-Keeps task_id _ _ refl
  cycle-Keeps task_id (suc cycle) more h = save-Keeps task_id _ _ (ground (arith, h))

  pub start-Keeps :
      (task_id cycle : ℕ) (more : Fields)
      → cycle < most
      → Keeps (CyclesBounded most) (start_cycle task_id (cycle + 1) more)
  start-Keeps task_id cycle more h = cycle-Keeps task_id (cycle + 1) _ (omega (arith, h))

  -- A call that writes no event keeps it.
  pub quiet-Keeps :
      {A : Type 0} (m : Action A)
      → ((s : Store) → (m s).1.events ≡ s.events)
      → Keeps (CyclesBounded most) m
  quiet-Keeps m e = record {
    at = λ s h. subst (All (λ e. cycle_ok most e.event_type e.event_data ≡ true)) (sym (e s)) h;
  }

  pub update_task-Keeps : (k : ℕ) (u : TaskUpdate) → Keeps (CyclesBounded most) (update_task k u)
  unfolding update_task
  update_task-Keeps k u = quiet-Keeps (update_task k u) (λ s. ground arith)

  pub list_project_events-Keeps :
      (k : Option ℕ) (n : ℕ) → Keeps (CyclesBounded most) (list_project_events k n)
  unfolding list_project_events
  list_project_events-Keeps k n = quiet-Keeps (list_project_events k n) (λ s. refl)

  pub get_task-Keeps : (k : ℕ) → Keeps (CyclesBounded most) (get_task k)
  unfolding get_task
  get_task-Keeps k = quiet-Keeps (get_task k) (λ s. refl)

  pub snapshot-Keeps : (p : SnapshotCreate) → Keeps (CyclesBounded most) (save_autonomy_snapshot p)
  unfolding save_autonomy_snapshot
  snapshot-Keeps p =
      quiet-Keeps (save_autonomy_snapshot p)
        (λ s. refer-holds (λ t. t.events ≡ s.events) (has_task p.task_id s) _ s refl refl)

  pub block-Keeps : (k : ℕ) → Keeps (CyclesBounded most) (block_task k)
  block-Keeps k = update_task-Keeps k (to_status blocked)

  pub feedback-Keeps :
      (k : ℕ) (stage strategy outcome : Text)
      → Keeps (CyclesBounded most) (record_feedback k stage strategy outcome)
  unfolding record_feedback
  feedback-Keeps k stage strategy outcome = save-Keeps k _ _ refl

-- The services behind the loop keep the bound as well.
pub record BoundedServices (most : ℕ) (services : Services) : Type 0 where
  pub select :
      (events : List ProjectEvent) (c : StageContext)
      → Keeps (CyclesBounded most) (services.select_replan_strategy events c)
  pub attempt :
      (c : StageContext) (strategy : Text)
      → Keeps (CyclesBounded most) (services.attempt c strategy)
  pub assessment :
      (c : StageContext) (run : StageRun)
      → Keeps (CyclesBounded most) (services.record_meaningful_change_assessment c run)
  pub plan :
      (c : StageContext) (run : StageRun) (strategy : Text)
      → Keeps (CyclesBounded most) (services.persist_execute_plan c run strategy)
  pub handoff :
      (c : StageContext) (run : StageRun)
      → Keeps (CyclesBounded most) (services.persist_stage_handoff_artifacts c run)
  pub spawn : (c : StageContext) → Keeps (CyclesBounded most) (services.spawn_subtasks_once c)
  pub sibling :
      (parent_id : ℕ)
      → Keeps (CyclesBounded most) (services.recommended_improvement_state parent_id)
