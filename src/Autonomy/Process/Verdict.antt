-- ===== src/Autonomy/Process/Verdict.antt =====
-- What process_task makes of an approval.
use syncore.Common.{
  ℕ, ◌≡◌, refl, ap, ◌∙◌, Text, true, Option, some, List, [], ◌∷◌, last_where, last_where-append,
  first,
}
use syncore.Store.Events.Recent.{saved, before, window-save}
use syncore.Models.{ProjectEventCreate, Task, ProjectEvent, Fields}
use syncore.Store.{Store}
use syncore.Store.Tasks.{get_task, with_id}
use syncore.Store.Events.{save_project_event}
use syncore.Store.Events.Window.{IsOrdered, window}
use syncore.Autonomy.Values.{latest_event, has_type, event_bool}
use syncore.Autonomy.Gate.{approved, approval_gate_state, stage_execute}
use syncore.Autonomy.Stage.{record_event}
use syncore.Autonomy.Process.{set_approval, approval_data, strip_reason}

-- The newest verdict that the next call finds is the one that was just saved.
latest-recorded :
    (k : ℕ) (event_data : Fields) (s : Store)
    → IsOrdered s
    → (e : ProjectEvent) × (e.event_data ≡ event_data)
      × (latest_event
            (window (some k) 500 (record_event k "autonomy.approval" event_data s).1)
            "autonomy.approval"
          ≡ some e)
unfolding latest_event
latest-recorded k event_data s h =
    let event : ProjectEventCreate = record {
      task_id = k;
      event_type = "autonomy.approval";
      event_data = event_data;
    } in
    (
      saved event s,
      refl,
      ap (last_where (has_type "autonomy.approval")) (window-save event s h)
          ∙ last_where-append (has_type "autonomy.approval") (before k s) (saved event s ∷ [])
              (saved event s) refl,
    )

state-approved :
    (events : List ProjectEvent) (e : ProjectEvent) (reason : Text)
    → latest_event events "autonomy.approval" ≡ some e
    → e.event_data ≡ approval_data true reason
    → approval_gate_state events stage_execute true ≡ approved
unfolding approval_gate_state event_bool
state-approved events e reason h d = rw h (rw d refl)

-- An approval takes effect: once set_approval has approved a task that is there, the gate of the
-- execute stage is open in the events that the next process_task reads, however many verdicts and
-- other events came before, on a store whose events were saved as time went by.
pub set_approval-approved :
    (k : ℕ) (reason : Option Text) (s : Store) (task : Task)
    → IsOrdered s
    → first (with_id k) s.tasks ≡ some task
    → approval_gate_state (window (some k) 500 (set_approval k true reason s).1) stage_execute true
      ≡ approved
unfolding set_approval get_task save_project_event
set_approval-approved k reason s task h found =
    let (e, d, latest) = latest-recorded k (approval_data true (strip_reason reason)) s h in
    rw found (state-approved _ e (strip_reason reason) latest d)
