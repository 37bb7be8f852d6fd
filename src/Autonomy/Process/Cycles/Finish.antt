-- ===== src/Autonomy/Process/Cycles/Finish.antt =====
-- The finalizer and the gate of the children start no cycle.
use syncore.Common.{length, ltb, leb, ℕ, refl, Text, List, [], ◌∷◌, Option, none, some}
use syncore.Models.{ProjectEvent, Task, TaskStatus, completed}
use syncore.Store.{◌>>=◌}
use syncore.Store.Tasks.{get_task}
use syncore.Store.Events.{get_latest_baton_packet}
use syncore.Store.Keeps.{Keeps, Keeps-bind, Keeps-then, Keeps-if, Keeps-pure}
use syncore.Autonomy.Values.{latest_event}
use syncore.Autonomy.Stage.{Services}
use syncore.Autonomy.Uuid.{parse_uuid}
use syncore.Autonomy.Finalizer.{
  is_none, no_children, child_gate_of, mark_status, Children, count_child, count_children,
  gate_of_children, child_gate_status, mark_completed, note_completion, generate_digest_event,
  finalize_task,
}
use syncore.Autonomy.Process.Cycles.{
  CyclesBounded, save-Keeps, quiet-Keeps, list_project_events-Keeps, get_task-Keeps,
  update_task-Keeps,
}

module _ (most : ℕ) where
  count_children-Keeps :
      (ids : List Text) (c : Children) → Keeps (CyclesBounded most) (count_children ids c)
  unfolding count_children
  count_children-Keeps [] c = Keeps-pure c
  count_children-Keeps (raw ∷ rest) c = go (parse_uuid raw) (count_children-Keeps rest)
    where
      go :
          (k : Option ℕ)
          → ((d : Children) → Keeps (CyclesBounded most) (count_children rest d))
          → Keeps (CyclesBounded most) (elim k [
            | none ↦ count_children rest c
            | some i ↦ do child ← get_task i; count_children rest (count_child child c)
          ])
      go none ih = ih c
      go (some k) ih = Keeps-bind _ _ (get_task-Keeps most k) (λ child. ih (count_child child c))

  gate_of_children-Keeps :
      (k : ℕ) (events : List ProjectEvent) (n : ℕ) (c : Children)
      → Keeps (CyclesBounded most) (gate_of_children k events n c)
  unfolding gate_of_children
  gate_of_children-Keeps k events n c = Keeps-if (ltb 0 (length c.blocked_ids)) _ _ (Keeps-pure _) (
      Keeps-if (leb n c.completed_count) _ _
        (Keeps-if (is_none (latest_event events "autonomy.children.completed")) _ _
          (Keeps-then _ _ (save-Keeps most k _ _ refl) (Keeps-pure _)) (Keeps-pure _))
        (Keeps-pure _))

  child_gate_of-Keeps :
      (k : ℕ) (events : List ProjectEvent) (ids : List Text)
      → Keeps (CyclesBounded most) (child_gate_of k events ids)
  child_gate_of-Keeps k events [] = Keeps-pure no_children
  child_gate_of-Keeps k events (x ∷ xs) =
      Keeps-bind _ _ (count_children-Keeps (x ∷ xs) _) (gate_of_children-Keeps k events _)

  pub child_gate_status-Keeps :
      (k : ℕ) (events : List ProjectEvent) → Keeps (CyclesBounded most) (child_gate_status k events)
  unfolding child_gate_status
  child_gate_status-Keeps k events = child_gate_of-Keeps k events _

  mark_status-Keeps :
      (k : ℕ) (status : TaskStatus) → Keeps (CyclesBounded most) (mark_status k status)
  mark_status-Keeps k completed = Keeps-pure tt
  mark_status-Keeps k _ = Keeps-then _ _ (update_task-Keeps most k _) (Keeps-pure _)

  mark_completed-Keeps :
      (k : ℕ) (task : Option Task) → Keeps (CyclesBounded most) (mark_completed k task)
  mark_completed-Keeps k none = Keeps-pure tt
  mark_completed-Keeps k (some task) = mark_status-Keeps k task.status

  note_completion-Keeps :
      (k : ℕ) (events : List ProjectEvent) (e : Option ProjectEvent)
      → Keeps (CyclesBounded most) (note_completion k events e)
  note_completion-Keeps k events (some e) = Keeps-pure _
  note_completion-Keeps k events none = Keeps-then _ _ (save-Keeps most k _ _ refl) (Keeps-pure _)

  generate_digest_event-Keeps :
      (services : Services) (k : ℕ) → Keeps (CyclesBounded most) (generate_digest_event services k)
  unfolding generate_digest_event get_latest_baton_packet
  generate_digest_event-Keeps services k =
      Keeps-bind _ _ (list_project_events-Keeps most _ _) (λ events.
        Keeps-bind _ _ (quiet-Keeps most (get_latest_baton_packet k) (λ s. refl)) (λ baton.
          Keeps-then _ _
            (save-Keeps most k "analyst.digest.generated" (services.digest events baton) refl)
            (Keeps-pure _)))

  pub finalize_task-Keeps :
      (services : Services) (k : ℕ) → Keeps (CyclesBounded most) (finalize_task services k)
  unfolding finalize_task
  finalize_task-Keeps services k = Keeps-bind _ _ (get_task-Keeps most k) (λ task.
      Keeps-then _ _ (mark_completed-Keeps k task) (
        Keeps-bind _ _ (list_project_events-Keeps most _ _) (λ events.
          Keeps-then _ _ (note_completion-Keeps k events _)
            (generate_digest_event-Keeps services k))))
