-- ===== src/Autonomy/Process/Cycles/Reach.antt =====
-- The states that the loop and its operators reach, and the cycle that the loop finds in them.
use syncore.Common.{
  ℕ, ◌≤◌, ◌≡◌, refl, arith, Text, Bool, true, Option, none, some, List, [], ◌∷◌, All, All-keep,
  All-take, All-reverse,
}
use mathlib.Core.Path.{subst, sym}
use syncore.Models.{ProjectEvent, Task, TaskCreate}
use syncore.Store.{Store, bounded}
use syncore.Store.Tasks.{create_task}
use syncore.Store.Keeps.{Keeps, Keeps-bind, Keeps-then, Keeps-if, Keeps-pure}
use syncore.Store.Order.Sorted.{All-order_desc, All-order_asc}
use syncore.Store.Events.{of_task, descending}
use syncore.Store.Events.Window.{window}
use syncore.Autonomy.Gate.{current_cycle, current_cycle_from}
use syncore.Autonomy.Stage.{Services}
use syncore.Autonomy.Process.{process_task, process_pending_tasks_once, set_approval, approve_task}
use syncore.Autonomy.Process.Preferences.{Settings}
use syncore.Autonomy.Process.Cycles.{
  CyclesBounded, cycle_ok, BoundedServices, save-Keeps, quiet-Keeps, get_task-Keeps, block-Keeps,
}
use syncore.Autonomy.Process.Cycles.Loop.{process_task-Keeps, process_pending_tasks_once-Keeps}

module _ (services : Services) (settings : Settings) where
  -- The states that come of tasks being created, processed one by one or by a scan, and approved or
  -- rejected, in any order.
  pub data Reaches (s : Store) : Store → Type 0 where
    start : Reaches s s
    create : {t : Store} (task : TaskCreate) → Reaches s t → Reaches s (create_task task t).1
    process : {t : Store} (k : ℕ) → Reaches s t → Reaches s (process_task services settings k t).1
    scan :
        {t : Store} (limit : ℕ)
        → Reaches s t
        → Reaches s (process_pending_tasks_once services settings limit t).1
    approve :
        {t : Store} (k : ℕ) (verdict : Bool) (reason : Option Text)
        → Reaches s t
        → Reaches s (set_approval k verdict reason t).1

module _ (most : ℕ) where
  create_task-Keeps : (task : TaskCreate) → Keeps (CyclesBounded most) (create_task task)
  unfolding create_task
  create_task-Keeps task = quiet-Keeps most (create_task task) (λ s. refl)

  approve_task-Keeps :
      (k : ℕ) (verdict : Bool) (reason : Text) (task : Option Task)
      → Keeps (CyclesBounded most) (approve_task k verdict reason task)
  approve_task-Keeps k verdict reason none = Keeps-pure _
  approve_task-Keeps k verdict reason (some task) = Keeps-then _ _ (save-Keeps most k _ _ refl) (
      Keeps-if verdict _ _ (Keeps-pure _) (
        Keeps-then _ _ (block-Keeps most k)
          (Keeps-then _ _ (save-Keeps most k _ _ refl) (Keeps-pure _))))

  set_approval-Keeps :
      (k : ℕ) (verdict : Bool) (reason : Option Text)
      → Keeps (CyclesBounded most) (set_approval k verdict reason)
  unfolding set_approval
  set_approval-Keeps k verdict reason =
      Keeps-bind _ _ (get_task-Keeps most k) (approve_task-Keeps k verdict _)

  -- The loop of current_cycle.
  current_cycle_from-le :
      1 ≤ most
      → (events : List ProjectEvent)
      → All (λ e. cycle_ok most e.event_type e.event_data ≡ true) events
      → current_cycle_from events ≤ most
  unfolding current_cycle_from
  current_cycle_from-le one [] h = one
  current_cycle_from-le one (e ∷ es) h = ground (arith, h.0, current_cycle_from-le one es h.1)

  All-descending :
      (P : ProjectEvent → Type 0) (task_id : Option ℕ) (rows : List ProjectEvent)
      → All P rows
      → All P (descending task_id rows)
  All-descending P none rows h = All-order_desc (λ e. e.created_at) P rows h
  All-descending P (some k) rows h = All-reverse P _ (All-order_asc (λ e. e.created_at) P rows h)

  window-bounded :
      (task_id : Option ℕ) (limit : ℕ) (s : Store)
      → CyclesBounded most s
      → All (λ e. cycle_ok most e.event_type e.event_data ≡ true) (window task_id limit s)
  window-bounded task_id limit s h =
      let P = λ (e : ProjectEvent). cycle_ok most e.event_type e.event_data ≡ true in
      All-reverse P _ (
        All-take P (bounded limit 200) _
          (All-descending P task_id _ (All-keep P (of_task task_id) s.events h)))

module _ (services : Services) (settings : Settings) where
  -- No event ever starts a cycle past max_cycles: if none does in a state, and the services behind the
  -- loop start none, then none does in any state that comes of creating tasks, of process_task, of
  -- process_pending_tasks_once, and of approvals and rejections, in any order.
  pub Reaches-CyclesBounded :
      (s t : Store)
      → 1 ≤ settings.max_cycles
      → BoundedServices settings.max_cycles services
      → CyclesBounded settings.max_cycles s
      → Reaches services settings s t
      → CyclesBounded settings.max_cycles t
  Reaches-CyclesBounded s t one b h start = h
  Reaches-CyclesBounded s t one b h (create task r) =
      (create_task-Keeps settings.max_cycles task).at _ (Reaches-CyclesBounded s _ one b h r)
  Reaches-CyclesBounded s t one b h (process k r) =
      (process_task-Keeps services settings one b k).at _ (Reaches-CyclesBounded s _ one b h r)
  Reaches-CyclesBounded s t one b h (scan limit r) =
      (process_pending_tasks_once-Keeps services settings one b limit).at _
        (Reaches-CyclesBounded s _ one b h r)
  Reaches-CyclesBounded s t one b h (approve k verdict reason r) =
      (set_approval-Keeps settings.max_cycles k verdict reason).at _
        (Reaches-CyclesBounded s _ one b h r)

  -- If max_cycles is 1 or more, and the services behind the loop start no cycle past it, then in every
  -- state that the loop reaches from one without events, the cycle that process_task reads from the
  -- newest 200 events of a task is at most max_cycles.
  pub current_cycle-le_max :
      (s t : Store) (task_id : ℕ)
      → 1 ≤ settings.max_cycles
      → BoundedServices settings.max_cycles services
      → s.events ≡ []
      → Reaches services settings s t
      → current_cycle (window (some task_id) 500 t) ≤ settings.max_cycles
  unfolding current_cycle
  current_cycle-le_max s t task_id one b empty r =
      let P = λ (e : ProjectEvent). cycle_ok settings.max_cycles e.event_type e.event_data ≡ true in
      current_cycle_from-le settings.max_cycles one _ (
        All-reverse P _ (
          window-bounded settings.max_cycles (some task_id) 500 t
            (Reaches-CyclesBounded s t one b (subst (All P) (sym empty) tt) r)))
