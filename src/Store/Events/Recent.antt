-- ===== src/Store/Events/Recent.antt =====
-- The event that was saved last stands at the end of what list_project_events returns.
use syncore.Common.{
  ℕ, suc, ◌-◌, ◌≡◌, refl, ap, ◌∙◌, arith, some, List, [], ◌∷◌, ◌++◌, length, length-append, drop,
  drop-append, keep, keep-append, ==_iff, if◌then◌else◌,
}
use syncore.Models.{ProjectEvent, ProjectEventCreate}
use syncore.Store.{Store}
use syncore.Store.Order.{last}
use syncore.Store.Events.{save_project_event, of_task}
use syncore.Store.Events.Window.{IsOrdered, window, window-eq-last, save_project_event-IsOrdered}

-- The window ends with the event that was saved last.
last-snoc :
    (n : ℕ) (xs : List ProjectEvent) (e : ProjectEvent)
    → last (suc n) (xs ++ e ∷ []) ≡ drop (length xs - n) xs ++ e ∷ []
last-snoc n xs e =
    ap (λ k. drop k (xs ++ e ∷ [])) (omega (arith, length-append xs (e ∷ [])))
    ∙ drop-append (length xs - n) xs (e ∷ []) (omega arith)

keep-snoc :
    (k : ℕ) (xs : List ProjectEvent) (e : ProjectEvent)
    → e.task_id ≡ k
    → keep (of_task (some k)) (xs ++ e ∷ []) ≡ keep (of_task (some k)) xs ++ e ∷ []
keep-snoc k xs e h =
    keep-append (of_task (some k)) xs (e ∷ [])
    ∙ ap (λ b. keep (of_task (some k)) xs ++ (if b then e ∷ [] else [])) ((==_iff e.task_id k).1 h)

-- The row that is saved, and the rows that stay in the window with it.
abbrev pub saved : ProjectEventCreate → Store → ProjectEvent
saved event s = record {
  id = s.uuids s.tick;
  task_id = event.task_id;
  event_type = event.event_type;
  event_data = event.event_data;
  created_at = s.clock s.tick;
}

abbrev pub before : ℕ → Store → List ProjectEvent
before k s =
    drop (length (keep (of_task (some k)) s.events) - 199) (keep (of_task (some k)) s.events)

pub window-save :
    (event : ProjectEventCreate) (s : Store)
    → IsOrdered s
    → window (some event.task_id) 500 (save_project_event event s).1
      ≡ before event.task_id s ++ saved event s ∷ []
unfolding save_project_event
window-save event s h =
    window-eq-last (save_project_event event s).1 (some event.task_id) 500
      (save_project_event-IsOrdered s event h)
    ∙ ap (last 200) (keep-snoc event.task_id s.events (saved event s) refl)
    ∙ last-snoc 199 (keep (of_task (some event.task_id)) s.events) (saved event s)
