-- ===== src/Store/Events/Window.antt =====
-- What list_project_events returns: the window of the newest events, oldest first.
use syncore.Common.{
  none, some, ℕ, suc, ◌≤◌, ◌<◌, ◌≡◌, ◌∙◌, ap, Option, List, [], ◌∷◌, ◌++◌, arith, length, keep,
  take, reverse, length-reverse, length-take, All,
}
use syncore.Models.{ProjectEvent, ProjectEventCreate}
use syncore.Store.{Store, ok, bounded}
use syncore.Store.Order.{IsChronological, last}
use syncore.Store.Order.Sorted.{
  order_asc-chronological, order_desc-chronological, IsChronological-keep, IsChronological-snoc,
  reverse-take-reverse,
}
use syncore.Store.Events.{
  save_project_event, list_project_events, newest_first, descending, of_task,
}

abbrev pub created : ProjectEvent → ℕ
created e = e.created_at

-- The events stand in the order of their times, and none is younger than the clock.
pub record IsOrdered (s : Store) : Type 0 where
  pub ordered : IsChronological created s.events
  pub past : All (λ e. e.created_at < s.clock s.tick) s.events
  pub rising : (n : ℕ) → s.clock n < s.clock (suc n)

-- The events that list_project_events returns, without the store.
abbrev pub window : Option ℕ → ℕ → Store → List ProjectEvent
window task_id limit s = reverse (newest_first task_id limit s)

descending-chronological :
    (task_id : Option ℕ) (rows : List ProjectEvent)
    → IsChronological created rows
    → descending task_id rows ≡ reverse rows
descending-chronological none rows h = order_desc-chronological created rows h
descending-chronological (some k) rows h = ap reverse (order_asc-chronological created rows h)

pub window-eq-last :
    (s : Store) (task_id : Option ℕ) (limit : ℕ)
    → IsOrdered s
    → window task_id limit s ≡ last (bounded limit 200) (keep (of_task task_id) s.events)
window-eq-last s task_id limit h =
    ap (λ l. reverse (take (bounded limit 200) l))
      (descending-chronological task_id (keep (of_task task_id) s.events)
        (IsChronological-keep created (of_task task_id) s.events h.ordered))
    ∙ reverse-take-reverse (bounded limit 200) (keep (of_task task_id) s.events)

-- On a store whose events were saved as time went by, list_project_events returns the last
-- min(max(limit, 1), 200) events of the task (of all tasks, if none is given), in the order in which
-- they were saved, and leaves the store unchanged.
pub list_project_events-eq-last :
    (s : Store) (task_id : Option ℕ) (limit : ℕ)
    → IsOrdered s
    → list_project_events task_id limit s
      ≡ (ok (last (bounded limit 200) (keep (of_task task_id) s.events)), s)
unfolding list_project_events
list_project_events-eq-last s task_id limit h =
    ap (λ l. (ok l, s)) (window-eq-last s task_id limit h)

later :
    (s : Store) (es : List ProjectEvent)
    → s.clock s.tick < s.clock (suc s.tick)
    → All (λ e. e.created_at < s.clock s.tick) es
    → All (λ e. e.created_at < s.clock (suc s.tick)) es
later s [] h a = a
later s (e ∷ es) h a = (omega arith, later s es h a.1)

pub tick-IsOrdered : (s : Store) → IsOrdered s → IsOrdered (record s { tick = suc s.tick })
tick-IsOrdered s h = record {
  ordered = h.ordered;
  past = later s s.events (h.rising s.tick) h.past;
  rising = h.rising;
}

pub save_project_event-IsOrdered :
    (s : Store) (event : ProjectEventCreate)
    → IsOrdered s
    → IsOrdered (save_project_event event s).1
unfolding save_project_event
save_project_event-IsOrdered s event h = record {
  ordered = IsChronological-snoc created _ s.events h.ordered h.past;
  past = past_snoc s.events (later s s.events (h.rising s.tick) h.past);
  rising = h.rising;
}
  where
    past_snoc :
        (es : List ProjectEvent)
        → All (λ e. e.created_at < s.clock (suc s.tick)) es
        → All
            (λ e. e.created_at < s.clock (suc s.tick))
            (es
              ++ record {
                id = s.uuids s.tick;
                task_id = event.task_id;
                event_type = event.event_type;
                event_data = event.event_data;
                created_at = s.clock s.tick;
              }
                ∷ [])
    past_snoc [] a = (h.rising s.tick, tt)
    past_snoc (e ∷ es) a = (a.0, past_snoc es a.1)

-- However many events a caller asks for, it gets 200 at most.
pub window_bound :
    (s : Store) (task_id : Option ℕ) (limit : ℕ) → length (window task_id limit s) ≤ 200
window_bound s task_id limit = omega (
  arith,
  length-reverse (newest_first task_id limit s),
  length-take (bounded limit 200) (descending task_id (keep (of_task task_id) s.events)),
)
