-- ===== src/Store/Events/Tests.antt =====
-- Events on small stores.
use syncore.Common.{◌≡◌, arith, codes, some, [], ◌∷◌}
use syncore.Models.{ProjectEvent, ProjectEventCreate, text}
use syncore.Store.{Store, ok}
use syncore.Store.Events.{list_project_events}
use syncore.Store.Events.Window.{IsOrdered, list_project_events-eq-last}
use syncore.Samples.{event, empty_store}

abbrev first_event : ProjectEvent
first_event = event 3 7 "autonomy.started" []

abbrev second_event : ProjectEvent
second_event = event 4 8 "run.failed" []

abbrev third_event : ProjectEvent
third_event = event 5 7 "autonomy.completed" []

abbrev three_events : Store
three_events = record empty_store { events = first_event ∷ second_event ∷ third_event ∷ [] }

three_events-IsOrdered : IsOrdered three_events
three_events-IsOrdered = record {
  ordered = ((omega arith, (omega arith, tt)), ((omega arith, tt), (tt, tt)));
  past = (omega arith, (omega arith, (omega arith, tt)));
  rising = λ n. omega arith;
}

abbrev failure : ProjectEventCreate
failure = record {
  task_id = 7;
  event_type = "run.failed";
  event_data = ("error", text (codes "x")) ∷ [];
}

list_project_events-eq-last_example :
    list_project_events (some 7) 1 three_events ≡ (ok (third_event ∷ []), three_events)
list_project_events-eq-last_example =
    list_project_events-eq-last three_events (some 7) 1 three_events-IsOrdered
