-- ===== src/Store/Events.antt =====
-- The event and baton rows: save_project_event, list_project_events, count_project_events,
-- save_baton_packet, get_baton_packet, get_latest_baton_packet, list_baton_packets. What goes
-- through json.dumps and json.loads comes back unchanged.
pub mod Window
pub mod Recent
pub mod Tests
use syncore.Common.{
  ℕ, suc, ◌==◌, Bool, true, Option, none, some, List, [], ◌∷◌, ◌++◌, keep, take, reverse, first,
  count_if,
}
use syncore.Models.{ProjectEvent, ProjectEventCreate, BatonPacket, BatonPacketCreate}
use syncore.Store.{has_task, refer, Store, Action, Result, ok, bounded}
use syncore.Store.Order.{order_asc, order_desc}

unfoldable pub save_project_event : ProjectEventCreate → Action ProjectEvent
save_project_event event s =
    let row : ProjectEvent = record {
      id = s.uuids s.tick;
      task_id = event.task_id;
      event_type = event.event_type;
      event_data = event.event_data;
      created_at = s.clock s.tick;
    } in
    (ok row, record s { events = s.events ++ row ∷ []; tick = suc s.tick })

-- WHERE task_id = ?, or no condition
abbrev pub of_task : Option ℕ → ProjectEvent → Bool
of_task none e = true
of_task (some k) e = e.task_id == k

-- ORDER BY created_at DESC: the rows of a task come of the index (task_id, created_at ASC), which is
-- read backwards, also among rows of one time; the rows of all tasks are sorted.
abbrev pub descending : Option ℕ → List ProjectEvent → List ProjectEvent
descending none rows = order_desc (λ e. e.created_at) rows
descending (some task_id) rows = reverse (order_asc (λ e. e.created_at) rows)

abbrev pub newest_first : Option ℕ → ℕ → Store → List ProjectEvent
newest_first task_id limit s =
    take (bounded limit 200) (descending task_id (keep (of_task task_id) s.events))

-- The newest rows, turned round.
unfoldable pub list_project_events : Option ℕ → ℕ → Action (List ProjectEvent)
list_project_events task_id limit s = (ok (reverse (newest_first task_id limit s)), s)

unfoldable pub count_project_events : ℕ → Action ℕ
count_project_events task_id s = (ok (count_if (of_task (some task_id)) s.events), s)

unfoldable pub save_baton_packet : BatonPacketCreate → Action BatonPacket
save_baton_packet packet s =
    let row : BatonPacket = record {
      id = s.uuids s.tick;
      task_id = packet.task_id;
      from_agent = packet.from_agent;
      to_agent = packet.to_agent;
      summary = packet.summary;
      payload = packet.payload;
      created_at = s.clock s.tick;
    } in
    refer (has_task packet.task_id s)
      (ok row, record s { batons = s.batons ++ row ∷ []; tick = suc s.tick }) s

unfoldable pub get_baton_packet : ℕ → Action (Option BatonPacket)
get_baton_packet packet_id s = (ok (first (λ b. b.id == packet_id) s.batons), s)

unfoldable pub list_baton_packets : ℕ → ℕ → Action (List BatonPacket)
list_baton_packets task_id limit s = (
  ok (
      take (bounded limit 200)
        (order_desc (λ b. b.created_at) (keep (λ b. b.task_id == task_id) s.batons))),
  s,
)

unfoldable pub get_latest_baton_packet : ℕ → Action (Option BatonPacket)
get_latest_baton_packet task_id s = (
  ok (
      first (λ b. true)
        (take 1 (order_desc (λ b. b.created_at) (keep (λ b. b.task_id == task_id) s.batons)))),
  s,
)
