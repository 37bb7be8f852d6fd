-- ===== src/Store/Workspaces.antt =====
-- The workspace and autonomy snapshot rows.
use syncore.Common.{
  codes, ℕ, suc, min, max, ltb, ◌==◌, if◌then◌else◌, Text, Bool, ◌||◌, Option, none, some, List, [],
  ◌∷◌, ◌++◌, keep, take, first, update_where, length, String, not, any, map, true,
}
use syncore.Models.{
  ResearchFinding, Notification, Workspace, WorkspaceCreate, WorkspaceUpdate, Fields,
}
use syncore.Store.{Store, has_task, refer, Action, ok, err, value_error, bounded, Snapshot}
use syncore.Store.Order.{order_desc}
use syncore.Store.Tasks.{is_some, or_else}

unfoldable pub create_workspace : WorkspaceCreate → Action Workspace
create_workspace payload s =
    let row : Workspace = record {
      id = s.uuids s.tick;
      name = payload.name;
      root_path = payload.root_path;
      repo_url = payload.repo_url;
      branch = payload.branch;
      runtime_mode = payload.runtime_mode;
      metadata = payload.metadata;
      created_at = s.clock s.tick;
      updated_at = s.clock s.tick;
    } in
    (ok row, record s { workspaces = s.workspaces ++ row ∷ []; tick = suc s.tick })

abbrev pub workspace_is : ℕ → Workspace → Bool
workspace_is k w = w.id == k

unfoldable pub get_workspace : ℕ → Action (Option Workspace)
get_workspace workspace_id s = (ok (first (workspace_is workspace_id) s.workspaces), s)

unfoldable pub list_workspaces : ℕ → Action (List Workspace)
list_workspaces limit s =
    (ok (take (bounded limit 500) (order_desc (λ w. w.created_at) s.workspaces)), s)

abbrev or_old : Option Text → Option Text → Option Text
or_old none old = old
or_old (some x) old = some x

abbrev assign_workspace : WorkspaceUpdate → ℕ → Workspace → Workspace
assign_workspace u now w = record w {
  name = or_else u.name w.name;
  root_path = or_else u.root_path w.root_path;
  repo_url = or_old u.repo_url w.repo_url;
  branch = or_old u.branch w.branch;
  runtime_mode = or_else u.runtime_mode w.runtime_mode;
  metadata = or_else u.metadata w.metadata;
  updated_at = now;
}

unfoldable pub update_workspace : ℕ → WorkspaceUpdate → Action (Option Workspace)
update_workspace workspace_id u s =
    if is_some u.name
      || is_some u.root_path
      || is_some u.repo_url
      || is_some u.branch
      || is_some u.runtime_mode
      || is_some u.metadata
    then (let rows =
          update_where (workspace_is workspace_id) (assign_workspace u (s.clock s.tick))
            s.workspaces in
        (
          ok (first (workspace_is workspace_id) rows),
          record s { workspaces = rows; tick = suc s.tick },
        ))
    else (err (value_error (codes "At least one field must be provided for workspace update")), s)

abbrev pub has_optional_workspace : Option ℕ → Store → Bool
has_optional_workspace none s = true
has_optional_workspace (some workspace_id) s = any (workspace_is workspace_id) s.workspaces

-- ON DELETE SET NULL
abbrev pub without_workspace : ℕ → Option ℕ → Option ℕ
without_workspace workspace_id none = none
without_workspace workspace_id (some k) = if k == workspace_id then none else some k

-- `rowcount > 0`; the findings and the notifications of the workspace lose their reference to it.
unfoldable pub delete_workspace : ℕ → Action Bool
delete_workspace workspace_id s =
    let rows = keep (λ w. not (workspace_is workspace_id w)) s.workspaces in
    (
      ok (ltb (length rows) (length s.workspaces)),
      record s {
        workspaces = rows;
        findings =
            map
              (λ (f : ResearchFinding). record f {
                workspace_id = without_workspace workspace_id f.workspace_id;
              })
              s.findings;
        notifications =
            map
              (λ (n : Notification). record n {
                related_workspace_id = without_workspace workspace_id n.related_workspace_id;
              })
              s.notifications;
      },
    )

pub record SnapshotCreate : Type 0 where
  pub task_id : ℕ
  pub cycle : ℕ
  pub stage : Text
  pub state : String
  pub strategy : Text
  pub quality_score : ℕ
  pub details : Fields

unfoldable pub save_autonomy_snapshot : SnapshotCreate → Action Snapshot
save_autonomy_snapshot n s =
    let row : Snapshot = record {
      snapshot_id = s.uuids s.tick;
      task_id = n.task_id;
      cycle = max n.cycle 1;
      stage = n.stage;
      state = n.state;
      strategy = n.strategy;
      quality_score = max (min n.quality_score 100) 0;
      details = n.details;
      created_at = s.clock s.tick;
    } in
    refer (has_task n.task_id s)
      (ok row, record s { snapshots = s.snapshots ++ row ∷ []; tick = suc s.tick }) s

unfoldable pub list_autonomy_snapshots : ℕ → ℕ → Action (List Snapshot)
list_autonomy_snapshots task_id limit s = (
  ok (
      take (bounded limit 500)
        (order_desc (λ n. n.created_at) (keep (λ n. n.task_id == task_id) s.snapshots))),
  s,
)
