-- ===== src/Autonomy/Process/Cycles/Gates.antt =====
-- The kick-off and the gates start no cycle past the limit.
use syncore.Common.{
  ◌≡◌, ℕ, ◌≤◌, ◌<◌, refl, leb, arith, Text, text_eq, not, ◌||◌, List, Option, none, some, ℤ,
}
use syncore.Models.{field, section, ProjectEvent, Task, Workspace, BatonPacketCreate}
use syncore.Store.{has_task}
use syncore.Store.Events.{count_project_events, save_baton_packet}
use syncore.Store.Workspaces.{get_workspace}
use syncore.Store.Keeps.{
  Keeps, Keeps-bind, Keeps-then, Keeps-if, Keeps-if_of, Keeps-pure, Keeps-raise, refer-holds,
}
use syncore.Router.{RoutingDecision}
use syncore.Autonomy.Values.{word, latest_event}
use syncore.Autonomy.Gate.{request_approval, stage_execute}
use syncore.Autonomy.Stage.{Services, StageContext, SiblingState, ready, waiting, stopped, Prefs}
use syncore.Autonomy.Process.{fail_task}
use syncore.Autonomy.Process.Gates.{
  pass, has_concrete_plan, block_without_plan, replan_without_plan, execute_plan_gate, parent_of,
  by_sibling, bind_sibling, implementation_recommendation_gate, is_implementation,
}
use syncore.Autonomy.Process.Preferences.{
  Settings, pref_word, mode_of_score, mode_of_workspace, mode_of_id, resolve_autonomy_mode,
  sdlc_of_id, should_enforce_sdlc, bootstrap, continue_or_start,
}
use syncore.Autonomy.Process.Cycles.{
  CyclesBounded, BoundedServices, save-Keeps, cycle-Keeps, start-Keeps, quiet-Keeps,
  list_project_events-Keeps, block-Keeps,
}

module _ (most : ℕ) where
  get_workspace-Keeps : (k : ℕ) → Keeps (CyclesBounded most) (get_workspace k)
  unfolding get_workspace
  get_workspace-Keeps k = quiet-Keeps most (get_workspace k) (λ s. refl)

  count_project_events-Keeps : (k : ℕ) → Keeps (CyclesBounded most) (count_project_events k)
  unfolding count_project_events
  count_project_events-Keeps k = quiet-Keeps most (count_project_events k) (λ s. refl)

  baton-Keeps : (p : BatonPacketCreate) → Keeps (CyclesBounded most) (save_baton_packet p)
  unfolding save_baton_packet
  baton-Keeps p =
      quiet-Keeps most (save_baton_packet p)
        (λ s. refer-holds (λ t. t.events ≡ s.events) (has_task p.task_id s) _ s refl refl)

  pub request_approval-Keeps :
      (k : ℕ) (e : Option ProjectEvent) → Keeps (CyclesBounded most) (request_approval k e)
  request_approval-Keeps k (some e) = Keeps-pure tt
  request_approval-Keeps k none = Keeps-then _ _ (save-Keeps most k _ _ refl) (Keeps-pure _)

  mode_of_score-Keeps :
      (requested recommended : Text) (score : Option ℤ)
      → Keeps (CyclesBounded most) (mode_of_score requested recommended score)
  mode_of_score-Keeps requested recommended none = Keeps-raise _
  mode_of_score-Keeps requested recommended (some score) = Keeps-pure _

  mode_of_workspace-Keeps :
      (requested : Text) (w : Option Workspace)
      → Keeps (CyclesBounded most) (mode_of_workspace requested w)
  mode_of_workspace-Keeps requested none = Keeps-pure _
  mode_of_workspace-Keeps requested (some w) =
      mode_of_score-Keeps requested
        (word (field "recommended_autonomy_mode" (section "workspace_readiness" w.metadata))) _

  mode_of_id-Keeps :
      (requested : Text) (w : Option ℕ) → Keeps (CyclesBounded most) (mode_of_id requested w)
  mode_of_id-Keeps requested none = Keeps-pure _
  mode_of_id-Keeps requested (some w) =
      Keeps-bind _ _ (get_workspace-Keeps w) (mode_of_workspace-Keeps requested)

  pub resolve_autonomy_mode-Keeps :
      (task : Task) (prefs : Prefs) → Keeps (CyclesBounded most) (resolve_autonomy_mode task prefs)
  unfolding resolve_autonomy_mode
  resolve_autonomy_mode-Keeps task prefs =
      mode_of_id-Keeps (pref_word "autonomy_mode" prefs) task.workspace_id

  sdlc_of_id-Keeps : (w : Option ℕ) → Keeps (CyclesBounded most) (sdlc_of_id w)
  sdlc_of_id-Keeps none = Keeps-pure _
  sdlc_of_id-Keeps (some w) = Keeps-bind _ _ (get_workspace-Keeps w) (λ v. Keeps-pure _)

  pub should_enforce_sdlc-Keeps :
      (task : Task) (prefs : Prefs) → Keeps (CyclesBounded most) (should_enforce_sdlc task prefs)
  unfolding should_enforce_sdlc
  should_enforce_sdlc-Keeps task prefs =
      Keeps-if _ _ _ (Keeps-pure _) (sdlc_of_id-Keeps task.workspace_id)

  pub fail_task-Keeps :
      (services : Services) (settings : Settings) (k : ℕ) (error : Text)
      → Keeps (CyclesBounded most) (fail_task services settings k error)
  unfolding fail_task
  fail_task-Keeps services settings k error =
      Keeps-then _ _ (block-Keeps most k)
        (Keeps-then _ _ (save-Keeps most k _ _ refl) (Keeps-pure _))

  -- The first cycle is within the limit.
  bootstrap-Keeps :
      1 ≤ most → (task : Task) (d : RoutingDecision) → Keeps (CyclesBounded most) (bootstrap task d)
  unfolding bootstrap
  bootstrap-Keeps one task d = Keeps-then _ _ (save-Keeps most task.id _ _ refl) (
      Keeps-then _ _ (save-Keeps most task.id _ _ refl) (
        Keeps-then _ _ (cycle-Keeps most task.id 1 _ one)
          (Keeps-then _ _ (baton-Keeps _) (Keeps-pure _))))

  pub continue_or_start-Keeps :
      1 ≤ most
      → (task : Task) (events : List ProjectEvent) (e : Option ProjectEvent)
      → Keeps (CyclesBounded most) (continue_or_start task events e)
  continue_or_start-Keeps one task events (some e) = Keeps-pure _
  continue_or_start-Keeps one task events none =
      Keeps-bind _ _ (count_project_events-Keeps task.id) (λ n. bootstrap-Keeps one task _)

-- With a context whose limit is the given one.
module _ (c : StageContext) where
  block_without_plan-Keeps : Keeps (CyclesBounded c.max_cycles) (block_without_plan c)
  unfolding block_without_plan
  block_without_plan-Keeps =
      Keeps-then _ _ (block-Keeps c.max_cycles c.task.id)
        (Keeps-then _ _ (save-Keeps c.max_cycles c.task.id _ _ refl) (Keeps-pure _))

  replan_without_plan-Keeps :
      c.cycle < c.max_cycles → Keeps (CyclesBounded c.max_cycles) (replan_without_plan c)
  unfolding replan_without_plan
  replan_without_plan-Keeps room =
      Keeps-then _ _ (save-Keeps c.max_cycles c.task.id _ _ refl)
        (Keeps-then _ _ (start-Keeps c.max_cycles c.task.id c.cycle _ room) (Keeps-pure _))

  pub execute_plan_gate-Keeps :
      (g : Settings) → Keeps (CyclesBounded c.max_cycles) (execute_plan_gate g c)
  unfolding execute_plan_gate
  execute_plan_gate-Keeps g =
      Keeps-if (not (text_eq c.stage stage_execute) || not g.execute_plan_enabled) _ _
        (Keeps-pure pass)
        (Keeps-bind _ _ (list_project_events-Keeps c.max_cycles _ _) (λ events.
          Keeps-if (has_concrete_plan (latest_event events "autonomy.execute_plan.created")) _ _
            (Keeps-pure pass)
            (Keeps-if_of (leb c.max_cycles c.cycle) _ _ (λ e. block_without_plan-Keeps)
              (λ e. replan_without_plan-Keeps (ground (arith, e))))))

  by_sibling-Keeps :
      (parent_id : ℕ) (state : SiblingState)
      → Keeps (CyclesBounded c.max_cycles) (by_sibling c parent_id state)
  by_sibling-Keeps parent_id ready = Keeps-pure pass
  by_sibling-Keeps parent_id (stopped note) =
      Keeps-then _ _ (block-Keeps c.max_cycles c.task.id)
        (Keeps-then _ _ (save-Keeps c.max_cycles c.task.id _ _ refl) (Keeps-pure _))
  by_sibling-Keeps parent_id (waiting note) =
      Keeps-then _ _ (save-Keeps c.max_cycles c.task.id _ _ refl) (Keeps-pure _)

  module _ (services : Services) (bounded : BoundedServices c.max_cycles services) where
    bind_sibling-Keeps :
        (parent : Option ℕ) → Keeps (CyclesBounded c.max_cycles) (bind_sibling services c parent)
    bind_sibling-Keeps none = Keeps-pure pass
    bind_sibling-Keeps (some parent) = Keeps-bind _ _ (bounded.sibling parent) (λ state.
        Keeps-then _ _ (save-Keeps c.max_cycles c.task.id "autonomy.implementation.bound" _ refl)
          (by_sibling-Keeps parent state))

    pub implementation_recommendation_gate-Keeps :
        Keeps (CyclesBounded c.max_cycles) (implementation_recommendation_gate services c)
    unfolding implementation_recommendation_gate
    implementation_recommendation_gate-Keeps =
        Keeps-if (not (text_eq c.stage stage_execute) || not (is_implementation c.task.task_type)) _
          _ (Keeps-pure pass) (bind_sibling-Keeps (parent_of c.prefs))
