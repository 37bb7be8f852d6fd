-- ===== src/Autonomy/Process/Approval.antt =====
-- What the approval gate keeps the loop from doing.
use syncore.Common.{ℕ, ◌≡◌, refl, arith, Text, text_eq, Bool, true, false, Option, none, some, List}
use syncore.Models.{ProjectEvent, field}
use syncore.Autonomy.Values.{latest_event, event_bool}
use syncore.Autonomy.Gate.{
  ApprovalState, not_required, awaiting, approved, rejected, approval_gate_state, approval_state,
  stage_execute,
}
use syncore.Autonomy.Stage.{Services, StageContext}
use syncore.Autonomy.Process.{approval_gated, by_approval, reject_stage}
use syncore.Autonomy.Process.Preferences.{Settings}

-- The newest verdict on the task, if there is one, approves it.
abbrev pub is_approved : Option ProjectEvent → Bool
is_approved none = false
is_approved (some e) = event_bool (field "approved" e.event_data)

-- The gate lets through only what is approved.
abbrev holds_back : ApprovalState → Bool
holds_back awaiting = true
holds_back rejected = true
holds_back _ = false

held_back : (e : Option ProjectEvent) → is_approved e ≡ false → holds_back (approval_state e) ≡ true
held_back none h = refl
held_back (some e) h = rw h refl

held_gate :
    (events : List ProjectEvent) (stage : Text) (requires_approval : Bool)
    → requires_approval ≡ true
    → text_eq stage stage_execute ≡ true
    → is_approved (latest_event events "autonomy.approval") ≡ false
    → holds_back (approval_gate_state events stage requires_approval) ≡ true
unfolding approval_gate_state
held_gate events stage requires_approval required e h =
    rw (required, e) (held_back (latest_event events "autonomy.approval") h)

module _ (services services' : Services) (settings : Settings) (c : StageContext)
    (events : List ProjectEvent) (now : ℕ) where
  by_approval-same :
      (state : ApprovalState)
      → holds_back state ≡ true
      → by_approval services settings c events now state
        ≡ by_approval services' settings c events now state
  unfolding reject_stage
  by_approval-same awaiting h = refl
  by_approval-same rejected h = refl
  by_approval-same not_required h = absurd (ground arith)
  by_approval-same approved h = absurd (ground arith)

  -- Without an approval nothing of the execute stage runs: for a task that needs one, whose newest
  -- verdict is not there or rejects it, the call does the same whatever the services behind the loop
  -- do, so it uses none of them.
  pub approval_gated-uses_no_service :
      c.requires_approval ≡ true
      → text_eq c.stage stage_execute ≡ true
      → is_approved (latest_event events "autonomy.approval") ≡ false
      → approval_gated services settings c events now
        ≡ approval_gated services' settings c events now
  unfolding approval_gated
  approval_gated-uses_no_service required at_execute h =
      by_approval-same (approval_gate_state events c.stage c.requires_approval)
        (held_gate events c.stage c.requires_approval required at_execute h)
