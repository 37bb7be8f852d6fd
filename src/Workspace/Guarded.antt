-- ===== src/Workspace/Guarded.antt =====
-- The dispatcher touches no file that the policy closes, but for the destination of a move.
use syncore.Common.{
  ◌≡◌, refl, ap, ◌∙◌, Text, codes, strip, Bool, true, false, not, ◌&&◌, List, [], ◌∷◌,
}
use syncore.Store.{Result, ok, err, os_error}
use syncore.Workspace.{
  Policy, Verdict, allowed, blocked, check_action_allowed, is_forbidden, is_outside, needs_approval,
  is_denied, is_unlisted,
}
use syncore.Workspace.Granted.{refuse_if-allowed}
use syncore.Workspace.Dispatch.{
  Action, LoopState, Call, Operations, ActionType, write_file, create_file, patch_file, delete_file,
  move_file, read_file, search_code, run_command, run_test, run_build, run_lint, run_format,
  install_deps, complete_work, next_action, finish, other, type_of, action_type, and_do, perform,
  is_finish, proceed, by_verdict, gate, refused, dispatch_actions,
}

-- The policy leaves the path open.
unfoldable pub is_open : Policy → Text → Bool
is_open policy path =
    not (is_forbidden path policy)
    && not (is_outside path policy)
    && not (needs_approval path policy)

abbrev guard : {W A : Type 0} → Bool → Call W A → Call W A
guard true call w = call w
guard false call w = (err (os_error (codes "closed by policy")), w)

-- The same operations, which refuse every path that the policy closes; of a move they look at the
-- source only.
abbrev pub guarded : {W : Type 0} → Policy → Operations W → Operations W
guarded policy ops = record ops {
  write_with_diff = λ path content. guard (is_open policy path) (ops.write_with_diff path content);
  patch_with_diff =
      λ path before after. guard (is_open policy path) (ops.patch_with_diff path before after);
  delete_with_diff = λ path. guard (is_open policy path) (ops.delete_with_diff path);
  move_with_diff =
      λ path destination. guard (is_open policy path) (ops.move_with_diff path destination);
  read_file = λ path. guard (is_open policy path) (ops.read_file path);
}

module _ {W : Type 0} (ops : Operations W) (fullmatch : Text → Text → Bool) (policy : Policy) where
  perform-guarded :
      (kind : ActionType) (a : Action) (rel : Text) (st : LoopState) (w : W)
      → is_open policy rel ≡ true
      → perform ops kind a rel st w ≡ perform (guarded policy ops) kind a rel st w
  perform-guarded write_file a rel st w h = rw h refl
  perform-guarded create_file a rel st w h = rw h refl
  perform-guarded patch_file a rel st w h = rw h refl
  perform-guarded delete_file a rel st w h = rw h refl
  perform-guarded move_file a rel st w h = rw h refl
  perform-guarded read_file a rel st w h = rw h refl
  perform-guarded search_code a rel st w h = refl
  perform-guarded run_command a rel st w h = refl
  perform-guarded run_test a rel st w h = refl
  perform-guarded run_build a rel st w h = refl
  perform-guarded run_lint a rel st w h = refl
  perform-guarded run_format a rel st w h = refl
  perform-guarded install_deps a rel st w h = refl
  perform-guarded complete_work a rel st w h = refl
  perform-guarded next_action a rel st w h = refl
  perform-guarded finish a rel st w h = refl
  perform-guarded other a rel st w h = refl

  -- What the gate lets pass is open.
  gate-is_open :
      (a : Action) → gate ops fullmatch policy a ≡ allowed → is_open policy (strip a.path) ≡ true
  unfolding check_action_allowed is_open
  gate-is_open a h =
      let denied = refuse_if-allowed (is_denied (action_type a) policy) _ _ h in
      let unlisted = refuse_if-allowed (is_unlisted (action_type a) policy) _ _ denied.1 in
      let forbidden = refuse_if-allowed (is_forbidden (strip a.path) policy) _ _ unlisted.1 in
      let outside = refuse_if-allowed (is_outside (strip a.path) policy) _ _ forbidden.1 in
      let approval = refuse_if-allowed (needs_approval (strip a.path) policy) _ _ outside.1 in
      rw (forbidden.0, outside.0, approval.0) refl

  and_do-same :
      {A B : Type 0} (out : Result A × W) (f g : A → Call W B)
      → ((x : A) (w : W) → f x w ≡ g x w)
      → and_do out f ≡ and_do out g
  and_do-same (ok x, w) f g h = h x w
  and_do-same (err e, w) f g h = refl

  module _ (a : Action) (st : LoopState) (rest rest' : LoopState → Call W (Bool × LoopState))
      (same : (st : LoopState) (w : W) → rest st w ≡ rest' st w) where
    proceed-guarded :
        (ends : Bool) (w : W)
        → is_open policy (strip a.path) ≡ true
        → proceed ops fullmatch policy ends a st rest w
          ≡ proceed (guarded policy ops) fullmatch policy ends a st rest' w
    proceed-guarded true w h = refl
    proceed-guarded false w h =
        ap (λ out. and_do out rest)
          (perform-guarded (type_of (action_type a)) a (strip a.path) st w h)
        ∙ and_do-same (perform (guarded policy ops) (type_of (action_type a)) a (strip a.path) st w)
            rest rest' same

    by_verdict-guarded :
        (v : Verdict) (w : W)
        → gate ops fullmatch policy a ≡ v
        → by_verdict ops fullmatch policy v a st rest w
          ≡ by_verdict (guarded policy ops) fullmatch policy v a st rest' w
    by_verdict-guarded allowed w h =
        proceed-guarded (is_finish (type_of (action_type a))) w (gate-is_open a h)
    by_verdict-guarded (blocked reason) w h = same (refused ops fullmatch policy a reason st) w

  -- A run of the dispatcher does the same over operations that refuse to write, patch, delete, move or
  -- read a path that the policy forbids, leaves outside its roots or keeps for an approval: none of
  -- these is ever asked for. The destination of a move is not among them.
  pub dispatch_actions-guarded :
      (actions : List Action) (st : LoopState) (w : W)
      → dispatch_actions ops fullmatch policy actions st w
        ≡ dispatch_actions (guarded policy ops) fullmatch policy actions st w
  unfolding dispatch_actions
  dispatch_actions-guarded [] st w = refl
  dispatch_actions-guarded (a ∷ actions) st w =
      by_verdict-guarded a st (dispatch_actions ops fullmatch policy actions)
        (dispatch_actions (guarded policy ops) fullmatch policy actions)
        (dispatch_actions-guarded actions) (gate ops fullmatch policy a) w refl
