-- ===== src/Workspace/Dispatch.antt =====
-- services/orchestrator/app/services/workspace_action_dispatcher.py. The operations on the files and the
-- processes of the workspace are the functions that the dispatcher is built from; `W` is the state that
-- they change. An action is a dict of texts, where a missing key reads as "".
use syncore.Common.{
  if◌then◌else◌, Text, codes, text_eq, is_empty, strip, lower, join, take, Bool, true, false, List,
  [], ◌∷◌, ◌++◌, ◌||◌, String,
}
use syncore.Store.{Result, ok, err}
use syncore.Workspace.{Policy, Verdict, allowed, blocked, check_action_allowed}

pub record Action : Type 0 where
  pub type : Text
  pub path : Text
  pub destination : Text
  pub content : Text
  pub before : Text
  pub after : Text
  pub pattern : Text
  pub command : Text
  pub text : Text
  pub summary : Text

pub record CommandResult : Type 0 where
  pub command : Text
  pub status : Text
  pub output : Text

pub record LoopState : Type 0 where
  pub changed_files : List Text
  pub diff_refs : List Text
  pub command_results : List CommandResult
  pub read_refs : List Text
  pub read_context : List Text
  pub verification_context : List Text
  pub completed_work : List Text
  pub next_action : Text
  pub finish_summary : Text

-- A call that changes the workspace, and returns or raises.
abbrev pub Call : Type 0 → Type 0 → Type 0
Call W A = W → Result A × W

-- The functions behind the dispatcher, for one task and one root.
pub record Operations (W : Type 0) : Type 0 where
  pub write_with_diff : Text → Text → Call W Text
  pub patch_with_diff : Text → Text → Text → Call W Text
  pub delete_with_diff : Text → Call W Text
  pub move_with_diff : Text → Text → Call W Text
  pub read_file : Text → Call W Text
  pub search_code : Text → Call W (List Text)
  pub store_text_reference : Text → Text → Text → Call W Text
  pub run_workspace_command : Text → Call W CommandResult
  -- runner_default_command(runner, section, fallback)
  pub runner_default_command : Text → Text → Text

-- action_type, by the branch that it takes.
pub data ActionType : Type 0 where
  write_file create_file patch_file delete_file move_file read_file search_code : ActionType
  run_command run_test run_build run_lint run_format install_deps : ActionType
  complete_work next_action finish other : ActionType

abbrev type_names : List (String × ActionType)
type_names =
    ("write_file", write_file)
    ∷ ("create_file", create_file)
    ∷ ("patch_file", patch_file)
    ∷ ("delete_file", delete_file)
    ∷ ("move_file", move_file)
    ∷ ("read_file", read_file)
    ∷ ("search_code", search_code)
    ∷ ("run_command", run_command)
    ∷ ("run_test", run_test)
    ∷ ("run_targeted_test", run_test)
    ∷ ("run_build", run_build)
    ∷ ("run_lint", run_lint)
    ∷ ("run_format", run_format)
    ∷ ("install_deps", install_deps)
    ∷ ("complete_work", complete_work)
    ∷ ("next_action", next_action)
    ∷ ("finish", finish)
    ∷ []

abbrev named : Text → List (String × ActionType) → ActionType
named t [] = other
named t ((n, a) ∷ more) = if text_eq t (codes n) then a else named t more

unfoldable pub type_of : Text → ActionType
type_of t = named t type_names

abbrev pub is_finish : ActionType → Bool
is_finish finish = true
is_finish _ = false

-- str(action.get("type", "")).strip().lower()
abbrev pub action_type : Action → Text
action_type a = lower (strip a.type)

abbrev pub or_text : Text → Text → Text
or_text t default = if is_empty t then default else t

-- The state of the loop with the change of one file noted.
abbrev pub note_change : LoopState → List Text → Text → Text → LoopState
note_change st files ref_id work = record st {
  changed_files = st.changed_files ++ files;
  diff_refs = st.diff_refs ++ ref_id ∷ [];
  completed_work = st.completed_work ++ work ∷ [];
}

abbrev pub note_read : LoopState → Text → Text → LoopState
note_read st context ref_id = record st {
  read_context = st.read_context ++ context ∷ [];
  read_refs = st.read_refs ++ ref_id ∷ [];
}

abbrev pub note_result : LoopState → CommandResult → LoopState
note_result st result = record st { command_results = st.command_results ++ result ∷ [] }

module _ {W : Type 0} where
  -- What comes after a call, which an exception skips.
  abbrev pub and_do : {A B : Type 0} → Result A × W → (A → Call W B) → Result B × W
  and_do (ok a, w) next = next a w
  and_do (err e, w) next = (err e, w)

  abbrev pub done : LoopState → Call W LoopState
  done st w = (ok st, w)

  module _ (ops : Operations W) where
    abbrev pub change_file : Call W Text → LoopState → List Text → Text → Call W LoopState
    change_file call st files work w =
        and_do (call w) (λ ref_id w'. (ok (note_change st files ref_id work), w'))

    abbrev pub store_read : Text → Text → Text → Text → LoopState → Call W LoopState
    store_read kind content hint context st w =
        and_do (ops.store_text_reference kind content hint w)
          (λ ref_id w'. (ok (note_read st context ref_id), w'))

    -- `if read:` and `if hits:`
    abbrev pub after_read : Text → LoopState → Text → Call W LoopState
    after_read rel st content w =
        if is_empty content
        then (ok st, w)
        else store_read (codes "workspace_read") content (codes "Read snapshot for " ++ rel)
            (codes "FILE " ++ rel ++ codes "\n" ++ take 4_000 content) st w

    abbrev pub after_search : Text → LoopState → List Text → Call W LoopState
    after_search pattern st [] w = (ok st, w)
    after_search pattern st (hit ∷ hits) w =
        store_read (codes "workspace_search") (join (codes "\n") (hit ∷ hits))
          (codes "Search hits for pattern '" ++ pattern ++ codes "'")
          (codes "SEARCH " ++ pattern ++ codes "\n" ++ join (codes "\n") (take 80 (hit ∷ hits))) st
          w

    -- `if not command: continue`, then the command.
    abbrev pub run : Text → LoopState → Call W LoopState
    run command st w =
        if is_empty command
        then (ok st, w)
        else and_do (ops.run_workspace_command command w) (λ r w'. (ok (note_result st r), w'))

    -- The command asked for, or the runner's for the section.
    abbrev pub command_or : Action → String → String → Text
    command_or a kind fallback =
        strip (or_text a.command (ops.runner_default_command (codes kind) (codes fallback)))

    -- A command that is run even when it is empty.
    abbrev pub run_anyway : Text → LoopState → Call W LoopState
    run_anyway command st w =
        and_do (ops.run_workspace_command command w) (λ r w'. (ok (note_result st r), w'))

    abbrev pub unless : Bool → LoopState → Call W LoopState → Call W LoopState
    unless true st call w = (ok st, w)
    unless false st call w = call w

    -- The branch of an action that the gate let pass, but `finish`.
    abbrev pub perform : ActionType → Action → Text → LoopState → Call W LoopState
    perform write_file a rel st =
        unless (is_empty rel) st
          (change_file (ops.write_with_diff rel a.content) st (rel ∷ []) (codes "Updated " ++ rel))
    perform create_file a rel st =
        unless (is_empty rel) st
          (change_file (ops.write_with_diff rel a.content) st (rel ∷ []) (codes "Created " ++ rel))
    perform patch_file a rel st = unless (is_empty rel || is_empty a.before) st (
        change_file (ops.patch_with_diff rel a.before a.after) st (rel ∷ [])
          (codes "Patched " ++ rel))
    perform delete_file a rel st =
        unless (is_empty rel) st
          (change_file (ops.delete_with_diff rel) st (rel ∷ []) (codes "Deleted " ++ rel))
    perform move_file a rel st = unless (is_empty rel || is_empty (strip a.destination)) st (
        change_file (ops.move_with_diff rel (strip a.destination)) st
          (rel ∷ strip a.destination ∷ [])
          (codes "Moved " ++ rel ++ codes " to " ++ strip a.destination))
    perform read_file a rel st =
        unless (is_empty rel) st (λ w. and_do (ops.read_file rel w) (after_read rel st))
    perform search_code a rel st =
        unless (is_empty (strip a.pattern)) st
          (λ w. and_do (ops.search_code (strip a.pattern) w) (after_search (strip a.pattern) st))
    perform run_command a rel st = run (strip a.command) st
    perform run_test a rel st = run_anyway (command_or a "test" "pytest -q") st
    perform run_build a rel st = run_anyway (command_or a "build" "npm run build") st
    perform run_lint a rel st = run (command_or a "lint" "") st
    perform run_format a rel st = run (command_or a "format" "") st
    perform install_deps a rel st = run (command_or a "setup" "") st
    perform complete_work a rel st = done (
        if is_empty (strip a.text)
        then st
        else record st { completed_work = st.completed_work ++ strip a.text ∷ [] })
    perform next_action a rel st =
        done (if is_empty (strip a.text) then st else record st { next_action = strip a.text })
    perform finish a rel st = done st
    perform other a rel st = done st

    abbrev pub finished : Action → LoopState → LoopState
    finished a st = record st {
      finish_summary = or_text (strip a.summary) (codes "Workspace execution loop completed.");
    }

    module _ (fullmatch : Text → Text → Bool) (policy : Policy) where
      abbrev pub refused : Action → Text → LoopState → LoopState
      refused a reason st = note_result st (record {
        command = or_text a.command (action_type a);
        status = codes "blocked";
        output = or_text reason (codes "Action blocked");
      })

      -- What the gate says of the action.
      abbrev pub gate : Action → Verdict
      gate a =
          check_action_allowed fullmatch (action_type a) policy (strip a.path) (strip a.command)

      -- `return True` at a finish, and otherwise the rest of the loop.
      abbrev pub proceed :
          Bool
          → Action
          → LoopState
          → (LoopState → Call W (Bool × LoopState))
          → Call W (Bool × LoopState)
      proceed true a st rest w = (ok (true, finished a st), w)
      proceed false a st rest w =
          and_do (perform (type_of (action_type a)) a (strip a.path) st w) rest

      abbrev pub by_verdict :
          Verdict
          → Action
          → LoopState
          → (LoopState → Call W (Bool × LoopState))
          → Call W (Bool × LoopState)
      by_verdict (blocked reason) a st rest = rest (refused a reason st)
      by_verdict allowed a st rest = proceed (is_finish (type_of (action_type a))) a st rest

      unfoldable pub dispatch_actions : List Action → LoopState → Call W (Bool × LoopState)
      unfolding type_of
      dispatch_actions [] st w = (ok (false, st), w)
      dispatch_actions (a ∷ actions) st w = by_verdict (gate a) a st (dispatch_actions actions) w
