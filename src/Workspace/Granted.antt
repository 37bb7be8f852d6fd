-- ===== src/Workspace/Granted.antt =====
-- What an action that passes the gate may touch.
use syncore.Common.{
  ◌≡◌, ◌≢◌, refl, arith, sym, Text, codes, text_eq, text_eq_refl, text_in, starts_with, Bool, true,
  false, List, [], ◌∷◌, ◌++◌, any, All,
}
use mathlib.Core.Path.{subst}
use syncore.Workspace.{
  Policy, Verdict, allowed, refuse_if, check_action_allowed, command_allowed, is_under, under_any,
  rstrip_slash, has_text, has_items, string_list, normal_names, is_denied, is_unlisted, is_in_roots,
  is_forbidden, is_outside, needs_approval, is_refused,
}

-- The path is neither the root nor below it.
pub record IsOutside (path root : Text) : Type 0 where
  pub differs : path ≢ root
  pub not_below : (rest : Text) → path ≢ rstrip_slash root ++ codes "/" ++ rest

-- The path is one of the roots or below one.
abbrev pub IsInside : Text → List Text → Type 0
IsInside path roots = under_any path roots ≡ true

pub record Granted (fullmatch : Text → Text → Bool) (action_type : Text) (policy : Policy)
    (path command : Text) : Type 0 where
  pub not_denied : text_in action_type (normal_names policy.denied_actions) ≡ false
  pub listed :
      has_items (normal_names policy.allowed_actions) ≡ true
      → text_in action_type (normal_names policy.allowed_actions) ≡ true
  pub not_forbidden :
      has_text path ≡ true → All (IsOutside path) (string_list policy.forbidden_paths)
  pub inside :
      has_text path ≡ true
      → has_items (string_list policy.allowed_paths) ≡ true
      → IsInside path (string_list policy.allowed_paths)
  pub needs_no_approval :
      has_text path ≡ true → All (IsOutside path) (string_list policy.approval_required_paths)
  pub not_blocked :
      has_text command ≡ true
      → All (λ prefix. (rest : Text) → command ≢ prefix ++ rest) policy.blocked_commands
  pub vouched : has_text command ≡ true → command_allowed fullmatch command policy ≡ true

starts_with-append : (p rest : Text) → starts_with (p ++ rest) p ≡ true
starts_with-append [] rest = starts_with-nil rest
  where
    starts_with-nil : (t : Text) → starts_with t [] ≡ true
    starts_with-nil [] = refl
    starts_with-nil (c ∷ t) = refl
starts_with-append (c ∷ p) rest = ground (arith, starts_with-append p rest)

no_prefix : (s p : Text) → starts_with s p ≡ false → (rest : Text) → s ≢ p ++ rest
no_prefix s p h rest e =
    let yes : starts_with s p ≡ true =
      subst (λ t. starts_with t p ≡ true) (sym e) (starts_with-append p rest) in
    ground (arith, h, yes)

is_under-IsOutside : (path root : Text) → is_under path root ≡ false → IsOutside path root
is_under-IsOutside path root h = record {
  differs = λ e.
      let yes : text_eq path root ≡ true =
        subst (λ t. text_eq path t ≡ true) e (text_eq_refl path) in
      ground (arith, h, yes);
  not_below = λ rest e. no_prefix path (rstrip_slash root ++ codes "/") (ground (arith, h)) rest e;
}

pub under_any-IsOutside :
    (path : Text) (roots : List Text) → under_any path roots ≡ false → All (IsOutside path) roots
under_any-IsOutside path [] h = tt
under_any-IsOutside path (root ∷ roots) h = (
  is_under-IsOutside path root (ground (arith, h)),
  under_any-IsOutside path roots (ground (arith, h)),
)

no_prefixes :
    (s : Text) (ps : List Text)
    → any (starts_with s) ps ≡ false
    → All (λ p. (rest : Text) → s ≢ p ++ rest) ps
no_prefixes s [] h = tt
no_prefixes s (p ∷ ps) h = (no_prefix s p (ground (arith, h)), no_prefixes s ps (ground (arith, h)))

command_allowed-not_blocked :
    (fullmatch : Text → Text → Bool) (command : Text) (policy : Policy)
    → command_allowed fullmatch command policy ≡ true
    → any (starts_with command) policy.blocked_commands ≡ false
unfolding command_allowed
command_allowed-not_blocked fullmatch command policy h = ground (arith, h)

pub refuse_if-allowed :
    (test : Bool) (reason : Text) (rest : Verdict)
    → refuse_if test reason rest ≡ allowed
    → (test ≡ false) × (rest ≡ allowed)
refuse_if-allowed true reason rest h = absurd (ground (arith, h))
refuse_if-allowed false reason rest h = (refl, h)

-- No item, or none above the path.
is_in_roots-IsOutside :
    (path : Text) (roots : List Text)
    → is_in_roots path roots ≡ false
    → has_text path ≡ true
    → All (IsOutside path) roots
is_in_roots-IsOutside path [] h named = tt
is_in_roots-IsOutside path (root ∷ roots) h named =
    under_any-IsOutside path (root ∷ roots) (ground (arith, h, named))

-- An action that check_action_allowed lets pass is not denied, is listed where the policy lists
-- actions, has a path that is neither a forbidden path nor below one, is inside the allowed roots where
-- there are some, and needs no approval, and has a command that begins with no blocked prefix and is
-- allowed.
pub check_action_allowed-Granted :
    (fullmatch : Text → Text → Bool) (action_type : Text) (policy : Policy) (path command : Text)
    → check_action_allowed fullmatch action_type policy path command ≡ allowed
    → Granted fullmatch action_type policy path command
unfolding check_action_allowed
check_action_allowed-Granted fullmatch action_type policy path command h =
    let a = refuse_if-allowed (is_denied action_type policy) _ _ h in
    let b = refuse_if-allowed (is_unlisted action_type policy) _ _ a.1 in
    let c = refuse_if-allowed (is_forbidden path policy) _ _ b.1 in
    let d = refuse_if-allowed (is_outside path policy) _ _ c.1 in
    let e = refuse_if-allowed (needs_approval path policy) _ _ d.1 in
    let f = refuse_if-allowed (is_refused fullmatch command policy) _ _ e.1 in
    let vouched : has_text command ≡ true → command_allowed fullmatch command policy ≡ true =
      λ named. ground (arith, f.0, named) in
    record {
      not_denied = a.0;
      listed = λ some_listed. ground (arith, b.0, some_listed);
      not_forbidden = is_in_roots-IsOutside path (string_list policy.forbidden_paths) c.0;
      inside = λ named roots. ground (arith, d.0, named, roots);
      needs_no_approval =
          is_in_roots-IsOutside path (string_list policy.approval_required_paths) e.0;
      not_blocked = λ named.
          no_prefixes command policy.blocked_commands
            (command_allowed-not_blocked fullmatch command policy (vouched named));
      vouched = vouched;
    }
