-- ===== src/Workspace/Resolved.antt =====
-- What a resolved policy keeps of the profiles and the runbook.
use syncore.Common.{
  sym, false, is_empty, text_eq, text_eq→eq, text_eq_refl, ◌≡◌, refl, arith, Text, codes, text_in,
  strip, lower, true, Option, none, some, List, [], ◌∷◌, ◌++◌, Bool-cases, inl, inr, if◌then◌else◌,
}
use mathlib.Core.Path.{subst}
use syncore.Execution.Failover.Order.{add_names-adds}
use syncore.Workspace.{Policy, string_list}
use syncore.Workspace.Packs.{PolicyPack, get_policy_pack}
use syncore.Workspace.Resolver.{
  or_list, WorkspaceMetadata, resolve_workspace_policy, profile_names, pack_profile, pack_name_of,
  add_commands, runbook_allowed,
}

text_in-left : (t : Text) (xs ys : List Text) → text_in t xs ≡ true → text_in t (xs ++ ys) ≡ true
text_in-left t [] ys h = absurd (ground (arith, h))
text_in-left t (x ∷ xs) ys h = ground (arith, h, text_in-left t xs ys)

text_in-right : (t : Text) (xs ys : List Text) → text_in t ys ≡ true → text_in t (xs ++ ys) ≡ true
text_in-right t [] ys h = h
text_in-right t (x ∷ xs) ys h = ground (arith, text_in-right t xs ys h)

add_commands-adds :
    (t : Text) (commands more : List Text)
    → text_in t more ≡ true
    → text_in t (add_commands commands more) ≡ true
add_commands-adds t commands [] h = absurd (ground (arith, h))
add_commands-adds t commands (c ∷ cs) h =
    add_names-adds t [] (commands ++ c ∷ cs) (text_in-right t commands (c ∷ cs) h)

add_commands-stays :
    (t : Text) (commands more : List Text)
    → text_in t commands ≡ true
    → text_in t (add_commands commands more) ≡ true
add_commands-stays t commands [] h = h
add_commands-stays t commands (c ∷ cs) h =
    add_names-adds t [] (commands ++ c ∷ cs) (text_in-left t commands (c ∷ cs) h)

profile_known :
    (requested : Text) (pack : Option PolicyPack)
    → text_in
        (pack_profile
          (text_in requested profile_names)
          (if text_in requested profile_names then requested else codes "balanced")
          pack)
        profile_names
      ≡ true
profile_known requested none = elim (Bool-cases (text_in requested profile_names)) [
  | inl e ↦ rw e e
  | inr e ↦ rw e refl
]
profile_known requested (some pack) = elim (Bool-cases (text_in requested profile_names)) [
  | inl e ↦ rw e e
  | inr e ↦ elim (Bool-cases (text_in (strip pack.profile) profile_names)) [
    | inl f ↦ rw (e, f) f
    | inr f ↦ rw (e, f) refl
  ]
]

-- Each item of the first list that is not blank is in the second one, without the white space around.
abbrev pub KeepsItems : List Text → List Text → Type 0
KeepsItems items kept =
    (t : Text) → text_in t items ≡ true → is_empty (strip t) ≡ false → text_in (strip t) kept ≡ true

string_list-KeepsItems : (items : List Text) → KeepsItems items (string_list items)
string_list-KeepsItems [] t h named = absurd (ground (arith, h))
string_list-KeepsItems (x ∷ items) t h named = elim (Bool-cases (text_eq x t)) [
  | inl e ↦
      subst (λ y. text_in (strip y) (string_list (x ∷ items)) ≡ true) (text_eq→eq x t e)
        (found (subst (λ y. is_empty (strip y) ≡ false) (sym (text_eq→eq x t e)) named))
  | inr e ↦ later (string_list-KeepsItems items t (ground (arith, e, h)) named)
]
  where
    found : is_empty (strip x) ≡ false → text_in (strip x) (string_list (x ∷ items)) ≡ true
    found n = rw (n, text_eq_refl (strip x)) refl

    later :
        text_in (strip t) (string_list items) ≡ true
        → text_in (strip t) (string_list (x ∷ items)) ≡ true
    later k = elim (Bool-cases (is_empty (strip x))) [
      | inl e ↦ rw e k
      | inr e ↦ rw e (ground (arith, k))
    ]

-- The same where an empty list leaves the default.
or_list-KeepsItems :
    (items default : List Text) → KeepsItems items (or_list (string_list items) default)
or_list-KeepsItems items default t h named =
    filled (string_list items) (string_list-KeepsItems items t h named)
  where
    filled :
        (ts : List Text)
        → text_in (strip t) ts ≡ true
        → text_in (strip t) (or_list ts default) ≡ true
    filled [] k = absurd (ground (arith, k))
    filled (x ∷ ts) k = k

pub record Resolved (metadata : WorkspaceMetadata) (policy : Policy) : Type 0 where
  pub known_profile : text_in policy.profile profile_names ≡ true
  -- the commands of the runbook and its probes are listed
  pub runbook_commands :
      (command : Text)
      → text_in command (runbook_allowed metadata.workspace_runbook) ≡ true
      → text_in command policy.allow_commands ≡ true
  pub probe_commands :
      (command : Text)
      → text_in command (string_list metadata.workspace_runbook.probe_commands) ≡ true
      → text_in command policy.allow_commands ≡ true
  -- what the runbook closes stays closed, each text of it stripped
  pub blocked : KeepsItems metadata.workspace_runbook.blocked_commands policy.blocked_commands
  pub forbidden : KeepsItems metadata.workspace_runbook.forbidden_paths policy.forbidden_paths
  pub held :
      KeepsItems metadata.workspace_runbook.approval_required_paths policy.approval_required_paths
  pub denied : KeepsItems metadata.deny_actions policy.denied_actions

-- Whatever profile is asked for, and whatever the metadata and the preferences say, the resolved policy
-- has one of the three profiles, lists the commands of the workspace's runbook and its probe commands
-- as allowed (a blocked prefix still refuses them), and keeps what the metadata closes: the blocked
-- commands, the forbidden paths and the paths held for an approval of the runbook, and the denied
-- actions.
pub resolve_workspace_policy-Resolved :
    (requested : Text) (metadata : WorkspaceMetadata) (preferred : Option Text)
    → Resolved metadata (resolve_workspace_policy requested metadata preferred)
unfolding resolve_workspace_policy
resolve_workspace_policy-Resolved requested metadata preferred =
    let b = metadata.workspace_runbook in
    record {
      known_profile =
          profile_known (lower (strip requested))
            (get_policy_pack (pack_name_of metadata preferred));
      runbook_commands = λ command h.
          add_commands-stays command _ (string_list b.probe_commands)
            (add_commands-adds command _ (runbook_allowed b) h);
      probe_commands = λ command h. add_commands-adds command _ (string_list b.probe_commands) h;
      blocked = string_list-KeepsItems b.blocked_commands;
      forbidden = string_list-KeepsItems b.forbidden_paths;
      held = or_list-KeepsItems b.approval_required_paths _;
      denied = or_list-KeepsItems metadata.deny_actions _;
    }
