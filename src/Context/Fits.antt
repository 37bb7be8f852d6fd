-- ===== src/Context/Fits.antt =====
-- services/orchestrator/app/context/optimizer.py: the critical sections are kept, and the others fit
-- the budget.
use syncore.Common.{
  Bool, sym, ◌∙◌, ℕ, ◌+◌, ◌-◌, ◌≤◌, ◌≡◌, refl, arith, leb, Text, codes, false, not, ◌&&◌, Option,
  none, List, [], ◌∷◌, ◌++◌, map, keep, if◌then◌else◌, Bool-cases, inl, inr, is_empty,
}
use syncore.Store.{has_task, Store, Action, Error, and_then, pure, Reference}
use syncore.Store.Returns.{Ends, Ends-and_then, if-Ends}
use syncore.Context.{Section, RawBundle, ContextPolicy}
use syncore.Context.Transform.{transform_section}
use syncore.Context.Optimizer.{
  Collected, optimize, collect, place, place_reduced, reduce_noncritical_section, section_tokens,
  with_section, without_section, keep_full,
}
use syncore.Context.Sections.{critical_form, Refused, Transformed, Round, transform_section-Round}

module _ (sha1 : Text → Text) (shorten : Text → ℕ → Text) (invalid : Reference → Error)
    (policy : ContextPolicy) where
  -- The tokens of the sections that are not critical.
  abbrev pub noncritical_tokens : List Section → ℕ
  noncritical_tokens [] = 0
  noncritical_tokens (section ∷ sections) =
      (if section.is_critical then 0 else section_tokens sha1 shorten invalid policy section)
      + noncritical_tokens sections

  abbrev pub critical_sections : List Section → List Section
  critical_sections = keep (λ s. s.is_critical)

  -- What the rest of the loop promises when `running` tokens are taken.
  abbrev Fitting : List Section → ℕ → Collected → Store → Type 0
  Fitting sections running c s =
      (noncritical_tokens c.sections ≤ policy.token_budget - running)
      × (critical_sections c.sections
          ≡ map (critical_form sha1 shorten invalid policy) (critical_sections sections))

  kept-Fitting :
      (running : ℕ) (section done : Section) (sections : List Section) (c : Collected) (s : Store)
      → Transformed sha1 shorten invalid policy section (done, none) s
      → (done.is_critical ≡ false
          → running + section_tokens sha1 shorten invalid policy done ≤ policy.token_budget)
      → Fitting sections (running + section_tokens sha1 shorten invalid policy done) c s
      → (noncritical_tokens (done ∷ c.sections) ≤ policy.token_budget - running)
        × (critical_sections (done ∷ c.sections)
            ≡ map
                (critical_form sha1 shorten invalid policy)
                (critical_sections (section ∷ sections)))
  kept-Fitting running section done sections c s h room f = elim (Bool-cases section.is_critical) [
    | inl e ↦ rw h.0 (rw e (omega (arith, f.0), cc (h.1 e, f.1)))
    | inr e ↦ rw h.0 (rw e (omega (arith, f.0, room (h.0 ∙ e)), f.1))
  ]

  module _ (known : Bool) where
    abbrev Rest : List Section → (ℕ → Action Collected) → Store → Type 0
    Rest sections rest t =
        (taken : ℕ)
        → Ends (Refused sha1 shorten invalid policy known) (Fitting sections taken) (rest taken t)

    kept :
        (running : ℕ) (section done : Section) (created : Option Text) (warning : List Text)
        (sections : List Section) (rest : ℕ → Action Collected) (s : Store)
        → Transformed sha1 shorten invalid policy section (done, created) s
        → (done.is_critical ≡ false
            → running + section_tokens sha1 shorten invalid policy done ≤ policy.token_budget)
        → Rest sections rest s
        → Ends (Refused sha1 shorten invalid policy known) (Fitting (section ∷ sections) running) (
            and_then
              (rest (running + section_tokens sha1 shorten invalid policy done) s)
              (λ c. pure (with_section sha1 shorten invalid policy done created warning c)))
    kept running section done created warning sections rest s h room k =
        let taken = running + section_tokens sha1 shorten invalid policy done in
        Ends-and_then (Refused sha1 shorten invalid policy known) (Fitting sections taken)
          (Fitting (section ∷ sections) running) (rest taken s) _ (k taken)
          (λ c t f. kept-Fitting running section done sections c t h room f)

    skipped :
        (running : ℕ) (section : Section) (created : Option Text) (warning : Text)
        (sections : List Section) (rest : ℕ → Action Collected) (s : Store)
        → section.is_critical ≡ false
        → Rest sections rest s
        → Ends (Refused sha1 shorten invalid policy known) (Fitting (section ∷ sections) running) (
            and_then
              (rest running s)
              (λ c. pure (without_section sha1 shorten invalid policy created warning c)))
    skipped running section created warning sections rest s h k =
        Ends-and_then (Refused sha1 shorten invalid policy known) (Fitting sections running)
          (Fitting (section ∷ sections) running) (rest running s) _ (k running) (λ c t f. rw h f)

    reduce_noncritical_section-is_critical :
        (section : Section) (remaining : ℕ)
        → (reduce_noncritical_section sha1 shorten invalid policy section remaining).is_critical
          ≡ section.is_critical
    unfolding reduce_noncritical_section
    reduce_noncritical_section-is_critical section remaining = ground arith

    place_reduced-Fits :
        (running : ℕ) (section done reduced : Section) (created : Option Text)
        (sections : List Section) (rest : ℕ → Action Collected) (s : Store)
        → section.is_critical ≡ false
        → reduced.is_critical ≡ false
        → Rest sections rest s
        → Ends
            (Refused sha1 shorten invalid policy known)
            (Fitting (section ∷ sections) running)
            (place_reduced sha1 shorten invalid policy running done reduced created rest s)
    place_reduced-Fits running section done reduced created sections rest s h r k =
        if-Ends (Refused sha1 shorten invalid policy known) (Fitting (section ∷ sections) running)
          (not (is_empty reduced.content)
            && leb (section_tokens sha1 shorten invalid policy reduced)
                (policy.token_budget - running))
          _ _ s
          (λ e.
            kept running section reduced created [] sections rest s
              (r ∙ sym h, λ critical. absurd (ground (arith, h, critical))) (λ _. ground (arith, e))
              k)
          (λ _. skipped running section created _ sections rest s h k)

    place-Fits :
        (running : ℕ) (section done : Section) (created : Option Text) (sections : List Section)
        (rest : ℕ → Action Collected) (s : Store)
        → Transformed sha1 shorten invalid policy section (done, created) s
        → Rest sections rest s
        → Ends
            (Refused sha1 shorten invalid policy known)
            (Fitting (section ∷ sections) running)
            (place sha1 shorten invalid policy running done created rest s)
    place-Fits running section done created sections rest s h k =
        if-Ends (Refused sha1 shorten invalid policy known) (Fitting (section ∷ sections) running)
          (leb (running + section_tokens sha1 shorten invalid policy done) policy.token_budget) _ _
          s (λ e. kept running section done created [] sections rest s h (λ _. ground (arith, e)) k)
          (λ _.
            if-Ends (Refused sha1 shorten invalid policy known)
              (Fitting (section ∷ sections) running) done.is_critical _ _ s
              (λ e.
                kept running section done created
                  ((codes "Critical section '"
                      ++ done.title
                      ++ codes "' exceeded budget but was preserved verbatim.")
                    ∷ [])
                  sections rest s h (λ f. absurd (ground (arith, e, f))) k)
              (λ e.
                let reduced =
                  reduce_noncritical_section sha1 shorten invalid policy done
                    (policy.token_budget - running) in
                place_reduced-Fits running section done reduced created sections rest s
                  (sym h.0 ∙ e)
                  (reduce_noncritical_section-is_critical done (policy.token_budget - running) ∙ e)
                  k))

    collect-Fits :
        (task_id : ℕ) (sections : List Section) (running : ℕ) (s : Store)
        → has_task task_id s ≡ known
        → Ends
            (Refused sha1 shorten invalid policy known)
            (Fitting sections running)
            (collect sha1 shorten invalid policy task_id sections running s)
    collect-Fits task_id [] running s there = (omega arith, refl)
    collect-Fits task_id (section ∷ sections) running s there =
        let full = keep_full sha1 shorten invalid policy section sections in
        Ends-and_then (Refused sha1 shorten invalid policy known)
          (Round sha1 shorten invalid policy task_id known section)
          (Fitting (section ∷ sections) running)
          (transform_section sha1 shorten invalid policy task_id full section s) _
          (transform_section-Round sha1 shorten invalid policy task_id known full section s there)
          (λ done t h.
            place-Fits running section done.0 done.1 sections
              (collect sha1 shorten invalid policy task_id sections) t h.0
              (λ taken. collect-Fits task_id sections taken t h.1))

  -- The optimizer raises only what pydantic raises for a saved reference without one of its texts, or,
  -- for a task that is not there, the error of the foreign key. Else it returns: the sections that are
  -- not critical take at most the token budget, each with ten tokens for its title, and the critical
  -- sections are all there, in their order, with their texts, but that a baton over its limit is
  -- truncated. This holds whatever the budget.
  pub optimize-Fits :
      (bundle : RawBundle) (s : Store)
      → Ends
          (Refused sha1 shorten invalid policy (has_task bundle.task_id s))
          (λ o t.
            (noncritical_tokens o.sections ≤ policy.token_budget)
            × (critical_sections o.sections
                ≡ map
                    (critical_form sha1 shorten invalid policy)
                    (critical_sections bundle.sections)))
          (optimize sha1 shorten invalid policy bundle s)
  unfolding optimize
  optimize-Fits bundle s =
      Ends-and_then (Refused sha1 shorten invalid policy (has_task bundle.task_id s))
        (Fitting bundle.sections 0) _
        (collect sha1 shorten invalid policy bundle.task_id bundle.sections 0 s) _
        (collect-Fits (has_task bundle.task_id s) bundle.task_id bundle.sections 0 s refl)
        (λ c t f. (omega (arith, f.0), f.1))
