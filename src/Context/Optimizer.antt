-- ===== src/Context/Optimizer.antt =====
-- services/orchestrator/app/context/optimizer.py: SimpleContextOptimizer, without the percentage of the
-- tokens saved.
use syncore.Common.{
  ℕ, ◌+◌, ◌-◌, ◌*◌, min, ltb, leb, if◌then◌else◌, Text, codes, is_empty, length, Bool, not, ◌&&◌,
  Option, none, some, List, [], ◌∷◌, ◌++◌, map, count_if, join, sort_texts, ℤ, sub_ℕ,
}
use syncore.Store.{Action, Reference, Error, lookup_error, ◌>>=◌, pure, raise}
use syncore.Store.References.{get_context_reference}
use syncore.Workspace.Resolver.{unique}
use syncore.Context.{Section, RawBundle, ContextPolicy, is_event_like}
use syncore.Context.References.{estimate_tokens}
use syncore.Context.Transform.{model_validate, with_content, summarize, transform_section}

-- OptimizedContextBundle, as `optimize` returns it.
pub record OptimizedContext : Type 0 where
  pub task_id : ℕ
  pub target_agent : Text
  pub target_model : Text
  pub token_budget : ℕ
  pub estimated_token_count : ℕ
  pub raw_estimated_token_count : ℕ
  pub token_savings_estimate : ℤ
  pub rendered_prompt : Text
  pub section_count : ℕ
  pub raw_section_count : ℕ
  pub sections : List Section
  pub included_refs : List Text
  pub warnings : List Text

-- What the loop collects.
pub record Collected : Type 0 where
  pub sections : List Section
  pub refs : List Text
  pub warnings : List Text

unfoldable pub render_prompt : List Section → Text
render_prompt sections =
    join (codes "\n\n") (map (λ s. codes "## " ++ s.title ++ codes "\n" ++ s.content) sections)

module _ (sha1 : Text → Text) (shorten : Text → ℕ → Text) (invalid : Reference → Error) where
  module _ (policy : ContextPolicy) where
    abbrev bounded_chars : ℕ → ℕ
    bounded_chars remaining = min (remaining * 4 - 40) policy.max_event_summary_chars

    -- _reduce_noncritical_section
    unfoldable pub reduce_noncritical_section : Section → ℕ → Section
    reduce_noncritical_section section remaining =
        if leb remaining 12
        then with_content section []
        else if ltb (bounded_chars remaining) 80
        then with_content section []
        else with_content section
            (summarize sha1 shorten invalid section.content (bounded_chars remaining))

    abbrev pub section_tokens : Section → ℕ
    section_tokens section = estimate_tokens section.content + 10

    abbrev pub push_ref : Option Text → List Text → List Text
    push_ref none refs = refs
    push_ref (some r) refs = r ∷ refs

    abbrev pub with_section : Section → Option Text → List Text → Collected → Collected
    with_section section created warning c = record {
      sections = section ∷ c.sections;
      refs = push_ref created c.refs;
      warnings = warning ++ c.warnings;
    }

    abbrev pub without_section : Option Text → Text → Collected → Collected
    without_section created warning c = record {
      sections = c.sections;
      refs = push_ref created c.refs;
      warnings = warning ∷ c.warnings;
    }

    -- A non-critical section that does not fit: reduced, or left out.
    abbrev pub place_reduced :
        ℕ → Section → Section → Option Text → (ℕ → Action Collected) → Action Collected
    place_reduced running section reduced created rest =
        if not (is_empty reduced.content)
          && leb (section_tokens reduced) (policy.token_budget - running)
        then (do
          c ← rest (running + section_tokens reduced)
          pure (with_section reduced created [] c))
        else (do
          c ← rest running
          pure (
              without_section created
                (codes "Skipped non-critical section '"
                  ++ section.title
                  ++ codes "' due to token budget.")
                c))

    -- The rest of one round; `rest` takes the tokens so far.
    abbrev pub place : ℕ → Section → Option Text → (ℕ → Action Collected) → Action Collected
    place running section created rest =
        if leb (running + section_tokens section) policy.token_budget
        then (do
          c ← rest (running + section_tokens section)
          pure (with_section section created [] c))
        else if section.is_critical
        then (do
          c ← rest (running + section_tokens section)
          pure (
              with_section section created
                ((codes "Critical section '"
                    ++ section.title
                    ++ codes "' exceeded budget but was preserved verbatim.")
                  ∷ [])
                c))
        else place_reduced running section
            (reduce_noncritical_section section (policy.token_budget - running)) created rest

    -- index in keep_full_event_indexes: at most that many event-like sections from here on
    abbrev pub keep_full : Section → List Section → Bool
    keep_full section rest =
        is_event_like section.section_type
        && leb (count_if (λ s. is_event_like s.section_type) (section ∷ rest))
            policy.recent_events_full_count

    abbrev pub collect : ℕ → List Section → ℕ → Action Collected
    collect task_id [] running = pure (record { sections = []; refs = []; warnings = [] })
    collect task_id (section ∷ rest) running = do
      done ← transform_section sha1 shorten invalid policy task_id (keep_full section rest) section
      place running done.0 done.1 (collect task_id rest)

    abbrev pub bundle_of : RawBundle → Collected → OptimizedContext
    bundle_of bundle c = record {
      task_id = bundle.task_id;
      target_agent = bundle.target_agent;
      target_model = bundle.target_model;
      token_budget = policy.token_budget;
      estimated_token_count = estimate_tokens (render_prompt c.sections);
      raw_estimated_token_count = estimate_tokens (render_prompt bundle.sections);
      token_savings_estimate =
          sub_ℕ (estimate_tokens (render_prompt bundle.sections))
            (estimate_tokens (render_prompt c.sections));
      rendered_prompt = render_prompt c.sections;
      section_count = length c.sections;
      raw_section_count = length bundle.sections;
      sections = c.sections;
      included_refs = sort_texts (unique c.refs);
      warnings = c.warnings;
    }

    unfoldable pub optimize : RawBundle → Action OptimizedContext
    unfolding transform_section
    optimize bundle = do c ← collect bundle.task_id bundle.sections 0; pure (bundle_of bundle c)

abbrev found_reference : (Reference → Error) → Option Reference → Action Reference
found_reference invalid none = raise (lookup_error (codes "Context reference not found"))
found_reference invalid (some row) = model_validate invalid row

unfoldable pub retrieve : (Reference → Error) → Text → Action Reference
retrieve invalid ref_id = do row ← get_context_reference ref_id; found_reference invalid row
