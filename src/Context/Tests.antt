-- ===== src/Context/Tests.antt =====
-- A small context over its budget.
use syncore.Common.{
  ◌++◌, ℕ, ◌≡◌, ◌≤◌, refl, Text, codes, none, [], ◌∷◌, length, take, map, Bool, true, false,
}
use syncore.Store.{Store, Error, Reference, value_error, ok, err, Result}
use syncore.Store.Returns.{Ends}
use syncore.Context.{
  Section, SectionType, task, memory, log_output, RawBundle, ContextPolicy, default_context_policy,
}
use syncore.Store.References.{
  upsert_context_reference, upsert_context_reference_layer, get_context_reference_layer,
}
use syncore.Context.References.{
  build_ref_id, summarize_for_reference, build_retrieval_hint, render_reference_placeholder,
}
use syncore.Context.Transform.{save_reference, looks_like_error}
use syncore.Context.Optimizer.{OptimizedContext, optimize}
use syncore.Context.Sections.{Refused, critical_form}
use syncore.Context.Fits.{noncritical_tokens, critical_sections, optimize-Fits}
use syncore.Samples.{empty_store, task_store}

abbrev no_hash : Text → Text
no_hash t = t

abbrev cut : Text → ℕ → Text
cut t n = take n t

abbrev invalid : Reference → Error
invalid r = value_error r.ref_id

abbrev section : SectionType → Bool → Text → Section
section kind critical content = record {
  section_id = content;
  title = content;
  section_type = kind;
  content = content;
  source = none;
  is_critical = critical;
  priority = 50;
}

-- Sections of 12, 12 and 11 tokens, with room for 25.
abbrev small_bundle : RawBundle
small_bundle = record {
  task_id = 7;
  target_agent = codes "coder";
  target_model = codes "local_echo";
  token_budget = 25;
  sections =
      section memory false (codes "hello")
      ∷ section memory false (codes "again")
      ∷ section task true (codes "build")
      ∷ [];
}

abbrev small_policy : ContextPolicy
small_policy = default_context_policy 25 true

abbrev counts : Result OptimizedContext × Store → ℕ × ℕ
counts (ok o, s) = (length o.sections, length o.warnings)
counts (err e, s) = (0, 0)

all_three_kept :
    counts (optimize no_hash cut invalid small_policy small_bundle empty_store) ≡ (3, 1)
unfolding optimize default_context_policy
all_three_kept = refl

abbrev twice : Text → Text
twice t = t ++ t

-- 832 characters, which are put away as a reference of task 7.
abbrev log_text : Text
log_text = twice (twice (twice (twice (twice (codes "error: no space on device ")))))

abbrev log_bundle : RawBundle
log_bundle = record small_bundle {
  token_budget = 256;
  sections =
      section log_output false log_text
      ∷ section memory false (codes "again")
      ∷ section task true (codes "build")
      ∷ [];
}

abbrev log_policy : ContextPolicy
log_policy = record (default_context_policy 256 true) { large_content_threshold_chars = 500 }

abbrev saved : Result OptimizedContext × Store → ℕ × ℕ
saved (ok o, s) = (length s.references, length s.layers)
saved (err e, s) = (0, 0)

log_saved : saved (optimize no_hash cut invalid log_policy log_bundle task_store) ≡ (1, 3)
unfolding optimize default_context_policy save_reference upsert_context_reference build_ref_id
    upsert_context_reference_layer summarize_for_reference build_retrieval_hint
    get_context_reference_layer looks_like_error render_reference_placeholder
log_saved = refl

optimize-Fits_example :
    Ends
      (Refused no_hash cut invalid log_policy true)
      (λ o t.
        (noncritical_tokens no_hash cut invalid log_policy o.sections ≤ log_policy.token_budget)
        × (critical_sections no_hash cut invalid log_policy o.sections
            ≡ map
                (critical_form no_hash cut invalid log_policy)
                (critical_sections no_hash cut invalid log_policy log_bundle.sections)))
      (optimize no_hash cut invalid log_policy log_bundle task_store)
optimize-Fits_example = optimize-Fits no_hash cut invalid log_policy log_bundle task_store
