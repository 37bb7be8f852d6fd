-- ===== src/Context/Transform.antt =====
-- services/orchestrator/app/context/optimizer.py: _transform_section, and the references it saves.
use syncore.Common.{
  ℕ, ◌-◌, ltb, leb, ◌==◌, if◌then◌else◌, Text, codes, is_empty, strip, lower, contains, length,
  take, Bool, not, ◌&&◌, ◌||◌, Option, none, some, List, [], ◌∷◌, ◌++◌, map, keep, join, String,
}
use syncore.Store.{Action, Reference, Layer, Error, ◌>>=◌, ◌>>◌, pure, raise}
use syncore.Store.References.{
  ReferenceCreate, upsert_context_reference, upsert_context_reference_layer,
  get_context_reference_layer,
}
use syncore.Autonomy.Values.{decimal}
use syncore.Context.{
  Section, SectionType, ContextPolicy, type_name, is_log_like, is_event_like, is_baton,
}
use syncore.Context.References.{
  build_ref_id, compact, summarize_for_reference, build_retrieval_hint,
  render_reference_placeholder,
}

abbrev pub with_content : Section → Text → Section
with_content section content = record section { content = content }

-- The characters that str.splitlines cuts at.
abbrev is_line_end : ℕ → Bool
is_line_end c =
    (leb 10 c && leb c 13) || (leb 28 c && leb c 30) || c == 133 || c == 8_232 || c == 8_233

-- text.splitlines(), with an empty line more between \r and \n and at the end
abbrev lines_from : Text → List Text
lines_from [] = [] ∷ []
lines_from (c ∷ t) = let rest = lines_from t in if is_line_end c then [] ∷ rest else push c rest
  where
    push : ℕ → List Text → List Text
    push c [] = (c ∷ []) ∷ []
    push c (line ∷ lines) = (c ∷ line) ∷ lines

unfoldable pub looks_like_error : Text → Bool
looks_like_error line =
    let has = λ (marker : String). contains (lower line) (codes marker) in
    has "error" || has "exception" || has "traceback" || has "fatal" || has "failed"

-- ContextReference.model_validate(row); `invalid` is pydantic's ValidationError for the row.
abbrev pub is_valid : Reference → Bool
is_valid r =
    not (is_empty r.ref_id)
    && not (is_empty r.content_type)
    && not (is_empty r.original_content)
    && not (is_empty r.summary)
    && not (is_empty r.retrieval_hint)

abbrev pub model_validate : (Reference → Error) → Reference → Action Reference
model_validate invalid row = if is_valid row then pure row else raise (invalid row)

module _ (sha1 : Text → Text) (shorten : Text → ℕ → Text) (invalid : Reference → Error) where
  -- _summarize
  abbrev pub summarize : Text → ℕ → Text
  summarize text max_chars = shorten (compact text) max_chars

  abbrev pub error_lines : Text → List Text
  error_lines text = map (λ line. summarize line 160) (keep looks_like_error (lines_from text))

  abbrev pub reference_of : ℕ → Text → Text → ReferenceCreate
  reference_of task_id content_type original_content =
      let ref_id = build_ref_id sha1 task_id content_type original_content in
      record {
        ref_id = ref_id;
        task_id = task_id;
        content_type = content_type;
        original_content = original_content;
        summary = summarize_for_reference shorten original_content;
        retrieval_hint = build_retrieval_hint ref_id content_type;
      }

  unfoldable pub save_reference : ℕ → Text → Text → Bool → Action Reference
  save_reference task_id content_type original_content layering_enabled =
      let n = reference_of task_id content_type original_content in
      (do
        row ← upsert_context_reference n
        upsert_context_reference_layer n.ref_id (codes "L0")
            (summarize (compact original_content) 120)
        upsert_context_reference_layer n.ref_id (codes "L1")
            (summarize (compact original_content) 1_200)
        upsert_context_reference_layer n.ref_id (codes "L2")
            (if layering_enabled then original_content else n.summary)
        model_validate invalid row)

  abbrev overview_of : Option Layer → Text
  overview_of none = []
  overview_of (some l) = strip l.content

  -- The overview of the layer, empty when there is none.
  abbrev pub layer_overview : ContextPolicy → SectionType → Reference → Action Text
  layer_overview policy kind reference =
      if policy.layering_enabled
      then (do
        row ←
            get_context_reference_layer reference.ref_id
              (if is_log_like kind || leb policy.token_budget 2_000 then codes "L0" else codes "L1")
        pure (overview_of row))
      else pure []

  abbrev with_errors : List Text → Text → Text
  with_errors [] placeholder = placeholder
  with_errors (e ∷ errors) placeholder =
      join (codes "\n")
        (codes "Preserved exact error snippets:" ∷ take 4 (e ∷ errors) ++ [] ∷ placeholder ∷ [])

  abbrev pub placeholder_of : Text → Reference → Text → Text
  placeholder_of content reference overview = with_errors (error_lines content) (
      render_reference_placeholder reference.ref_id
        (if is_empty overview then reference.summary else overview) reference.retrieval_hint)

  module _ (policy : ContextPolicy) where
    abbrev pub is_preserved : Section → Bool
    is_preserved section = section.is_critical || policy.preserve_section_types section.section_type

    abbrev pub truncated : Text → Text
    truncated content =
        take policy.max_baton_chars content
        ++ codes "\n[truncated non-critical baton details: "
        ++ decimal (length content - policy.max_baton_chars)
        ++ codes " chars]"

    -- The branches of _transform_section that save nothing.
    abbrev pub rewritten : Bool → Section → Text
    rewritten keep_full_event section =
        if is_baton section.section_type && ltb policy.max_baton_chars (length section.content)
        then truncated section.content
        else if is_event_like section.section_type
            && not keep_full_event
            && not (is_preserved section)
        then summarize section.content policy.max_event_summary_chars
        else if ltb policy.max_noncritical_chars (length section.content)
            && not (is_preserved section)
        then summarize section.content policy.max_noncritical_chars
        else section.content

    abbrev pub replace_by_reference : ℕ → Section → Action (Section × Option Text)
    replace_by_reference task_id section = do
      reference ←
          save_reference task_id (type_name section.section_type) section.content
            policy.layering_enabled
      overview ← layer_overview policy section.section_type reference
      pure (
        with_content section (placeholder_of section.content reference overview),
        some reference.ref_id,
      )

    abbrev pub is_cut : Section → Bool
    is_cut section =
        is_log_like section.section_type
        && ltb policy.large_content_threshold_chars (length section.content)
        && not (is_preserved section)

    unfoldable pub transform_section : ℕ → Bool → Section → Action (Section × Option Text)
    transform_section task_id keep_full_event section =
        if is_cut section
        then replace_by_reference task_id section
        else pure (with_content section (rewritten keep_full_event section), none)
