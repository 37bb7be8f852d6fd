-- ===== src/Context/Sections.antt =====
-- services/orchestrator/app/context/optimizer.py: what the transformation of one section keeps.
use syncore.Common.{
  sym, ap, ◌∙◌, ◌==◌, any, ◌⊎◌, ℕ, ◌≡◌, refl, arith, ltb, Text, codes, length, Bool, true, false,
  ◌&&◌, Option, if◌then◌else◌, Bool-cases, inl, inr,
}
use syncore.Store.{Store, Error, Reference, has_task, foreign_key}
use syncore.Store.Returns.{Ends, Ends-and_then, Ends-map, Returns-Ends}
use syncore.Store.References.{
  ReferenceCreate, reference_is, upsert_context_reference, get_context_reference_layer,
  upsert_context_reference_layer,
}
use syncore.Store.References.Layers.{upsert_layer-Returns, upsert_reference-Ends}
use syncore.Context.References.{compact}
use syncore.Context.{type_name, Section, SectionType, ContextPolicy, is_baton}
use syncore.Context.Transform.{
  is_valid, model_validate, transform_section, replace_by_reference, save_reference, reference_of,
  layer_overview, with_content, truncated, rewritten, is_cut, summarize,
}

module _ (sha1 : Text → Text) (shorten : Text → ℕ → Text) (invalid : Reference → Error)
    (policy : ContextPolicy) where
  -- A critical section as it is kept: a long baton is truncated, and nothing else is changed.
  abbrev pub critical_form : Section → Section
  critical_form section = with_content section (
      if is_baton section.section_type && ltb policy.max_baton_chars (length section.content)
      then truncated sha1 shorten invalid policy section.content
      else section.content)

  -- What the transformation of a section promises.
  abbrev pub Transformed : Section → Section × Option Text → Store → Type 0
  Transformed section out s =
      (out.0.is_critical ≡ section.is_critical)
      × (section.is_critical ≡ true → out.0 ≡ critical_form section)

  -- The error is that of a row without one of its texts.
  abbrev pub Invalid : Error → Type 0
  Invalid e = (row : Reference) × ((is_valid row ≡ false) × (invalid row ≡ e))

  -- That, or the foreign key's, when the task is not `known`.
  abbrev pub Refused : Bool → Error → Type 0
  Refused known e = Invalid e ⊎ ((known ≡ false) × (e ≡ foreign_key))

  rewritten-critical :
      (full : Bool) (section : Section)
      → section.is_critical ≡ true
      → with_content section (rewritten sha1 shorten invalid policy full section)
        ≡ critical_form section
  rewritten-critical full section h =
      elim (Bool-cases
        (is_baton section.section_type && ltb policy.max_baton_chars (length section.content))) [
          | inl e ↦ rw e refl
          | inr e ↦ rw e (rw h (ground (arith, h, e)))
        ]

  module _ (task_id : ℕ) (known : Bool) where
    abbrev Known : {A : Type 0} → A → Store → Type 0
    Known a t = has_task task_id t ≡ known

    -- The reference is there, too.
    abbrev Saved : {A : Type 0} → Text → A → Store → Type 0
    Saved ref_id a t =
        (has_task task_id t ≡ known) × (any (reference_is ref_id) t.references ≡ true)

    same_tasks :
        (s t : Store) → t.tasks ≡ s.tasks → has_task task_id s ≡ known → has_task task_id t ≡ known
    same_tasks s t e h = ap (any (λ r. r.id == task_id)) e ∙ h

    model_validate-Ends :
        (row : Reference) (s : Store)
        → has_task task_id s ≡ known
        → Ends (Refused known) Known (model_validate invalid row s)
    model_validate-Ends row s h = elim (Bool-cases (is_valid row)) [
      | inl e ↦ rw e h
      | inr e ↦ rw e (inl (row, (e, refl)))
    ]

    layer-Ends :
        (ref_id layer content : Text) (s : Store)
        → (has_task task_id s ≡ known) × (any (reference_is ref_id) s.references ≡ true)
        → Ends
            (Refused known)
            (Saved ref_id)
            (upsert_context_reference_layer ref_id layer content s)
    layer-Ends ref_id layer content s h =
        Returns-Ends (Refused known) _ (Saved ref_id)
          (upsert_context_reference_layer ref_id layer content s)
          (upsert_layer-Returns ref_id layer content s h.1)
          (λ _ t e. (same_tasks s t e.0 h.0, ap (any (reference_is ref_id)) e.1 ∙ h.1))

    reference-Ends :
        (n : ReferenceCreate) (s : Store)
        → n.task_id ≡ task_id
        → has_task task_id s ≡ known
        → Ends (Refused known) (Saved n.ref_id) (upsert_context_reference n s)
    reference-Ends n s same h =
        Ends-map _ (Refused known) _ (Saved n.ref_id) (upsert_context_reference n s)
          (upsert_reference-Ends n s)
          (λ e r. inr (sym h ∙ (ap (λ k. has_task k s) (sym same) ∙ r.0), r.1))
          (λ _ t e. (same_tasks s t e.0 h, e.1))

    save_reference-Ends :
        (kind content : Text) (layering : Bool) (s : Store)
        → has_task task_id s ≡ known
        → Ends
            (Refused known)
            Known
            (save_reference sha1 shorten invalid task_id kind content layering s)
    unfolding save_reference
    save_reference-Ends kind content layering s h =
        let n = reference_of sha1 shorten invalid task_id kind content in
        let E = Refused known in
        Ends-and_then E (Saved n.ref_id) Known (upsert_context_reference n s) _
          (reference-Ends n s refl h)
          (λ row s1 h1.
            Ends-and_then E (Saved n.ref_id) Known
              (upsert_context_reference_layer n.ref_id (codes "L0")
                (summarize sha1 shorten invalid (compact content) 120) s1)
              _ (layer-Ends n.ref_id (codes "L0") _ s1 h1)
              (λ _ s2 h2.
                Ends-and_then E (Saved n.ref_id) Known
                  (upsert_context_reference_layer n.ref_id (codes "L1")
                    (summarize sha1 shorten invalid (compact content) 1_200) s2)
                  _ (layer-Ends n.ref_id (codes "L1") _ s2 h2)
                  (λ _ s3 h3.
                    Ends-and_then E (Saved n.ref_id) Known
                      (upsert_context_reference_layer n.ref_id (codes "L2")
                        (if layering then content else n.summary) s3)
                      _ (layer-Ends n.ref_id (codes "L2") _ s3 h3)
                      (λ _ s4 h4. model_validate-Ends row s4 h4.0))))

    layer_overview-Ends :
        (kind : SectionType) (reference : Reference) (s : Store)
        → has_task task_id s ≡ known
        → Ends (Refused known) Known (layer_overview sha1 shorten invalid policy kind reference s)
    unfolding get_context_reference_layer
    layer_overview-Ends kind reference s h = elim (Bool-cases policy.layering_enabled) [
      | inl e ↦ rw e h
      | inr e ↦ rw e h
    ]

    -- What one round of the loop promises.
    abbrev pub Round : Section → Section × Option Text → Store → Type 0
    Round section out t = Transformed section out t × (has_task task_id t ≡ known)

    -- Only a section that is not critical is replaced by a reference.
    replaced :
        (section : Section) (s : Store)
        → section.is_critical ≡ false
        → has_task task_id s ≡ known
        → Ends
            (Refused known)
            (Round section)
            (replace_by_reference sha1 shorten invalid policy task_id section s)
    replaced section s h there =
        Ends-and_then (Refused known) Known (Round section)
          (save_reference sha1 shorten invalid task_id (type_name section.section_type)
            section.content policy.layering_enabled s)
          _
          (save_reference-Ends (type_name section.section_type) section.content
            policy.layering_enabled s there)
          (λ reference s1 h1.
            Ends-and_then (Refused known) Known (Round section)
              (layer_overview sha1 shorten invalid policy section.section_type reference s1) _
              (layer_overview-Ends section.section_type reference s1 h1)
              (λ _ _ h2. ((refl, λ critical. absurd (ground (arith, h, critical))), h2)))

    pub transform_section-Round :
        (full : Bool) (section : Section) (s : Store)
        → has_task task_id s ≡ known
        → Ends
            (Refused known)
            (Round section)
            (transform_section sha1 shorten invalid policy task_id full section s)
    unfolding transform_section
    transform_section-Round full section s there =
        elim (Bool-cases (is_cut sha1 shorten invalid policy section)) [
          | inl e ↦ rw e (replaced section s (ground (arith, e)) there)
          | inr e ↦ rw e ((refl, rewritten-critical full section), there)
        ]
