-- ===== src/Store/References/Layers.antt =====
-- Upserts of references and of their layers: what they leave alone, and when they return.
use syncore.Common.{
  ℕ, ◌≡◌, refl, arith, Text, text_eq_refl, true, false, List, [], ◌∷◌, any, update_where,
  any-append, any-first, Bool-cases, inl, inr, ◌∙◌,
}
use syncore.Store.{Store, Layer, Reference, has_task, foreign_key}
use syncore.Store.Returns.{Returns, Ends}
use syncore.Store.References.{
  layer_is, assign_layer, upsert_layer, upsert_context_reference_layer, accepts_layer,
  ReferenceCreate, reference_is, assign_reference, new_reference, upsert_reference,
  upsert_context_reference, accepts_reference,
}

any-assign_layer :
    (ref_id layer content : Text) (rows : List Layer)
    → any (layer_is ref_id layer) (update_where (layer_is ref_id layer) (assign_layer content) rows)
      ≡ any (layer_is ref_id layer) rows
any-assign_layer ref_id layer content [] = refl
any-assign_layer ref_id layer content (l ∷ rows) =
    ground (arith, any-assign_layer ref_id layer content rows)

any-upsert_layer :
    (n : Layer) (rows : List Layer) → any (layer_is n.ref_id n.layer) (upsert_layer n rows) ≡ true
any-upsert_layer n rows = elim (Bool-cases (any (layer_is n.ref_id n.layer) rows)) [
  | inl e ↦ rw e (any-assign_layer n.ref_id n.layer n.content rows ∙ e)
  | inr e ↦ rw e (
      ground (
        arith,
        any-append (layer_is n.ref_id n.layer) rows (n ∷ []),
        text_eq_refl n.ref_id,
        text_eq_refl n.layer,
      ))
]

-- An upsert of a layer of a reference that is there.
pub upsert_layer-Returns :
    (ref_id layer content : Text) (s : Store)
    → any (reference_is ref_id) s.references ≡ true
    → Returns
        (λ _ t. (t.tasks ≡ s.tasks) × (t.references ≡ s.references))
        (upsert_context_reference_layer ref_id layer content s)
unfolding upsert_context_reference_layer
upsert_layer-Returns ref_id layer content s there =
    let row : Layer = record {
      layer_id = s.uuids s.tick;
      ref_id = ref_id;
      layer = layer;
      content = content;
      created_at = s.clock s.tick;
    } in
    let found =
      any-first (layer_is ref_id layer) (upsert_layer row s.layers)
        (any-upsert_layer row s.layers) in
    let accepted : accepts_layer ref_id layer s ≡ true = ground (arith, there) in
    rw (found.1, accepted) (refl, refl)

any-assign_reference :
    (n : ReferenceCreate) (rows : List Reference)
    → any (reference_is n.ref_id) (update_where (reference_is n.ref_id) (assign_reference n) rows)
      ≡ any (reference_is n.ref_id) rows
any-assign_reference n [] = refl
any-assign_reference n (r ∷ rows) = ground (arith, any-assign_reference n rows)

any-upsert_reference :
    (n : ReferenceCreate) (now : ℕ) (rows : List Reference)
    → any (reference_is n.ref_id) (upsert_reference n now rows) ≡ true
any-upsert_reference n now rows = elim (Bool-cases (any (reference_is n.ref_id) rows)) [
  | inl e ↦ rw e (any-assign_reference n rows ∙ e)
  | inr e ↦ rw e (
      ground (
        arith,
        any-append (reference_is n.ref_id) rows (new_reference n now ∷ []),
        text_eq_refl n.ref_id,
      ))
]

-- An upsert of a reference leaves the tasks alone, and its reference is there when it returns; it is
-- refused for a missing task only.
pub upsert_reference-Ends :
    (n : ReferenceCreate) (s : Store)
    → Ends
        (λ e. (has_task n.task_id s ≡ false) × (e ≡ foreign_key))
        (λ _ t. (t.tasks ≡ s.tasks) × (any (reference_is n.ref_id) t.references ≡ true))
        (upsert_context_reference n s)
unfolding upsert_context_reference
upsert_reference-Ends n s =
    let added = any-upsert_reference n (s.clock s.tick) s.references in
    let found =
      any-first (reference_is n.ref_id) (upsert_reference n (s.clock s.tick) s.references) added in
    elim (Bool-cases (accepts_reference n s)) [
      | inl e ↦ rw (found.1, e) (refl, added)
      | inr e ↦ rw (found.1, e) (ground (arith, e), refl)
    ]
