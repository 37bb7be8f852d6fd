-- ===== src/Store/References.antt =====
-- The context reference, reference layer and research finding rows. The text of a reference is
-- written once: a second upsert of its id changes the summary and the hint only.
pub mod WriteOnce
pub mod Layers
pub mod Tests
use syncore.Common.{
  ℕ, suc, ◌==◌, if◌then◌else◌, Text, codes, text_eq, Bool, true, false, ◌&&◌, ◌||◌, Option, none,
  some, List, [], ◌∷◌, ◌++◌, any, keep, take, first, update_where,
}
use syncore.Models.{ResearchFinding, ResearchFindingCreate}
use syncore.Store.Workspaces.{has_optional_workspace}
use syncore.Store.{
  has_task, has_optional_task, refer, Store, Action, Result, ok, err, runtime_error, Reference,
  Layer, bounded,
}
use syncore.Store.Order.{order_desc}

-- The arguments of upsert_context_reference.
pub record ReferenceCreate : Type 0 where
  pub ref_id : Text
  pub task_id : ℕ
  pub content_type : Text
  pub original_content : Text
  pub summary : Text
  pub retrieval_hint : Text

abbrev pub reference_is : Text → Reference → Bool
reference_is k r = text_eq r.ref_id k

abbrev pub new_reference : ReferenceCreate → ℕ → Reference
new_reference n now = record {
  ref_id = n.ref_id;
  task_id = n.task_id;
  content_type = n.content_type;
  original_content = n.original_content;
  summary = n.summary;
  retrieval_hint = n.retrieval_hint;
  created_at = now;
}

-- ON CONFLICT(ref_id) DO UPDATE SET
abbrev pub assign_reference : ReferenceCreate → Reference → Reference
assign_reference n r = record r { summary = n.summary; retrieval_hint = n.retrieval_hint }

abbrev pub upsert_reference : ReferenceCreate → ℕ → List Reference → List Reference
upsert_reference n now rows =
    if any (reference_is n.ref_id) rows
    then update_where (reference_is n.ref_id) (assign_reference n) rows
    else rows ++ new_reference n now ∷ []

abbrev pub persisted : Option Reference → Result Reference
persisted none = err (runtime_error (codes "Failed to persist context reference"))
persisted (some r) = ok r

-- The foreign key is tested where a row is inserted.
abbrev pub accepts_reference : ReferenceCreate → Store → Bool
accepts_reference n s = any (reference_is n.ref_id) s.references || has_task n.task_id s

unfoldable pub upsert_context_reference : ReferenceCreate → Action Reference
upsert_context_reference n s =
    let rows = upsert_reference n (s.clock s.tick) s.references in
    refer (accepts_reference n s)
      (
        persisted (first (reference_is n.ref_id) rows),
        record s { references = rows; tick = suc s.tick },
      )
      s

unfoldable pub get_context_reference : Text → Action (Option Reference)
get_context_reference ref_id s = (ok (first (reference_is ref_id) s.references), s)

abbrev pub layer_is : Text → Text → Layer → Bool
layer_is ref_id layer l = text_eq l.ref_id ref_id && text_eq l.layer layer

abbrev pub assign_layer : Text → Layer → Layer
assign_layer content l = record l { content = content }

abbrev pub upsert_layer : Layer → List Layer → List Layer
upsert_layer n rows =
    if any (layer_is n.ref_id n.layer) rows
    then update_where (layer_is n.ref_id n.layer) (assign_layer n.content) rows
    else rows ++ n ∷ []

abbrev pub persisted_layer : Option Layer → Result Layer
persisted_layer none = err (runtime_error (codes "Failed to persist context reference layer"))
persisted_layer (some l) = ok l

-- REFERENCES context_references(ref_id), where a row is inserted.
abbrev pub accepts_layer : Text → Text → Store → Bool
accepts_layer ref_id layer s =
    any (layer_is ref_id layer) s.layers || any (reference_is ref_id) s.references

unfoldable pub upsert_context_reference_layer : Text → Text → Text → Action Layer
upsert_context_reference_layer ref_id layer content s =
    let row : Layer = record {
      layer_id = s.uuids s.tick;
      ref_id = ref_id;
      layer = layer;
      content = content;
      created_at = s.clock s.tick;
    } in
    let rows = upsert_layer row s.layers in
    refer (accepts_layer ref_id layer s)
      (
        persisted_layer (first (layer_is ref_id layer) rows),
        record s { layers = rows; tick = suc s.tick },
      )
      s

unfoldable pub get_context_reference_layer : Text → Text → Action (Option Layer)
get_context_reference_layer ref_id layer s = (ok (first (layer_is ref_id layer) s.layers), s)

unfoldable pub create_research_finding : ResearchFindingCreate → Action ResearchFinding
create_research_finding n s =
    let row : ResearchFinding = record {
      finding_id = s.uuids s.tick;
      task_id = n.task_id;
      workspace_id = n.workspace_id;
      title = n.title;
      summary = n.summary;
      details = n.details;
      impact_level = n.impact_level;
      source = n.source;
      created_at = s.clock s.tick;
    } in
    refer (has_optional_task n.task_id s && has_optional_workspace n.workspace_id s)
      (ok row, record s { findings = s.findings ++ row ∷ []; tick = suc s.tick }) s

-- `column = ?`, or no clause when the filter is None; NULL equals nothing.
abbrev pub column_is : Option ℕ → Option ℕ → Bool
column_is none column = true
column_is (some k) none = false
column_is (some k) (some j) = j == k

unfoldable pub list_research_findings : Option ℕ → Option ℕ → ℕ → Action (List ResearchFinding)
list_research_findings task_id workspace_id limit s = (
  ok (
      take (bounded limit 500) (
        order_desc (λ f. f.created_at)
          (keep (λ f. column_is task_id f.task_id && column_is workspace_id f.workspace_id)
            s.findings))),
  s,
)
