-- ===== src/Execution/References.antt =====
-- The texts that a run leaves in the store: _store_text_reference,
-- _store_run_output_reference, and _record_event.
use syncore.Common.{ℕ, if◌then◌else◌, Text, codes, is_empty, strip, length, [], ◌∷◌, ◌++◌, pos}
use syncore.Models.{text, int}
use syncore.Store.{Action, ◌>>=◌, ◌>>◌, pure}
use syncore.Store.References.{ReferenceCreate, upsert_context_reference}
use syncore.Autonomy.Stage.{record_event}
use syncore.Autonomy.Uuid.{uuid_text}
use syncore.Context.References.{build_ref_id, compact}
use syncore.Execution.{RunConfig}

abbrev pub text_reference : RunConfig → ℕ → Text → Text → Text → ReferenceCreate
text_reference config task_id content_type content_text retrieval_hint = record {
  ref_id = build_ref_id config.sha1 task_id content_type content_text;
  task_id = task_id;
  content_type = content_type;
  original_content = content_text;
  summary = config.shorten (compact content_text) 220;
  retrieval_hint = retrieval_hint;
}

unfoldable pub store_text_reference : RunConfig → ℕ → Text → Text → Text → Action Text
unfolding build_ref_id
store_text_reference config task_id content_type content_text retrieval_hint =
    if is_empty (strip content_text) then pure [] else (do
      row ←
          upsert_context_reference
            (text_reference config task_id content_type content_text retrieval_hint)
      pure row.ref_id)

abbrev pub output_hint : ℕ → Text → Text → Text
output_hint run_id provider model =
    codes "run_id="
    ++ uuid_text run_id
    ++ codes " provider="
    ++ provider
    ++ codes " model="
    ++ model
    ++ codes "; retrieve via GET /context/references/{ref_id}"

unfoldable pub store_run_output_reference : RunConfig → ℕ → ℕ → Text → Text → Text → Action Text
unfolding build_ref_id
store_run_output_reference config task_id run_id provider model output_text = do
  row ← upsert_context_reference (
      text_reference config task_id (codes "run_output") output_text
        (output_hint run_id provider model))
  record_event task_id "run.output.stored" (
      ("run_id", text (uuid_text run_id))
      ∷ ("ref_id", text row.ref_id)
      ∷ ("provider", text provider)
      ∷ ("target_model", text model)
      ∷ ("chars", int (pos (length output_text)))
      ∷ [])
  pure row.ref_id
