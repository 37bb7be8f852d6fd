-- ===== src/Store/References/Tests.antt =====
-- A second upsert of a reference.
use syncore.Common.{true, false, codes, [], ◌∷◌}
use syncore.Store.{Store, Reference}
use syncore.Store.References.{ReferenceCreate}
use syncore.Store.References.WriteOnce.{Upserts, upsert_context_reference-Upserts}
use syncore.Samples.{task_store}

abbrev old_log : Reference
old_log = record {
  ref_id = codes "ctxref_log";
  task_id = 7;
  content_type = codes "log_output";
  original_content = codes "first";
  summary = codes "first";
  retrieval_hint = [];
  created_at = 1;
}

abbrev new_log : ReferenceCreate
new_log = record {
  ref_id = codes "ctxref_log";
  task_id = 7;
  content_type = codes "log_output";
  original_content = codes "second";
  summary = codes "second";
  retrieval_hint = [];
}

abbrev with_log : Store
with_log = record task_store { references = old_log ∷ [] }

abbrev next_log : ReferenceCreate
next_log = record new_log { ref_id = codes "ctxref_next" }

-- A new id for a task that is there, and for one that is not.
upsert_context_reference-Upserts_example :
    Upserts true new_log with_log
    × Upserts true next_log with_log
    × Upserts false (record next_log { task_id = 8 }) with_log
upsert_context_reference-Upserts_example = (
  upsert_context_reference-Upserts new_log with_log,
  upsert_context_reference-Upserts next_log with_log,
  upsert_context_reference-Upserts (record next_log { task_id = 8 }) with_log,
)
