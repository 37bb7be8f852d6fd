-- ===== src/Context/References.antt =====
-- services/orchestrator/app/context/retrieval_refs.py. sha1 (the hexadecimal digest of a text) and
-- shorten (textwrap.shorten with the placeholder " ...") are parameters.
use syncore.Common.{
  ℕ, ◌+◌, ◌/◌, ◌==◌, max, if◌then◌else◌, Text, codes, lower, length, take, [], ◌∷◌, ◌++◌, map, join,
  words,
}
use syncore.Autonomy.Uuid.{uuid_hex}

abbrev pub estimate_tokens : Text → ℕ
estimate_tokens [] = 0
estimate_tokens (c ∷ s) = max 1 ((length (c ∷ s) + 3) / 4)

-- content_type.replace(" ", "_")
abbrev pub underscored : ℕ → ℕ
underscored c = if c == 32 then 95 else c

unfoldable pub build_ref_id : (Text → Text) → ℕ → Text → Text → Text
unfolding uuid_hex
build_ref_id sha1 task_id content_type original_content =
    codes "ctxref_"
    ++ take 8 (uuid_hex task_id)
    ++ codes "_"
    ++ take 18 (lower (map underscored content_type))
    ++ codes "_"
    ++ take 14 (sha1 original_content)

-- " ".join(text.split())
abbrev pub compact : Text → Text
compact t = join (codes " ") (words t)

unfoldable pub summarize_for_reference : (Text → ℕ → Text) → Text → Text
summarize_for_reference shorten content = shorten (compact content) 240

unfoldable pub build_retrieval_hint : Text → Text → Text
build_retrieval_hint ref_id content_type =
    codes "Retrieve full "
    ++ content_type
    ++ codes " via GET /context/references/"
    ++ ref_id
    ++ codes " when exact raw bytes are needed."

unfoldable pub render_reference_placeholder : Text → Text → Text → Text
render_reference_placeholder ref_id summary retrieval_hint = join (codes "\n") (
    (codes "[context_ref:" ++ ref_id ++ codes "]")
    ∷ (codes "summary: " ++ summary)
    ∷ retrieval_hint
    ∷ [])
