-- ===== src/Store/References/WriteOnce.antt =====
-- The context references as a map from ids to texts, each written once.
use syncore.Common.{
  suc, Bool, ℕ, first-passes, ◌≡◌, refl, arith, Text, text_eq, text_eq→eq, text_eq_refl, true,
  false, Option, none, some, List, [], ◌∷◌, ◌++◌, any, if◌then◌else◌, first, update_where,
  Bool-cases, inl, inr, sym, ◌∙◌, ap,
}
use mathlib.Core.Path.{subst}
use mathlib.Core.Option.{some-injective}
use syncore.Store.{Store, Result, ok, err, Reference, refer, foreign_key}
use syncore.Store.References.{
  ReferenceCreate, reference_is, new_reference, assign_reference, upsert_reference, persisted,
  upsert_context_reference, get_context_reference, accepts_reference,
}

abbrev pub content_of : Option Reference → Option Text
content_of none = none
content_of (some r) = some r.original_content

-- The text that the id stands for.
abbrev pub content_in : List Reference → Text → Option Text
content_in rows k = content_of (first (reference_is k) rows)

-- A map that keeps the first text of each id.
abbrev pub or_new : Option Text → Text → Option Text
or_new none content = some content
or_new (some old) content = some old

abbrev pub write_once : Text → Text → (Text → Option Text) → Text → Option Text
write_once k content m j = if text_eq k j then or_new (m j) content else m j

-- The rows that are there keep their texts.
content_in-update_where :
    (n : ReferenceCreate) (rows : List Reference) (j : Text)
    → content_in (update_where (reference_is n.ref_id) (assign_reference n) rows) j
      ≡ content_in rows j
content_in-update_where n [] j = refl
content_in-update_where n (r ∷ rows) j = elim (Bool-cases (text_eq r.ref_id n.ref_id)) [
  | inl e ↦ elim (Bool-cases (text_eq r.ref_id j)) [
    | inl f ↦ rw (e, f) refl
    | inr f ↦ rw (e, f) (content_in-update_where n rows j)
  ]
  | inr e ↦ elim (Bool-cases (text_eq r.ref_id j)) [
    | inl f ↦ rw (e, f) refl
    | inr f ↦ rw (e, f) (content_in-update_where n rows j)
  ]
]

-- A row behind the others is found when they do not have its id.
content_in-append :
    (rows : List Reference) (r : Reference) (j : Text)
    → any (reference_is r.ref_id) rows ≡ false
    → content_in (rows ++ r ∷ []) j ≡ write_once r.ref_id r.original_content (content_in rows) j
content_in-append [] r j h = elim (Bool-cases (text_eq r.ref_id j)) [
  | inl e ↦ rw e refl
  | inr e ↦ rw e refl
]
content_in-append (q ∷ rows) r j h = elim (Bool-cases (text_eq q.ref_id j)) [
  | inl e ↦ elim (Bool-cases (text_eq r.ref_id j)) [
    | inl f ↦ rw (e, f) refl
    | inr f ↦ rw (e, f) refl
  ]
  | inr e ↦ rw e (content_in-append rows r j (ground (arith, h)))
]

content_in-any :
    (rows : List Reference) (k : Text)
    → any (reference_is k) rows ≡ true
    → (old : Text) × (content_in rows k ≡ some old)
content_in-any [] k h = absurd (ground (arith, h))
content_in-any (r ∷ rows) k h = elim (Bool-cases (text_eq r.ref_id k)) [
  | inl e ↦ rw e (r.original_content, refl)
  | inr e ↦ rw e (content_in-any rows k (ground (arith, e, h)))
]

upsert_reference-write_once :
    (n : ReferenceCreate) (now : ℕ) (rows : List Reference) (j : Text)
    → content_in (upsert_reference n now rows) j
      ≡ write_once n.ref_id n.original_content (content_in rows) j
upsert_reference-write_once n now rows j = elim (Bool-cases (any (reference_is n.ref_id) rows)) [
  | inl e ↦ rw e (content_in-update_where n rows j ∙ sym (kept e))
  | inr e ↦ rw e (content_in-append rows (new_reference n now) j e)
]
  where
    kept :
        any (reference_is n.ref_id) rows ≡ true
        → write_once n.ref_id n.original_content (content_in rows) j ≡ content_in rows j
    kept e = elim (Bool-cases (text_eq n.ref_id j)) [
      | inl f ↦
          let old : (x : Text) × (content_in rows j ≡ some x) =
            subst (λ k. (x : Text) × (content_in rows k ≡ some x)) (text_eq→eq n.ref_id j f)
              (content_in-any rows n.ref_id e) in
          rw (f, old.1) refl
      | inr f ↦ rw f refl
    ]

found_row :
    (k : Text) (o : Option Reference) (c : Text)
    → content_of o ≡ some c
    → (r : Reference) × ((o ≡ some r) × (r.original_content ≡ c))
found_row k none c h = absurd (ground (arith, h))
found_row k (some r) c h = (r, (refl, some-injective _ _ h))

-- What an upsert leaves behind and answers.
pub record Upserted (n : ReferenceCreate) (s : Store) : Type 0 where
  -- each id stands for the text that it had, and the new id for the new one
  pub contents :
      (j : Text)
      → content_in (upsert_context_reference n s).1.references j
        ≡ write_once n.ref_id n.original_content (content_in s.references) j
  -- the call returns the row that is found from now on, under the id asked for
  pub row : Reference
  pub returned : (upsert_context_reference n s).0 ≡ ok row
  pub found :
      get_context_reference n.ref_id (upsert_context_reference n s).1
      ≡ (ok (some row), (upsert_context_reference n s).1)
  pub same_id : row.ref_id ≡ n.ref_id

-- The upsert of a reference that is there already, or whose task is there.
accepted-Upserted : (n : ReferenceCreate) (s : Store) → accepts_reference n s ≡ true → Upserted n s
unfolding upsert_context_reference get_context_reference
accepted-Upserted n s accepted =
    let now = s.clock s.tick in
    let rows = upsert_reference n now s.references in
    let h = upsert_reference-write_once n now s.references in
    let c = or_new_some (content_in s.references n.ref_id) n.original_content in
    let r =
      found_row n.ref_id (first (reference_is n.ref_id) rows) c.0
        (h n.ref_id ∙ (rw (text_eq_refl n.ref_id) c.1)) in
    let out : Result Reference × Store = (
      persisted (first (reference_is n.ref_id) rows),
      record s { references = rows; tick = suc s.tick },
    ) in
    let made : upsert_context_reference n s ≡ out = ap (λ b. refer b out s) accepted in
    record {
      contents =
          subst
            (λ (o : Result Reference × Store).
              (j : Text)
              → content_in o.1.references j
                ≡ write_once n.ref_id n.original_content (content_in s.references) j)
            (sym made) h;
      row = r.0;
      returned = ap (λ o. o.0) made ∙ ap persisted r.1.0;
      found =
          subst
            (λ (o : Result Reference × Store).
              get_context_reference n.ref_id o.1 ≡ (ok (some r.0), o.1))
            (sym made) (ap (λ o. (ok o, out.1)) r.1.0);
      same_id =
          text_eq→eq r.0.ref_id n.ref_id (first-passes (reference_is n.ref_id) rows r.0 r.1.0);
    }
  where
    or_new_some : (o : Option Text) (x : Text) → (y : Text) × (or_new o x ≡ some y)
    or_new_some none x = (x, refl)
    or_new_some (some y) x = (y, refl)

-- What an upsert does, by whether the foreign key accepts it.
abbrev pub Upserts : Bool → ReferenceCreate → Store → Type 0
Upserts true n s = Upserted n s
Upserts false n s = upsert_context_reference n s ≡ (err foreign_key, record s { tick = suc s.tick })

-- An upsert of an id that is there, or for a task that is there, returns and finds its own row again,
-- and the store behaves as a map from ids to texts in which the first text of an id is never
-- overwritten. An upsert of a new id for a missing task raises and writes nothing.
pub upsert_context_reference-Upserts :
    (n : ReferenceCreate) (s : Store) → Upserts (accepts_reference n s) n s
unfolding upsert_context_reference
upsert_context_reference-Upserts n s = elim (Bool-cases (accepts_reference n s)) [
  | inl e ↦ subst (λ b. Upserts b n s) (sym e) (accepted-Upserted n s e)
  | inr e ↦
      subst (λ b. Upserts b n s) (sym e)
        (ap
          (λ b.
            refer b
              (
                persisted (
                    first (reference_is n.ref_id)
                      (upsert_reference n (s.clock s.tick) s.references)),
                record s {
                  references = upsert_reference n (s.clock s.tick) s.references;
                  tick = suc s.tick;
                },
              )
              s)
          e)
]
