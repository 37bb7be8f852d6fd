-- ===== src/Autonomy/Gate/Stages.antt =====
-- next_stage against the plain description: the first stage with no completion in the cycle.
use syncore.Common.{
  ℕ, ◌≤◌, ◌<◌, ◌≡◌, refl, ap, sym, ◌∙◌, Text, text_eq, text_eq→eq, text_eq_refl, Bool, true, not,
  ◌&&◌, ◌||◌, some, List, [], ◌∷◌, ◌++◌, arith, any, first, count_if, count_if-le, length, All,
  Bool-cases, inl, inr,
}
use mathlib.Core.Path.{subst}
use syncore.Models.{ProjectEvent}
use syncore.Autonomy.Values.{has_type, in_cycle, stage_of}
use syncore.Autonomy.Gate.{next_stage, completed_stages, first_missing, member}

-- The event completes the stage in the cycle.
abbrev pub completes : ℕ → Text → ProjectEvent → Bool
completes cycle stage e =
    has_type "autonomy.stage.completed" e && in_cycle cycle e && text_eq (stage_of e) stage

abbrev pub is_completed : List ProjectEvent → ℕ → Text → Bool
is_completed events cycle stage = any (completes cycle stage) events

member_of_eq :
    (a b : Text) (names : List Text) → text_eq a b ≡ true → member b names ≡ member a names
member_of_eq a b names e = ap (λ t. member t names) (sym (text_eq→eq a b e))

-- The set of the first loop, asked for a stage of `names`.
member-completed_stages :
    (cycle : ℕ) (names : List Text) (stage : Text) (events : List ProjectEvent) (done : List Text)
    → member stage names ≡ true
    → member stage (completed_stages cycle names done events)
      ≡ (member stage done || is_completed events cycle stage)
unfolding completed_stages
member-completed_stages cycle names stage [] done m = ground arith
member-completed_stages cycle names stage (e ∷ es) done m =
    elim (Bool-cases
      (has_type "autonomy.stage.completed" e && in_cycle cycle e && member (stage_of e) names)) [
        | inl t ↦
            rw t (
              member-completed_stages cycle names stage es (stage_of e ∷ done) m
              ∙ ground (arith, t))
        | inr f ↦ rw f (
            member-completed_stages cycle names stage es done m
            ∙ elim (Bool-cases (text_eq (stage_of e) stage)) [
              | inl q ↦ ground (arith, f, m, member_of_eq (stage_of e) stage names q)
              | inr q ↦ ground (arith, q)
            ])
      ]

first_missing-eq-first :
    (cycle : ℕ) (names : List Text) (events : List ProjectEvent) (rest : List Text)
    → All (λ stage. member stage names ≡ true) rest
    → first_missing (completed_stages cycle names [] events) rest
      ≡ first (λ stage. not (is_completed events cycle stage)) rest
unfolding first_missing
first_missing-eq-first cycle names events [] a = refl
first_missing-eq-first cycle names events (stage ∷ rest) a = ground (
  arith,
  member-completed_stages cycle names stage events [] a.0,
  first_missing-eq-first cycle names events rest a.1,
)

members_cons :
    (x : Text) (names rest : List Text)
    → All (λ stage. member stage names ≡ true) rest
    → All (λ stage. member stage (x ∷ names) ≡ true) rest
members_cons x names [] a = a
members_cons x names (y ∷ ys) a = (ground (arith, a.0), members_cons x names ys a.1)

members : (names : List Text) → All (λ stage. member stage names ≡ true) names
members [] = tt
members (x ∷ xs) = (ground (arith, text_eq_refl x), members_cons x xs xs (members xs))

-- next_stage returns the first of the given stages that no completion event of the cycle names, and
-- None when each of them has one, whatever else the events hold.
pub next_stage-eq-first :
    (events : List ProjectEvent) (cycle : ℕ) (names : List Text)
    → next_stage events cycle names ≡ first (λ stage. not (is_completed events cycle stage)) names
unfolding next_stage
next_stage-eq-first events cycle names =
    first_missing-eq-first cycle names events names (members names)

-- The stages of `names` that are completed in the cycle.
abbrev pub completed_count : List ProjectEvent → ℕ → List Text → ℕ
completed_count events cycle names = count_if (is_completed events cycle) names

is_completed-snoc :
    (events : List ProjectEvent) (e : ProjectEvent) (cycle : ℕ) (stage : Text)
    → is_completed (events ++ e ∷ []) cycle stage
      ≡ (is_completed events cycle stage || completes cycle stage e)
is_completed-snoc [] e cycle stage = ground arith
is_completed-snoc (x ∷ xs) e cycle stage = ground (arith, is_completed-snoc xs e cycle stage)

count_mono :
    (events : List ProjectEvent) (e : ProjectEvent) (cycle : ℕ) (names : List Text)
    → completed_count events cycle names ≤ completed_count (events ++ e ∷ []) cycle names
count_mono events e cycle [] = omega arith
count_mono events e cycle (x ∷ xs) =
    ground (arith, is_completed-snoc events e cycle x, count_mono events e cycle xs)

count_step :
    (events : List ProjectEvent) (e : ProjectEvent) (cycle : ℕ) (stage : Text) (names : List Text)
    → first (λ x. not (is_completed events cycle x)) names ≡ some stage
    → completes cycle stage e ≡ true
    → completed_count events cycle names < completed_count (events ++ e ∷ []) cycle names
count_step events e cycle stage [] h d = absurd (ground (arith, h))
count_step events e cycle stage (x ∷ xs) h d = elim (Bool-cases (is_completed events cycle x)) [
  | inl q ↦ ground (
    arith,
    q,
    is_completed-snoc events e cycle x,
    count_step events e cycle stage xs (ground (arith, h, q)) d,
  )
  | inr q ↦
      let same : x ≡ stage = ground (arith, h, q) in
      ground (
        arith,
        q,
        is_completed-snoc events e cycle x,
        count_mono events e cycle xs,
        subst (λ s. completes cycle s e ≡ true) (sym same) d,
      )
]

-- A completion event of the stage that next_stage asks for strictly raises the number of stages that
-- are completed in the cycle, and that number never passes the number of stages.
pub next_stage-progress :
    (events : List ProjectEvent) (e : ProjectEvent) (cycle : ℕ) (names : List Text) (stage : Text)
    → next_stage events cycle names ≡ some stage
    → completes cycle stage e ≡ true
    → (completed_count events cycle names < completed_count (events ++ e ∷ []) cycle names)
      × (completed_count (events ++ e ∷ []) cycle names ≤ length names)
next_stage-progress events e cycle names stage h d = (
  count_step events e cycle stage names (sym (next_stage-eq-first events cycle names) ∙ h) d,
  count_if-le (is_completed (events ++ e ∷ []) cycle) names,
)
