-- ===== src/Autonomy/Strategy/Best.antt =====
-- The strategy of a replan is the one with the best score.
use mathlib.Core.Path.{subst}
use syncore.Common.{
  sym, ℕ, leb, ◌≡◌, refl, arith, if◌then◌else◌, Text, text_eq, ℤ, lebℤ, Bool, true, false, none,
  List, [], ◌∷◌, any, All, Bool-cases, inl, inr, reverse,
}
use syncore.Models.{ProjectEvent}
use syncore.Autonomy.Values.{latest_event}
use syncore.Store.{Store}
use syncore.Store.Returns.{Returns}
use syncore.Store.Events.{list_project_events, newest_first}
use syncore.Autonomy.Strategy.{
  default_strategy, best_of, better, candidates_by, candidates_for, reason_of, score, is_strategy,
  replan_strategies, best_strategy_from_feedback, select_replan_strategy,
}

lebℤ-trans : (a b c : ℤ) → lebℤ a b ≡ true → lebℤ b c ≡ true → lebℤ a c ≡ true
lebℤ-trans a b c h k = ground (arith, h, k)

module _ (key : Text → ℤ) where
  better-ge :
      (best c : Text)
      → (lebℤ (key best) (key (better key best c)) ≡ true)
        × (lebℤ (key c) (key (better key best c)) ≡ true)
  better-ge best c = elim (Bool-cases (lebℤ (key c) (key best))) [
    | inl e ↦ rw e (ground arith, e)
    | inr e ↦ rw e (ground (arith, e), ground arith)
  ]

  -- No candidate has a greater key.
  best_of-ge :
      (best : Text) (candidates : List Text)
      → (lebℤ (key best) (key (best_of key best candidates)) ≡ true)
        × All (λ c. lebℤ (key c) (key (best_of key best candidates)) ≡ true) candidates
  best_of-ge best [] = (ground arith, tt)
  best_of-ge best (c ∷ candidates) =
      let rest = best_of-ge (better key best c) candidates in
      let here = better-ge best c in
      let top = key (best_of key (better key best c) candidates) in
      (
        lebℤ-trans (key best) (key (better key best c)) top here.0 rest.0,
        (lebℤ-trans (key c) (key (better key best c)) top here.1 rest.0, rest.1),
      )

  -- The best one is a candidate: what all of them pass, it passes.
  best_of-All :
      (P : Text → Bool) (best : Text) (candidates : List Text)
      → P best ≡ true
      → All (λ c. P c ≡ true) candidates
      → P (best_of key best candidates) ≡ true
  best_of-All P best [] h k = h
  best_of-All P best (c ∷ candidates) h k =
      best_of-All P (better key best c) candidates (better-passes best c h k.0) k.1
    where
      better-passes : (best c : Text) → P best ≡ true → P c ≡ true → P (better key best c) ≡ true
      better-passes best c h k = ground (arith, h, k)

-- What the strategy of a replan is, with the feedback that is there.
abbrev pub Best : List ProjectEvent → Text → Type 0
Best feedback name =
    (any (text_eq name) replan_strategies ≡ true)
    × All (λ c. lebℤ (score feedback c) (score feedback name) ≡ true) replan_strategies

abbrev is_replan : Text → Bool
is_replan name = any (text_eq name) replan_strategies

abbrev pub feedback_of : Store → List ProjectEvent
feedback_of s = reverse (newest_first none 500 s)

known-kept :
    (name : Text)
    → is_replan name ≡ true
    → (if is_strategy name then name else default_strategy) ≡ name
known-kept name h = elim (Bool-cases (text_eq name default_strategy)) [
  | inl e ↦ rw e refl
  | inr e ↦ rw (e, h) refl
]

-- The four candidates in some order.
abbrev Covers : List Text → Type 1
Covers candidates = (P : Text → Type 0) → All P candidates → All P replan_strategies

-- Candidates of a replan, and all of them.
abbrev Replans : Text × List Text → Type 1
Replans c = All (λ name. is_replan name ≡ true) (c.0 ∷ c.1) × Covers (c.0 ∷ c.1)

candidates_by-Replans : (short risk coder : Bool) → Replans (candidates_by short risk coder)
candidates_by-Replans true _ _ =
    ((refl, (refl, (refl, (refl, tt)))), λ P k. (k.1.0, (k.0, (k.1.1.0, (k.1.1.1.0, tt)))))
candidates_by-Replans false true _ =
    ((refl, (refl, (refl, (refl, tt)))), λ P k. (k.1.1.0, (k.1.0, (k.0, (k.1.1.1.0, tt)))))
candidates_by-Replans false false true =
    ((refl, (refl, (refl, (refl, tt)))), λ P k. (k.1.1.0, (k.1.0, (k.1.1.1.0, (k.0, tt)))))
candidates_by-Replans false false false = ((refl, (refl, (refl, (refl, tt)))), λ P k. k)

best_strategy_from_feedback-Best :
    (first : Text) (others : List Text) (s : Store)
    → Replans (first, others)
    → Returns
        (λ name t. Best (feedback_of s) name × (t ≡ s))
        (best_strategy_from_feedback first others s)
unfolding best_strategy_from_feedback list_project_events
best_strategy_from_feedback-Best first others s r =
    let key = score (feedback_of s) in
    let best = best_of key first others in
    let known = best_of-All key is_replan first others r.0.0 r.0.1 in
    subst (λ name. Best (feedback_of s) name × (s ≡ s)) (sym (known-kept best known))
      ((known, r.1 (λ c. lebℤ (key c) (key best) ≡ true) (best_of-ge key first others)), refl)

-- Past the first cycle the strategy that is chosen is one of the four of a replan, and none of them has
-- a greater score in the newest feedback events, whatever the candidates begin with. The call returns
-- and writes nothing.
pub select_replan_strategy-Best :
    (events : List ProjectEvent) (stage : Text) (cycle : ℕ) (execute_role : Text) (s : Store)
    → leb cycle 1 ≡ false
    → Returns
        (λ name t. Best (feedback_of s) name × (t ≡ s))
        (select_replan_strategy events stage cycle execute_role s)
unfolding select_replan_strategy
select_replan_strategy-Best events stage cycle execute_role s h =
    let reason = reason_of (latest_event events "autonomy.quality.failed") in
    let candidates = candidates_for reason stage execute_role in
    rw h
      (best_strategy_from_feedback-Best candidates.0 candidates.1 s (candidates_by-Replans _ _ _))
