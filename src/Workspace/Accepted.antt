-- ===== src/Workspace/Accepted.antt =====
-- What verify_diff_risk accepts.
use syncore.Common.{
  ℕ, ◌≤◌, ◌≡◌, arith, ltb, Text, true, false, Option, none, some, List, [], ◌∷◌, All, length,
  Bool-cases, inl, inr,
}
use syncore.Workspace.{under_any, has_items}
use syncore.Workspace.Granted.{IsOutside, under_any-IsOutside}
use syncore.Workspace.Resolver.{unique}
use syncore.Workspace.Risk.{ok, verify_diff_risk, count_changed, violations}

-- A positive limit is not exceeded; other values set none.
abbrev pub IsWithin : Option ℕ → ℕ → Type 0
IsWithin none n = Unit
IsWithin (some limit) n = ltb 0 limit ≡ true → n ≤ limit

pub record Accepted (changed forbidden : List Text) (most : Option ℕ) : Type 0 where
  pub untouched : All (λ path. All (IsOutside path) forbidden) changed
  pub few : IsWithin most (length (unique changed))

no_violations :
    (changed forbidden : List Text)
    → has_items (violations changed forbidden) ≡ false
    → All (λ path. All (IsOutside path) forbidden) changed
no_violations [] forbidden h = tt
no_violations (path ∷ changed) forbidden h = elim (Bool-cases (under_any path forbidden)) [
  | inl e ↦ absurd (ground (arith, e, h))
  | inr e ↦
      (under_any-IsOutside path forbidden e, no_violations changed forbidden (ground (arith, e, h)))
]

nothing_forbidden : (changed : List Text) → All (λ path. All (IsOutside path) []) changed
nothing_forbidden [] = tt
nothing_forbidden (path ∷ changed) = (tt, nothing_forbidden changed)

count_changed-IsWithin :
    (changed : List Text) (most : Option ℕ)
    → count_changed changed most ≡ ok
    → IsWithin most (length (unique changed))
count_changed-IsWithin changed none h = tt
count_changed-IsWithin changed (some limit) h = λ positive. ground (arith, h, positive)

-- When verify_diff_risk answers ok, no changed file is a forbidden path or below one, and there are at
-- most as many different changed files as a positive limit allows.
pub verify_diff_risk-Accepted :
    (changed forbidden : List Text) (most : Option ℕ)
    → verify_diff_risk changed forbidden most ≡ ok
    → Accepted changed forbidden most
unfolding verify_diff_risk
verify_diff_risk-Accepted changed [] most h = record {
  untouched = nothing_forbidden changed;
  few = count_changed-IsWithin changed most h;
}
verify_diff_risk-Accepted changed (f ∷ forbidden) most h =
    elim (Bool-cases (has_items (violations changed (f ∷ forbidden)))) [
      | inl e ↦ absurd (ground (arith, e, h))
      | inr e ↦ record {
        untouched = no_violations changed (f ∷ forbidden) e;
        few = count_changed-IsWithin changed most (ground (arith, e, h));
      }
    ]
