-- ===== src/Execution/Failover/Order.antt =====
-- The two loops of _provider_candidates, and sorted.
use syncore.Common.{
  ◌≡◌, refl, arith, Text, text_eq, text_eq→eq, is_empty, true, false, ◌||◌, List, [], ◌∷◌, ◌++◌,
  text_in, sort_texts, insert_text, Bool-cases, inl, inr, if◌then◌else◌,
}
use mathlib.Core.Path.{subst}
use syncore.Execution.Providers.{add_candidates, add_names}

-- No text stands in the list twice.
abbrev pub IsDistinct : List Text → Type 0
IsDistinct [] = Unit
IsDistinct (t ∷ ts) = (text_in t ts ≡ false) × IsDistinct ts

text_eq_sym : (a b : Text) → text_eq a b ≡ text_eq b a
text_eq_sym [] [] = refl
text_eq_sym [] (y ∷ b) = refl
text_eq_sym (x ∷ a) [] = refl
text_eq_sym (x ∷ a) (y ∷ b) = ground (arith, text_eq_sym a b)

text_in-snoc :
    (t u : Text) (ts : List Text)
    → text_in t (ts ++ u ∷ []) ≡ (if text_in t ts then true else text_eq u t)
text_in-snoc t u [] = ground arith
text_in-snoc t u (v ∷ ts) = ground (arith, text_in-snoc t u ts)

IsDistinct-snoc :
    (u : Text) (ts : List Text) → text_in u ts ≡ false → IsDistinct ts → IsDistinct (ts ++ u ∷ [])
IsDistinct-snoc u [] n d = (refl, tt)
IsDistinct-snoc u (t ∷ ts) n d = (
  ground (arith, text_in-snoc t u ts, n, d.0, text_eq_sym t u),
  IsDistinct-snoc u ts (ground (arith, n)) d.1,
)

pub add_names-IsDistinct :
    (ordered cs : List Text) → IsDistinct ordered → IsDistinct (add_names ordered cs)
add_names-IsDistinct ordered [] d = d
add_names-IsDistinct ordered (c ∷ cs) d = elim (Bool-cases (text_in c ordered)) [
  | inl e ↦ rw e (add_names-IsDistinct ordered cs d)
  | inr e ↦ rw e (add_names-IsDistinct (ordered ++ c ∷ []) cs (IsDistinct-snoc c ordered e d))
]

pub add_candidates-IsDistinct :
    (ordered cs : List Text) → IsDistinct ordered → IsDistinct (add_candidates ordered cs)
add_candidates-IsDistinct ordered [] d = d
add_candidates-IsDistinct ordered (c ∷ cs) d = elim (Bool-cases (is_empty c || text_in c ordered)) [
  | inl e ↦ rw e (add_candidates-IsDistinct ordered cs d)
  | inr e ↦ rw e (
      add_candidates-IsDistinct (ordered ++ c ∷ []) cs
        (IsDistinct-snoc c ordered (ground (arith, e)) d))
]

-- What is in the list stays in it.
pub add_names-stays :
    (t : Text) (ordered cs : List Text)
    → text_in t ordered ≡ true
    → text_in t (add_names ordered cs) ≡ true
add_names-stays t ordered [] h = h
add_names-stays t ordered (c ∷ cs) h = elim (Bool-cases (text_in c ordered)) [
  | inl e ↦ rw e (add_names-stays t ordered cs h)
  | inr e ↦
      rw e (add_names-stays t (ordered ++ c ∷ []) cs (ground (arith, text_in-snoc t c ordered, h)))
]

pub add_candidates-stays :
    (t : Text) (ordered cs : List Text)
    → text_in t ordered ≡ true
    → text_in t (add_candidates ordered cs) ≡ true
add_candidates-stays t ordered [] h = h
add_candidates-stays t ordered (c ∷ cs) h = elim (Bool-cases (is_empty c || text_in c ordered)) [
  | inl e ↦ rw e (add_candidates-stays t ordered cs h)
  | inr e ↦
      rw e (
        add_candidates-stays t (ordered ++ c ∷ []) cs (ground (arith, text_in-snoc t c ordered, h)))
]

-- Every name is added.
pub add_names-adds :
    (t : Text) (ordered cs : List Text)
    → text_in t cs ≡ true
    → text_in t (add_names ordered cs) ≡ true
add_names-adds t ordered [] h = absurd (ground (arith, h))
add_names-adds t ordered (c ∷ cs) h = elim (Bool-cases (text_eq c t)) [
  | inr n ↦ elim (Bool-cases (text_in c ordered)) [
    | inl e ↦ rw e (add_names-adds t ordered cs (ground (arith, n, h)))
    | inr e ↦ rw e (add_names-adds t (ordered ++ c ∷ []) cs (ground (arith, n, h)))
  ]
  | inl y ↦ elim (Bool-cases (text_in c ordered)) [
    | inl e ↦
        rw e (
          add_names-stays t ordered cs (subst (λ u. text_in u ordered ≡ true) (text_eq→eq c t y) e))
    | inr e ↦
        rw e
          (add_names-stays t (ordered ++ c ∷ []) cs (ground (arith, text_in-snoc t c ordered, y)))
  ]
]

-- Sorting keeps every text.
text_in-insert :
    (t u : Text) (ts : List Text)
    → text_in t (insert_text u ts) ≡ (if text_eq u t then true else text_in t ts)
text_in-insert t u [] = refl
text_in-insert t u (v ∷ ts) = ground (arith, text_in-insert t u ts)

pub text_in-sort : (t : Text) (ts : List Text) → text_in t (sort_texts ts) ≡ text_in t ts
text_in-sort t [] = refl
text_in-sort t (u ∷ ts) = ground (arith, text_in-insert t u (sort_texts ts), text_in-sort t ts)

-- The first name stays the first.
pub add_names-head :
    (p : Text) (ts cs : List Text) → (us : List Text) × (add_names (p ∷ ts) cs ≡ p ∷ us)
add_names-head p ts [] = (ts, refl)
add_names-head p ts (c ∷ cs) = elim (Bool-cases (text_in c (p ∷ ts))) [
  | inl e ↦ rw e (add_names-head p ts cs)
  | inr e ↦ rw e (add_names-head p (ts ++ c ∷ []) cs)
]

pub add_candidates-head :
    (p : Text) (ts cs : List Text) → (us : List Text) × (add_candidates (p ∷ ts) cs ≡ p ∷ us)
add_candidates-head p ts [] = (ts, refl)
add_candidates-head p ts (c ∷ cs) = elim (Bool-cases (is_empty c || text_in c (p ∷ ts))) [
  | inl e ↦ rw e (add_candidates-head p ts cs)
  | inr e ↦ rw e (add_candidates-head p (ts ++ c ∷ []) cs)
]
