-- ===== src/Store/Order.antt =====
-- ORDER BY created_at and LIMIT. SQLite sorts stably, so rows of one time stay in row order.
pub mod Sorted
pub mod Counts
use syncore.Common.{ℕ, ◌-◌, ◌<◌, List, [], ◌∷◌, ltb, if◌then◌else◌, length, drop, All}

module _ {A : Type 0} (key : A → ℕ) where
  -- A row goes behind those that sort no later.
  abbrev pub insert_asc : A → List A → List A
  insert_asc x [] = x ∷ []
  insert_asc x (y ∷ ys) = if ltb (key x) (key y) then x ∷ y ∷ ys else y ∷ insert_asc x ys

  abbrev pub sort_asc_onto : List A → List A → List A
  sort_asc_onto sorted [] = sorted
  sort_asc_onto sorted (x ∷ xs) = sort_asc_onto (insert_asc x sorted) xs

  -- ORDER BY key ASC
  unfoldable pub order_asc : List A → List A
  order_asc = sort_asc_onto []

  abbrev pub insert_desc : A → List A → List A
  insert_desc x [] = x ∷ []
  insert_desc x (y ∷ ys) = if ltb (key y) (key x) then x ∷ y ∷ ys else y ∷ insert_desc x ys

  abbrev pub sort_desc_onto : List A → List A → List A
  sort_desc_onto sorted [] = sorted
  sort_desc_onto sorted (x ∷ xs) = sort_desc_onto (insert_desc x sorted) xs

  -- ORDER BY key DESC
  unfoldable pub order_desc : List A → List A
  order_desc = sort_desc_onto []

  -- Every row is older than the rows behind it.
  abbrev pub IsChronological : List A → Type 0
  IsChronological [] = Unit
  IsChronological (x ∷ xs) = All (λ y. key x < key y) xs × IsChronological xs

-- The last `n` elements.
abbrev pub last : {A : Type 0} → ℕ → List A → List A
last n xs = drop (length xs - n) xs
