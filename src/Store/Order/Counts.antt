-- ===== src/Store/Order/Counts.antt =====
-- ORDER BY neither adds nor drops rows.
use syncore.Common.{
  ℕ, suc, ◌+◌, ◌≡◌, refl, arith, Bool, ◌&&◌, List, [], ◌∷◌, if◌then◌else◌, length, count_if, keep,
}
use syncore.Store.Order.{insert_asc, sort_asc_onto, order_asc}

module _ {A : Type 0} (key : A → ℕ) where
  length-insert_asc : (x : A) (xs : List A) → length (insert_asc key x xs) ≡ suc (length xs)
  length-insert_asc x [] = refl
  length-insert_asc x (y ∷ ys) = ground (arith, length-insert_asc x ys)

  length-sort_asc :
      (sorted xs : List A) → length (sort_asc_onto key sorted xs) ≡ length sorted + length xs
  length-sort_asc sorted [] = omega arith
  length-sort_asc sorted (x ∷ xs) =
      omega (arith, length-sort_asc (insert_asc key x sorted) xs, length-insert_asc x sorted)

  pub length-order_asc : (xs : List A) → length (order_asc key xs) ≡ length xs
  unfolding order_asc
  length-order_asc xs = omega (arith, length-sort_asc [] xs)

  module _ (p : A → Bool) where
    count-insert_asc :
        (x : A) (xs : List A)
        → count_if p (insert_asc key x xs) ≡ (if p x then 1 else 0) + count_if p xs
    count-insert_asc x [] = ground arith
    count-insert_asc x (y ∷ ys) = ground (arith, count-insert_asc x ys)

    count-sort_asc :
        (sorted xs : List A)
        → count_if p (sort_asc_onto key sorted xs) ≡ count_if p sorted + count_if p xs
    count-sort_asc sorted [] = omega arith
    count-sort_asc sorted (x ∷ xs) =
        ground (arith, count-sort_asc (insert_asc key x sorted) xs, count-insert_asc x sorted)

    pub count-order_asc : (xs : List A) → count_if p (order_asc key xs) ≡ count_if p xs
    unfolding order_asc
    count-order_asc xs = omega (arith, count-sort_asc [] xs)

    pub count-keep :
        (q : A → Bool) (xs : List A) → count_if p (keep q xs) ≡ count_if (λ x. q x && p x) xs
    count-keep q [] = refl
    count-keep q (x ∷ xs) = ground (arith, count-keep q xs)
