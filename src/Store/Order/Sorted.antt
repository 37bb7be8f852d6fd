-- ===== src/Store/Order/Sorted.antt =====
-- Rows that were inserted as time went by: sorting them by time is the order of insertion.
use syncore.Common.{
  ℕ, zero, suc, ◌-◌, ◌≤◌, ◌<◌, ◌≡◌, refl, ap, ◌∙◌, sym, List, [], ◌∷◌, ◌++◌, arith, leb, ltb,
  if◌then◌else◌, length, take, drop, reverse, reverse-append, append_assoc, append-nil,
  length-reverse, All, Bool-cases, inl, inr, keep, Bool, leb→le, reverse-reverse,
}
use syncore.Store.Order.{
  insert_asc, insert_desc, sort_asc_onto, sort_desc_onto, order_asc, order_desc, IsChronological,
  last,
}

-- the order between two lists of rows
abbrev AllBefore : {A : Type 0} → (A → ℕ) → List A → List A → Type 0
AllBefore key xs ys = All (λ x. All (λ y. key x < key y) ys) xs

module _ {A : Type 0} (key : A → ℕ) where
  insert_asc-last :
      (x : A) (sorted : List A)
      → All (λ y. key y < key x) sorted
      → insert_asc key x sorted ≡ sorted ++ x ∷ []
  insert_asc-last x [] h = refl
  insert_asc-last x (y ∷ ys) h = ground (arith, insert_asc-last x ys)

  insert_desc-first :
      (x : A) (sorted : List A)
      → All (λ y. key y < key x) sorted
      → insert_desc key x sorted ≡ x ∷ sorted
  insert_desc-first x [] h = refl
  insert_desc-first x (y ∷ ys) h = ground arith

  heads :
      (x : A) (xs sorted : List A) → AllBefore key sorted (x ∷ xs) → All (λ y. key y < key x) sorted
  heads x xs [] h = tt
  heads x xs (y ∷ ys) h = (h.0.0, heads x xs ys h.1)

  tails : (x : A) (xs sorted : List A) → AllBefore key sorted (x ∷ xs) → AllBefore key sorted xs
  tails x xs [] h = tt
  tails x xs (y ∷ ys) h = (h.0.1, tails x xs ys h.1)

  AllBefore-snoc :
      (x : A) (xs sorted : List A)
      → AllBefore key sorted xs
      → All (λ y. key x < key y) xs
      → AllBefore key (sorted ++ x ∷ []) xs
  AllBefore-snoc x xs [] h k = (k, tt)
  AllBefore-snoc x xs (y ∷ ys) h k = (h.0, AllBefore-snoc x xs ys h.1 k)

  sort_asc-chronological :
      (sorted xs : List A)
      → AllBefore key sorted xs
      → IsChronological key xs
      → sort_asc_onto key sorted xs ≡ sorted ++ xs
  sort_asc-chronological sorted [] h c = sym (append-nil sorted)
  sort_asc-chronological sorted (x ∷ xs) h c = rw (insert_asc-last x sorted (heads x xs sorted h)) (
      sort_asc-chronological (sorted ++ x ∷ []) xs
        (AllBefore-snoc x xs sorted (tails x xs sorted h) c.0) c.1
      ∙ append_assoc sorted (x ∷ []) xs)

  sort_desc-chronological :
      (sorted xs : List A)
      → AllBefore key sorted xs
      → IsChronological key xs
      → sort_desc_onto key sorted xs ≡ reverse xs ++ sorted
  sort_desc-chronological sorted [] h c = refl
  sort_desc-chronological sorted (x ∷ xs) h c =
      rw (insert_desc-first x sorted (heads x xs sorted h)) (
        sort_desc-chronological (x ∷ sorted) xs (c.0, tails x xs sorted h) c.1
        ∙ (sym (append_assoc (reverse xs) (x ∷ []) sorted)
            ∙ ap (λ l. l ++ sorted) (sym (reverse-append (x ∷ []) xs))))

  pub order_asc-chronological : (xs : List A) → IsChronological key xs → order_asc key xs ≡ xs
  unfolding order_asc
  order_asc-chronological xs c = sort_asc-chronological [] xs tt c

  pub order_desc-chronological :
      (xs : List A) → IsChronological key xs → order_desc key xs ≡ reverse xs
  unfolding order_desc
  order_desc-chronological xs c = sort_desc-chronological [] xs tt c ∙ append-nil (reverse xs)

  All-filtered :
      (x : A) (p : A → Bool) (xs : List A)
      → All (λ y. key x < key y) xs
      → All (λ y. key x < key y) (keep p xs)
  All-filtered x p [] h = h
  All-filtered x p (y ∷ ys) h = elim (Bool-cases (p y)) [
    | inl e ↦ rw e (h.0, All-filtered x p ys h.1)
    | inr e ↦ rw e (All-filtered x p ys h.1)
  ]

  pub IsChronological-keep :
      (p : A → Bool) (xs : List A) → IsChronological key xs → IsChronological key (keep p xs)
  IsChronological-keep p [] c = c
  IsChronological-keep p (x ∷ xs) c = elim (Bool-cases (p x)) [
    | inl e ↦ rw e (All-filtered x p xs c.0, IsChronological-keep p xs c.1)
    | inr e ↦ rw e (IsChronological-keep p xs c.1)
  ]

  pub IsChronological-snoc :
      (x : A) (xs : List A)
      → IsChronological key xs
      → All (λ y. key y < key x) xs
      → IsChronological key (xs ++ x ∷ [])
  IsChronological-snoc x [] c h = (tt, tt)
  IsChronological-snoc x (y ∷ ys) c h = (All-snoc ys c.0, IsChronological-snoc x ys c.1 h.1)
    where
      All-snoc :
          (zs : List A) → All (λ z. key y < key z) zs → All (λ z. key y < key z) (zs ++ x ∷ [])
      All-snoc [] a = (h.0, tt)
      All-snoc (z ∷ zs) a = (a.0, All-snoc zs a.1)

module _ {A : Type 0} where
  take_snoc :
      (n : ℕ) (x : A) (ys : List A)
      → take n (ys ++ x ∷ []) ≡ (if leb n (length ys) then take n ys else ys ++ x ∷ [])
  take_snoc zero x ys = ground arith
  take_snoc (suc zero) x [] = refl
  take_snoc (suc (suc n)) x [] = ground arith
  take_snoc (suc n) x (y ∷ ys) = ground (arith, take_snoc n x ys)

  drop_more : (n : ℕ) (x : A) (xs : List A) → n ≤ length xs → last n (x ∷ xs) ≡ last n xs
  drop_more n x xs h =
      ap (λ k. drop k (x ∷ xs)) {x = suc (length xs) - n} {y = suc (length xs - n)} (omega arith)

  drop_none : (n : ℕ) (x : A) (xs : List A) → length xs < n → last n (x ∷ xs) ≡ x ∷ xs
  drop_none n x xs h = ap (λ k. drop k (x ∷ xs)) {x = suc (length xs) - n} {y = 0} (omega arith)

  -- The newest first, cut to `n`, then turned round: the last `n`.
  pub reverse-take-reverse : (n : ℕ) (xs : List A) → reverse (take n (reverse xs)) ≡ last n xs
  reverse-take-reverse zero [] = refl
  reverse-take-reverse (suc n) [] = ap (λ k. drop k []) {x = 0} {y = 0 - suc n} (omega arith)
  reverse-take-reverse n (x ∷ xs) = elim (Bool-cases (leb n (length (reverse xs)))) [
    | inl e ↦
        ap (λ l. reverse (take n l)) (reverse-append (x ∷ []) xs)
        ∙ (ap reverse {y = take n (reverse xs)} (take_snoc n x (reverse xs) ∙ rw e refl)
            ∙ (reverse-take-reverse n xs
                ∙ sym (drop_more n x xs (omega (arith, leb→le _ _ e, length-reverse xs)))))
    | inr e ↦
        ap (λ l. reverse (take n l)) (reverse-append (x ∷ []) xs)
        ∙ (ap reverse {y = reverse (x ∷ xs)}
              (take_snoc n x (reverse xs) ∙ rw e (sym (reverse-append (x ∷ []) xs)))
            ∙ (reverse-reverse (x ∷ xs)
                ∙ sym (drop_none n x xs (ground (arith, e, length-reverse xs)))))
  ]

-- ORDER BY keeps what holds of every row.
module _ {A : Type 0} (key : A → ℕ) (P : A → Type 0) where
  All-insert_desc : (x : A) (xs : List A) → P x → All P xs → All P (insert_desc key x xs)
  All-insert_desc x [] h a = (h, tt)
  All-insert_desc x (y ∷ ys) h a = elim (Bool-cases (ltb (key y) (key x))) [
    | inl e ↦ rw e (h, a)
    | inr e ↦ rw e (a.0, All-insert_desc x ys h a.1)
  ]

  All-sort_desc :
      (sorted xs : List A) → All P sorted → All P xs → All P (sort_desc_onto key sorted xs)
  All-sort_desc sorted [] a b = a
  All-sort_desc sorted (x ∷ xs) a b =
      All-sort_desc (insert_desc key x sorted) xs (All-insert_desc x sorted b.0 a) b.1

  pub All-order_desc : (xs : List A) → All P xs → All P (order_desc key xs)
  unfolding order_desc
  All-order_desc xs a = All-sort_desc [] xs tt a

  All-insert_asc : (x : A) (xs : List A) → P x → All P xs → All P (insert_asc key x xs)
  All-insert_asc x [] h a = (h, tt)
  All-insert_asc x (y ∷ ys) h a = elim (Bool-cases (ltb (key x) (key y))) [
    | inl e ↦ rw e (h, a)
    | inr e ↦ rw e (a.0, All-insert_asc x ys h a.1)
  ]

  All-sort_asc :
      (sorted xs : List A) → All P sorted → All P xs → All P (sort_asc_onto key sorted xs)
  All-sort_asc sorted [] a b = a
  All-sort_asc sorted (x ∷ xs) a b =
      All-sort_asc (insert_asc key x sorted) xs (All-insert_asc x sorted b.0 a) b.1

  pub All-order_asc : (xs : List A) → All P xs → All P (order_asc key xs)
  unfolding order_asc
  All-order_asc xs a = All-sort_asc [] xs tt a
