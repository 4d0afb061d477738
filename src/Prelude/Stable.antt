-- ===== src/Prelude/Stable.antt =====
-- A sort that is stable: to sort twice, or to filter before or after, gives the same.
use fw_gatekeeper.Prelude.{
  Bool, true, false, List, [], ◌∷◌, ◌++◌, ◌≡◌, inl, inr, refl, sym, ap, ◌∙◌, arith,
}
use fw_gatekeeper.Prelude.Tests.{Bool-cases}
use fw_gatekeeper.Prelude.Lists.{All, All-map, All-filter, filter}
use fw_gatekeeper.Prelude.Order.{insert_with, sort_with, Sorted, IsOrder, Sorted-sort_with}

module _ {A : Type 0} (before : A → A → Bool) (o : IsOrder before) where
  other_way : (x y : A) → before x y ≡ false → before y x ≡ true
  other_way x y e = elim (o.total x y) [ inl k ↦ absurd (ground arith) | inr k ↦ k ]

  insert_first :
      (x : A) (xs : List A) → All (λ y. before x y ≡ true) xs → insert_with before x xs ≡ x ∷ xs
  unfolding insert_with
  insert_first x [] h = refl
  insert_first x (y ∷ xs) (e, h) = rw e refl

  insert_comm :
      (x y : A) (xs : List A)
      → before x y ≡ false
      → insert_with before y (insert_with before x xs)
        ≡ insert_with before x (insert_with before y xs)
  unfolding insert_with
  insert_comm x y [] e = rw e (rw (other_way x y e) refl)
  insert_comm x y (w ∷ xs) e = elim (Bool-cases (before x w)) [
    | inl k ↦ let first = o.trans y x w (other_way x y e) k in ground (arith, other_way x y e)
    | inr k ↦ elim (Bool-cases (before y w)) [
      | inl j ↦ ground arith
      | inr j ↦ ground (arith, insert_comm x y xs e)
    ]
  ]

  -- The elements of the first list, inserted from the last.
  insert_all : List A → List A → List A
  insert_all [] ys = ys
  insert_all (x ∷ xs) ys = insert_with before x (insert_all xs ys)

  sort-append : (xs ys : List A) → sort_with before (xs ++ ys) ≡ insert_all xs (sort_with before ys)
  unfolding sort_with insert_all
  sort-append [] ys = refl
  sort-append (x ∷ xs) ys = ap (insert_with before x) (sort-append xs ys)

  insert_all-insert :
      (x : A) (xs ys : List A)
      → insert_all (insert_with before x xs) ys ≡ insert_with before x (insert_all xs ys)
  unfolding insert_all insert_with
  insert_all-insert x [] ys = refl
  insert_all-insert x (y ∷ xs) ys = elim (Bool-cases (before x y)) [
    | inl e ↦ rw e refl
    | inr e ↦ rw e (
        ap (insert_with before y) (insert_all-insert x xs ys)
        ∙ insert_comm x y (insert_all xs ys) e)
  ]

  insert_all-sort : (xs ys : List A) → insert_all (sort_with before xs) ys ≡ insert_all xs ys
  unfolding sort_with insert_all
  insert_all-sort [] ys = refl
  insert_all-sort (x ∷ xs) ys =
      insert_all-insert x (sort_with before xs) ys
      ∙ ap (insert_with before x) (insert_all-sort xs ys)

  pub sort-sorted_append :
      (xs ys : List A) → sort_with before (sort_with before xs ++ ys) ≡ sort_with before (xs ++ ys)
  sort-sorted_append xs ys =
      sort-append (sort_with before xs) ys
      ∙ insert_all-sort xs (sort_with before ys)
      ∙ sym (sort-append xs ys)

  filter-insert_kept :
      (t : A → Bool) (x : A) (xs : List A)
      → t x ≡ true
      → Sorted before xs
      → filter t (insert_with before x xs) ≡ insert_with before x (filter t xs)
  unfolding filter insert_with
  filter-insert_kept t x [] e h = rw e refl
  filter-insert_kept t x (y ∷ xs) e (a, h) = elim (Bool-cases (before x y)) [
    | inl k ↦ elim (Bool-cases (t y)) [
      | inl j ↦ ground arith
      | inr j ↦
          let all_later =
            All-filter (λ z. before x z ≡ true) t xs
              (All-map (λ z. before y z ≡ true) (λ z. before x z ≡ true) xs
                (λ z q. o.trans x y z k q) a) in
          ground (arith, insert_first x (filter t xs) all_later)
    ]
    | inr k ↦ elim (Bool-cases (t y)) [
      | inl j ↦ ground (arith, filter-insert_kept t x xs e h)
      | inr j ↦ ground (arith, filter-insert_kept t x xs e h)
    ]
  ]

  filter-insert_dropped :
      (t : A → Bool) (x : A) (xs : List A)
      → t x ≡ false
      → filter t (insert_with before x xs) ≡ filter t xs
  unfolding filter insert_with
  filter-insert_dropped t x [] e = rw e refl
  filter-insert_dropped t x (y ∷ xs) e = elim (Bool-cases (before x y)) [
    | inl k ↦ ground arith
    | inr k ↦ ground (arith, filter-insert_dropped t x xs e)
  ]

  pub filter-sort :
      (t : A → Bool) (xs : List A) → filter t (sort_with before xs) ≡ sort_with before (filter t xs)
  unfolding filter sort_with
  filter-sort t [] = refl
  filter-sort t (x ∷ xs) = elim (Bool-cases (t x)) [
    | inl e ↦ rw e (
        filter-insert_kept t x (sort_with before xs) e (Sorted-sort_with before xs o)
        ∙ ap (insert_with before x) (filter-sort t xs))
    | inr e ↦ rw e (filter-insert_dropped t x (sort_with before xs) e ∙ filter-sort t xs)
  ]
