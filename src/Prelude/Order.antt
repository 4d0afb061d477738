-- ===== src/Prelude/Order.antt =====
-- `array.sort` with a comparison, which is stable, and texts in the order of their code units.
use mathlib.Core.Path.{◌≡◌, refl}
use mathlib.Core.Logic.{◌⊎◌, inl, inr}
use mathlib.Core.Bool.{Bool, true, false}
use mathlib.Core.List.{List, [], ◌∷◌}
use native.Mathlib.Omega.{arith}
use fw_gatekeeper.Prelude.Tests.{Bool-cases, if◌then◌else◌}
use fw_gatekeeper.Prelude.Lists.{All, All-map}
use fw_gatekeeper.Prelude.Text.{Text, text_ltb}

-- `before a b` says that `a` may stand before `b`.
module _ {ℓ} {A : Type ℓ} (before : A → A → Bool) where
  unfoldable pub insert_with : A → List A → List A
  insert_with a [] = a ∷ []
  insert_with a (x ∷ xs) =
      let rest = insert_with a xs in if before a x then a ∷ x ∷ xs else x ∷ rest

  unfoldable pub sort_with : List A → List A
  unfolding insert_with
  sort_with [] = []
  sort_with (x ∷ xs) = insert_with x (sort_with xs)

  abbrev pub Sorted : List A → Type 0
  Sorted [] = Unit {0}
  Sorted (x ∷ xs) = All (λ y. before x y ≡ true) xs × Sorted xs

  -- A comparison by which `array.sort` sorts.
  pub record IsOrder : Type ℓ where
    pub total : (a b : A) → (before a b ≡ true) ⊎ (before b a ≡ true)
    pub trans : (a b c : A) → before a b ≡ true → before b c ≡ true → before a c ≡ true

module _ {ℓ} {A : Type ℓ} (before : A → A → Bool) where
  All-insert_with :
      (P : A → Type 0) (a : A) (xs : List A) → P a → All P xs → All P (insert_with before a xs)
  unfolding insert_with
  All-insert_with P a [] p h = (p, tt)
  All-insert_with P a (x ∷ xs) p (q, h) = elim (Bool-cases (before a x)) [
    | inl e ↦ rw e (p, (q, h))
    | inr e ↦ rw e (q, All-insert_with P a xs p h)
  ]

  pub All-sort_with : (P : A → Type 0) (xs : List A) → All P xs → All P (sort_with before xs)
  unfolding sort_with
  All-sort_with P [] h = tt
  All-sort_with P (x ∷ xs) (p, h) =
      All-insert_with P x (sort_with before xs) p (All-sort_with P xs h)

  Sorted-insert_with :
      (a : A) (xs : List A)
      → IsOrder before
      → Sorted before xs
      → Sorted before (insert_with before a xs)
  unfolding insert_with
  Sorted-insert_with a [] o h = (tt, tt)
  Sorted-insert_with a (x ∷ xs) o (first, h) = elim (Bool-cases (before a x)) [
    | inl e ↦ rw e (
      (
        e,
        All-map (λ y. before x y ≡ true) (λ y. before a y ≡ true) xs (λ y k. o.trans a x y e k)
            first,
      ),
      (first, h),
    )
    | inr e ↦ rw e (
      All-insert_with (λ y. before x y ≡ true) a xs
          (elim (o.total x a) [ inl k ↦ k | inr k ↦ absurd (ground arith) ]) first,
      Sorted-insert_with a xs o h,
    )
  ]

  pub Sorted-sort_with : (xs : List A) → IsOrder before → Sorted before (sort_with before xs)
  unfolding sort_with
  Sorted-sort_with [] o = tt
  Sorted-sort_with (x ∷ xs) o = Sorted-insert_with x (sort_with before xs) o (Sorted-sort_with xs o)

pub text_ltb_asym : (s t : Text) → text_ltb s t ≡ true → text_ltb t s ≡ false
unfolding text_ltb
text_ltb_asym [] [] h = cc
text_ltb_asym [] (b ∷ t) h = refl
text_ltb_asym (a ∷ s) [] h = cc
text_ltb_asym (a ∷ s) (b ∷ t) h = ground (arith, text_ltb_asym s t)

-- What is not less is a preorder.
pub text_leb_trans :
    (s t u : Text) → text_ltb t s ≡ false → text_ltb u t ≡ false → text_ltb u s ≡ false
unfolding text_ltb
text_leb_trans [] t [] h k = refl
text_leb_trans [] [] (c ∷ u) h k = refl
text_leb_trans [] (b ∷ t) (c ∷ u) h k = refl
text_leb_trans (a ∷ s) [] u h k = cc
text_leb_trans (a ∷ s) (b ∷ t) [] h k = cc
text_leb_trans (a ∷ s) (b ∷ t) (c ∷ u) h k = ground (arith, text_leb_trans s t u)

pub text_leb_antisym : (s t : Text) → text_ltb s t ≡ false → text_ltb t s ≡ false → s ≡ t
unfolding text_ltb
text_leb_antisym [] [] h k = refl
text_leb_antisym [] (b ∷ t) h k = cc
text_leb_antisym (a ∷ s) [] h k = cc
text_leb_antisym (a ∷ s) (b ∷ t) h k = ground (arith, text_leb_antisym s t)

-- By a key that is a text, and by another comparison where the keys are the same.
module _ {A : Type 0} (key : A → Text) (next : A → A → Bool) where
  abbrev pub by_key : A → A → Bool
  by_key a b =
      if text_ltb (key a) (key b)
      then true
      else if text_ltb (key b) (key a)
      then false
      else next a b

  by_key-le : (a b : A) → by_key a b ≡ true → text_ltb (key b) (key a) ≡ false
  by_key-le a b h = elim (Bool-cases (text_ltb (key a) (key b))) [
    | inl e ↦ text_ltb_asym (key a) (key b) e
    | inr e ↦ ground arith
  ]

  pub by_key-IsOrder : IsOrder next → IsOrder by_key
  by_key-IsOrder o = record {
    total = λ a b. elim (Bool-cases (text_ltb (key a) (key b))) [
      | inl e ↦ inl (ground arith)
      | inr e ↦ elim (Bool-cases (text_ltb (key b) (key a))) [
        | inl k ↦ inr (ground arith)
        | inr k ↦ elim (o.total a b) [ inl j ↦ inl (ground arith) | inr j ↦ inr (ground arith) ]
      ]
    ];
    trans = λ a b c h k.
        let low = by_key-le a b h in
        let high = by_key-le b c k in
        let last = text_leb_trans (key a) (key b) (key c) low high in
        elim (Bool-cases (text_ltb (key a) (key c))) [
          | inl e ↦ ground arith
          | inr e ↦
              let same_low = text_leb_trans (key b) (key c) (key a) high e in
              let same_high = text_leb_trans (key c) (key a) (key b) e low in
              let then_ = o.trans a b c (ground arith) (ground arith) in ground arith
        ];
  }
