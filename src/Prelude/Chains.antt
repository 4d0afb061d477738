-- ===== src/Prelude/Chains.antt =====
-- Lists in which each element stands in a relation to all that follow, and searches of lists.
use mathlib.Core.List.{reverse-append}
use fw_gatekeeper.Prelude.{
  true, Bool, false, ◌&&◌, ◌||◌, List, [], ◌∷◌, ◌++◌, reverse, ◌≡◌, inl, inr, refl, sym, ap, ◌∙◌,
  subst, arith,
}
use fw_gatekeeper.Prelude.Tests.{Bool-cases}
use fw_gatekeeper.Prelude.Lists.{All, All-append, All-filter, any, filter}
use fw_gatekeeper.Prelude.Order.{sort_with, insert_with}

module _ {E : Type 0} where
  -- Each element stands so to all that follow.
  abbrev pub Chain : (E → E → Type 0) → List E → Type 0
  Chain R [] = Unit {0}
  Chain R (x ∷ xs) = All (R x) xs × Chain R xs

  pub Chain-append :
      (R : E → E → Type 0) (xs : List E) (x : E)
      → Chain R xs
      → All (λ a. R a x) xs
      → Chain R (xs ++ x ∷ [])
  Chain-append R [] x h k = (tt, tt)
  Chain-append R (y ∷ xs) x (a, h) (b, k) =
      (All-append (R y) xs (x ∷ []) a (b, tt), Chain-append R xs x h k)

  pub All-reverse : (P : E → Type 0) (xs : List E) → All P xs → All P (reverse xs)
  All-reverse P [] h = tt
  All-reverse P (x ∷ xs) (p, h) =
      subst (All P) (sym (reverse-append (x ∷ []) xs))
        (All-append P (reverse xs) (x ∷ []) (All-reverse P xs h) (p, tt))

  pub Chain-reverse :
      (R : E → E → Type 0) (xs : List E) → Chain R xs → Chain (λ a b. R b a) (reverse xs)
  Chain-reverse R [] h = tt
  Chain-reverse R (x ∷ xs) (a, h) =
      subst (Chain (λ c d. R d c)) (sym (reverse-append (x ∷ []) xs))
        (Chain-append (λ c d. R d c) (reverse xs) x (Chain-reverse R xs h) (All-reverse (R x) xs a))

  pub Chain-filter :
      (R : E → E → Type 0) (t : E → Bool) (xs : List E) → Chain R xs → Chain R (filter t xs)
  unfolding filter
  Chain-filter R t [] h = tt
  Chain-filter R t (x ∷ xs) (a, h) = elim (Bool-cases (t x)) [
    | inl e ↦ rw e (All-filter (R x) t xs a, Chain-filter R t xs h)
    | inr e ↦ rw e (Chain-filter R t xs h)
  ]

  pub any-append : (t : E → Bool) (xs ys : List E) → any t (xs ++ ys) ≡ (any t xs || any t ys)
  unfolding any
  any-append t [] ys = refl
  any-append t (x ∷ xs) ys = ground (arith, any-append t xs ys)

  pub any-reverse : (t : E → Bool) (xs : List E) → any t (reverse xs) ≡ any t xs
  unfolding any
  any-reverse t [] = refl
  any-reverse t (x ∷ xs) =
      ap (any t) (reverse-append (x ∷ []) xs)
      ∙ any-append t (reverse xs) (x ∷ [])
      ∙ ground (arith, any-reverse t xs)

  pub any-filter : (s t : E → Bool) (xs : List E) → any t (filter s xs) ≡ any (λ x. s x && t x) xs
  unfolding any filter
  any-filter s t [] = refl
  any-filter s t (x ∷ xs) = elim (Bool-cases (s x)) [
    | inl e ↦ ground (arith, any-filter s t xs)
    | inr e ↦ ground (arith, any-filter s t xs)
  ]

  pub any-insert_with :
      (before : E → E → Bool) (t : E → Bool) (x : E) (xs : List E)
      → any t (insert_with before x xs) ≡ (t x || any t xs)
  unfolding any insert_with
  any-insert_with before t x [] = refl
  any-insert_with before t x (y ∷ xs) = elim (Bool-cases (before x y)) [
    | inl e ↦ rw e refl
    | inr e ↦ rw e (ground (arith, any-insert_with before t x xs))
  ]

  pub any-sort_with :
      (before : E → E → Bool) (t : E → Bool) (xs : List E) → any t (sort_with before xs) ≡ any t xs
  unfolding any sort_with
  any-sort_with before t [] = refl
  any-sort_with before t (x ∷ xs) =
      any-insert_with before t x (sort_with before xs)
      ∙ ap (λ b. t x || b) (any-sort_with before t xs)

  pub any-none : (t : E → Bool) (xs : List E) → All (λ x. t x ≡ false) xs → any t xs ≡ false
  unfolding any
  any-none t [] h = refl
  any-none t (x ∷ xs) (e, h) = ground (arith, any-none t xs h)

  pub any-same : (s t : E → Bool) (xs : List E) → ((x : E) → s x ≡ t x) → any s xs ≡ any t xs
  unfolding any
  any-same s t [] h = refl
  any-same s t (x ∷ xs) h = ground (arith, h x, any-same s t xs h)

  pub filter-same :
      (s t : E → Bool) (xs : List E) → All (λ x. s x ≡ t x) xs → filter s xs ≡ filter t xs
  unfolding filter
  filter-same s t [] h = refl
  filter-same s t (x ∷ xs) (e, h) = ground (arith, e, filter-same s t xs h)

  pub All-every : (P : E → Type 0) (xs : List E) → ((x : E) → P x) → All P xs
  All-every P [] f = tt
  All-every P (x ∷ xs) f = (f x, All-every P xs f)

  pub filter-implied :
      (s t : E → Bool) (xs : List E)
      → ((x : E) → s x ≡ true → t x ≡ true)
      → filter s (filter t xs) ≡ filter s xs
  unfolding filter
  filter-implied s t [] f = refl
  filter-implied s t (x ∷ xs) f = elim (Bool-cases (s x)) [
    | inl e ↦ ground (arith, f x e, filter-implied s t xs f)
    | inr e ↦ elim (Bool-cases (t x)) [
      | inl k ↦ ground (arith, filter-implied s t xs f)
      | inr k ↦ ground (arith, filter-implied s t xs f)
    ]
  ]
