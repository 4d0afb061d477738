-- ===== src/Prelude/Lists.antt =====
-- Lists measured by native numbers, searched and filtered by Boolean tests.
use Prim.Native.Nat.{ℕ, zero, suc, ◌+◌, ◌≤◌}
use mathlib.Core.Path.{◌≡◌, refl, subst, ap, ◌∙◌}
use mathlib.Core.Bool.{Bool, true, false, ◌&&◌, ◌||◌}
use mathlib.Core.Option.{Option, none, some}
use mathlib.Core.List.{List, [], ◌∷◌, ◌++◌}
use mathlib.Core.Logic.{inl, inr, ◌≢◌}
use native.Mathlib.Omega.{arith}
use fw_gatekeeper.Prelude.Tests.{if◌then◌else◌, Bool-cases, leb}

module _ {ℓ} {A : Type ℓ} where
  abbrev pub length : List A → ℕ
  length [] = 0
  length (x ∷ xs) = suc (length xs)

  abbrev pub take : ℕ → List A → List A
  take zero xs = []
  take (suc n) [] = []
  take (suc n) (x ∷ xs) = x ∷ take n xs

  abbrev pub drop : ℕ → List A → List A
  drop zero xs = xs
  drop (suc n) [] = []
  drop (suc n) (x ∷ xs) = drop n xs

  pub length-append : (xs ys : List A) → length (xs ++ ys) ≡ length xs + length ys
  length-append [] ys = omega arith
  length-append (x ∷ xs) ys = omega (arith, length-append xs ys)

  pub length-take_le : (n : ℕ) (xs : List A) → length (take n xs) ≤ n
  length-take_le zero xs = omega arith
  length-take_le (suc n) [] = omega arith
  length-take_le (suc n) (x ∷ xs) = omega (arith, length-take_le n xs)

  abbrev pub last : List A → Option A
  last [] = none
  last (x ∷ []) = some x
  last (x ∷ y ∷ xs) = last (y ∷ xs)

  -- `array.find`, and `.first()` of an index range.
  unfoldable pub find : (A → Bool) → List A → Option A
  find p [] = none
  find p (x ∷ xs) = if p x then some x else find p xs

  -- `array.filter`.
  unfoldable pub filter : (A → Bool) → List A → List A
  filter p [] = []
  filter p (x ∷ xs) = let rest = filter p xs in if p x then x ∷ rest else rest

  -- `array.some`.
  unfoldable pub any : (A → Bool) → List A → Bool
  any p [] = false
  any p (x ∷ xs) = p x || any p xs

  -- `array.every`.
  unfoldable pub all : (A → Bool) → List A → Bool
  all p [] = true
  all p (x ∷ xs) = p x && all p xs

  pub find-append :
      (p : A → Bool) (xs ys : List A)
      → find p (xs ++ ys) ≡ elim (find p xs) [ some x ↦ some x | none ↦ find p ys ]
  unfolding find
  find-append p [] ys = refl
  find-append p (x ∷ xs) ys = ground (arith, find-append p xs ys)

  pub find_satisfies : (p : A → Bool) (xs : List A) {x : A} → find p xs ≡ some x → p x ≡ true
  unfolding find
  find_satisfies p [] h = cc
  find_satisfies p (y ∷ xs) {x} h = ground (arith, find_satisfies p xs {x = x})

  pub find_head : (p : A → Bool) (x : A) (xs : List A) → p x ≡ true → find p (x ∷ xs) ≡ some x
  unfolding find
  find_head p x xs h = rw h refl

-- A predicate of every element.
module _ {ℓ κ} {A : Type ℓ} where
  abbrev pub All : (A → Type κ) → List A → Type κ
  All holds [] = Unit
  All holds (first ∷ rest) = holds first × All holds rest

module _ {ℓ κ} {A : Type ℓ} (P : A → Type κ) where
  pub All-append : (xs : List A) (ys : List A) → All P xs → All P ys → All P (xs ++ ys)
  All-append [] ys _ k = k
  All-append (x ∷ xs) ys (p, h) k = (p, All-append xs ys h k)

  pub All-take : (n : ℕ) (xs : List A) → All P xs → All P (take n xs)
  All-take zero xs h = tt
  All-take (suc n) [] h = tt
  All-take (suc n) (x ∷ xs) (p, h) = (p, All-take n xs h)

  pub All-filter : (t : A → Bool) (xs : List A) → All P xs → All P (filter t xs)
  unfolding filter
  All-filter t [] h = tt
  All-filter t (x ∷ xs) (p, h) = elim (Bool-cases (t x)) [
    | inl e ↦ rw e (p, All-filter t xs h)
    | inr e ↦ rw e (All-filter t xs h)
  ]

  pub All-find : (t : A → Bool) (xs : List A) {x : A} → All P xs → find t xs ≡ some x → P x
  unfolding find
  All-find t [] h e = cc
  All-find t (y ∷ xs) {x} (p, h) e = elim (Bool-cases (t y)) [
    | inl b ↦ let same : y ≡ x = ground arith in subst P same p
    | inr b ↦ All-find t xs h (rw b at e)
  ]

pub filter_satisfies {ℓ} :
    {A : Type ℓ} (t : A → Bool) (xs : List A) → All (λ x. t x ≡ true) (filter t xs)
unfolding filter
filter_satisfies t [] = tt
filter_satisfies t (x ∷ xs) = elim (Bool-cases (t x)) [
  | inl e ↦ rw e (e, filter_satisfies t xs)
  | inr e ↦ rw e (filter_satisfies t xs)
]

-- `.unique()`: the row of an index range, nothing if the range is empty, and a throw (`none`) if
-- it has more rows than one.
abbrev pub sole {ℓ} : {A : Type ℓ} → List A → Option (Option A)
sole [] = some none
sole (x ∷ []) = some (some x)
sole (x ∷ y ∷ xs) = none

-- The order of an index: by a number, and by creation where that is the same.
module _ {ℓ} {A : Type ℓ} (key : A → ℕ) where
  unfoldable pub insert_by : A → List A → List A
  insert_by a [] = a ∷ []
  insert_by a (x ∷ xs) =
      let rest = insert_by a xs in if leb (key a) (key x) then a ∷ x ∷ xs else x ∷ rest

  unfoldable pub sort_by : List A → List A
  unfolding insert_by
  sort_by [] = []
  sort_by (x ∷ xs) = insert_by x (sort_by xs)

  length-insert_by : (a : A) (xs : List A) → length (insert_by a xs) ≡ suc (length xs)
  unfolding insert_by
  length-insert_by a [] = refl
  length-insert_by a (x ∷ xs) = ground (arith, length-insert_by a xs)

  pub length-sort_by : (xs : List A) → length (sort_by xs) ≡ length xs
  unfolding sort_by
  length-sort_by [] = refl
  length-sort_by (x ∷ xs) = length-insert_by x (sort_by xs) ∙ ap suc (length-sort_by xs)

module _ {ℓ κ} {A : Type ℓ} (key : A → ℕ) (P : A → Type κ) where
  All-insert_by : (a : A) (xs : List A) → P a → All P xs → All P (insert_by key a xs)
  unfolding insert_by
  All-insert_by a [] p h = (p, tt)
  All-insert_by a (x ∷ xs) p (q, h) = elim (Bool-cases (leb (key a) (key x))) [
    | inl e ↦ rw e (p, (q, h))
    | inr e ↦ rw e (q, All-insert_by a xs p h)
  ]

  pub All-sort_by : (xs : List A) → All P xs → All P (sort_by key xs)
  unfolding sort_by
  All-sort_by [] h = tt
  All-sort_by (x ∷ xs) (p, h) = All-insert_by x (sort_by key xs) p (All-sort_by xs h)

module _ {ℓ κ κ'} {A : Type ℓ} (P : A → Type κ) (Q : A → Type κ') where
  pub All-map : (xs : List A) → ((a : A) → P a → Q a) → All P xs → All Q xs
  All-map [] f h = tt
  All-map (x ∷ xs) f (p, h) = (f x p, All-map xs f h)

pub take-short {ℓ} : {A : Type ℓ} (n : ℕ) (xs : List A) → length (take n xs) ≢ n → take n xs ≡ xs
take-short zero xs h = absurd (h (omega arith))
take-short (suc n) [] h = refl
take-short (suc n) (x ∷ xs) h = ap (λ ys. x ∷ ys) (take-short n xs (λ e. h (ap suc e)))

module _ {ℓ} {A : Type ℓ} where
  pub sole-none : (xs : List A) → sole xs ≡ some none → xs ≡ []
  sole-none [] h = refl
  sole-none (x ∷ []) h = cc
  sole-none (x ∷ y ∷ xs) h = cc

  pub sole-some : (xs : List A) (a : A) → sole xs ≡ some (some a) → xs ≡ a ∷ []
  sole-some [] a h = cc
  sole-some (x ∷ []) a h = ground arith
  sole-some (x ∷ y ∷ xs) a h = cc

  pub filter-append :
      (t : A → Bool) (xs ys : List A) → filter t (xs ++ ys) ≡ filter t xs ++ filter t ys
  unfolding filter
  filter-append t [] ys = refl
  filter-append t (x ∷ xs) ys = elim (Bool-cases (t x)) [
    | inl e ↦ rw e (ap (λ zs. x ∷ zs) (filter-append t xs ys))
    | inr e ↦ rw e (filter-append t xs ys)
  ]

  pub filter-append_rejected :
      (t : A → Bool) (xs : List A) (x : A) → t x ≡ false → filter t (xs ++ x ∷ []) ≡ filter t xs
  unfolding filter
  filter-append_rejected t [] x e = rw e refl
  filter-append_rejected t (y ∷ xs) x e = elim (Bool-cases (t y)) [
    | inl k ↦ rw k (ap (λ zs. y ∷ zs) (filter-append_rejected t xs x e))
    | inr k ↦ rw k (filter-append_rejected t xs x e)
  ]

  pub filter-append_taken :
      (t : A → Bool) (xs : List A) (x : A)
      → t x ≡ true
      → filter t (xs ++ x ∷ []) ≡ filter t xs ++ x ∷ []
  unfolding filter
  filter-append_taken t xs x e = filter-append t xs (x ∷ []) ∙ rw e refl

  -- What no row passes is passed by none that must pass more.
  pub filter-and_none :
      (s t : A → Bool) (xs : List A) → filter t xs ≡ [] → filter (λ x. s x && t x) xs ≡ []
  unfolding filter
  filter-and_none s t [] h = refl
  filter-and_none s t (x ∷ xs) h = elim (Bool-cases (t x)) [
    | inl k ↦ absurd (ground arith)
    | inr k ↦
        let rest = filter-and_none s t xs (ground arith) in
        elim (Bool-cases (s x)) [ inl j ↦ ground arith | inr j ↦ ground arith ]
  ]

  -- The only row of an index range is the one that was inserted where there was none.
  pub sole-filter-append :
      (t : A → Bool) (xs : List A) (x : A)
      → sole (filter t xs) ≡ some none
      → t x ≡ true
      → sole (filter t (xs ++ x ∷ [])) ≡ some (some x)
  unfolding filter
  sole-filter-append t xs x h e =
      rw (filter-append t xs (x ∷ [])) (rw (sole-none (filter t xs) h) (rw e refl))
