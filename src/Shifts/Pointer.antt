-- ===== src/Shifts/Pointer.antt =====
-- convex/attendanceShifts.ts: a loop over one list with a pointer into another, as pairShiftEvents has
-- two of.
use fw_gatekeeper.Prelude.{Bool, true, false, List, [], ◌∷◌, ◌≡◌, inl, inr, refl, ◌∙◌, arith}
use fw_gatekeeper.Prelude.Tests.{Bool-cases, if◌then◌else◌}
use fw_gatekeeper.Prelude.Lists.{All, All-map, any, filter}
use fw_gatekeeper.Prelude.Chains.{Chain, any-none, filter-same}
use fw_gatekeeper.Shifts.Pairing.{pass_while, head_is}

module _ {E : Type 0} where
  -- A loop with a pointer: `skip x y` passes `y` for `x`, and `fits x y` takes `x`.
  unfoldable pub point : (E → E → Bool) → (E → E → Bool) → List E → List E → List E
  point skip fits [] ys = []
  point skip fits (x ∷ xs) ys =
      let left = pass_while (skip x) ys in
      let rest = point skip fits xs left in if head_is (fits x) left then x ∷ rest else rest

  All-pass_while :
      (P : E → Type 0) (t : E → Bool) (xs : List E) → All P xs → All P (pass_while t xs)
  unfolding pass_while
  All-pass_while P t [] h = tt
  All-pass_while P t (x ∷ xs) (p, h) = elim (Bool-cases (t x)) [
    | inl e ↦ rw e (All-pass_while P t xs h)
    | inr e ↦ rw e (p, h)
  ]

  Chain-pass_while :
      (R : E → E → Type 0) (t : E → Bool) (xs : List E) → Chain R xs → Chain R (pass_while t xs)
  unfolding pass_while
  Chain-pass_while R t [] h = tt
  Chain-pass_while R t (x ∷ xs) (a, h) = elim (Bool-cases (t x)) [
    | inl e ↦ rw e (Chain-pass_while R t xs h)
    | inr e ↦ rw e (a, h)
  ]

-- The loop finds what a search of the whole list would, if what is passed fits neither now nor later,
-- and nothing fits beyond what is reached and does not fit.
module _ {E : Type 0} (skip fits : E → E → Bool) (Q R : E → E → Type 0)
    (skipped : (x y : E) → skip x y ≡ true → fits x y ≡ false)
    (far : (x y z : E) → skip x y ≡ false → fits x y ≡ false → R y z → fits x z ≡ false)
    (stays : (x x' y : E) → Q x x' → skip x y ≡ true → fits x' y ≡ false) where
  head-any :
      (x : E) (ys : List E)
      → Chain R ys
      → head_is (fits x) (pass_while (skip x) ys) ≡ any (fits x) ys
  unfolding pass_while any
  head-any x [] h = refl
  head-any x (y ∷ ys) (a, h) = elim (Bool-cases (skip x y)) [
    | inl e ↦ ground (arith, skipped x y e, head-any x ys h)
    | inr e ↦ elim (Bool-cases (fits x y)) [
      | inl k ↦ ground arith
      | inr k ↦
          let none_ =
            any-none (fits x) ys
              (All-map (R y) (λ z. fits x z ≡ false) ys (λ z q. far x y z e k q) a) in
          ground arith
    ]
  ]

  passed-any :
      (x x' : E) (ys : List E) → Q x x' → any (fits x') (pass_while (skip x) ys) ≡ any (fits x') ys
  unfolding pass_while any
  passed-any x x' [] q = refl
  passed-any x x' (y ∷ ys) q = elim (Bool-cases (skip x y)) [
    | inl e ↦ ground (arith, stays x x' y q e, passed-any x x' ys q)
    | inr e ↦ rw e refl
  ]

  pub point_lem :
      (xs ys : List E)
      → Chain Q xs
      → Chain R ys
      → point skip fits xs ys ≡ filter (λ x. any (fits x) ys) xs
  unfolding point filter
  point_lem [] ys q h = refl
  point_lem (x ∷ xs) ys (a, q) h =
      let rest : point skip fits xs (pass_while (skip x) ys) ≡ filter (λ z. any (fits z) ys) xs =
        point_lem xs (pass_while (skip x) ys) q (Chain-pass_while R (skip x) ys h)
        ∙ filter-same (λ z. any (fits z) (pass_while (skip x) ys)) (λ z. any (fits z) ys) xs
            (All-map (Q x) (λ z. any (fits z) (pass_while (skip x) ys) ≡ any (fits z) ys) xs
              (λ z k. passed-any x z ys k) a) in
      rw (head-any x ys h) (rw rest refl)
