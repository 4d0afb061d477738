-- ===== src/Prelude/Deletes.antt =====
-- Rows that are deleted make a table shorter.
use Prim.Native.Nat.{ℕ, ◌≤◌, ◌<◌}
use mathlib.Core.Path.{◌≡◌, refl}
use mathlib.Core.Logic.{◌⊎◌, inl, inr}
use mathlib.Core.List.{List, [], ◌∷◌}
use native.Mathlib.Omega.{arith}
use fw_gatekeeper.Prelude.Lists.{All, All-map, length}
use fw_gatekeeper.Prelude.Table.{Row, delete_row}

module _ {ℓ} {A : Type ℓ} ⦃r : Row A⦄ where
  -- The id is that of a row in the list.
  abbrev pub InIds : ℕ → List A → Type 0
  InIds i [] = ⊥
  InIds i (x ∷ xs) = (r.row_id x ≡ i) ⊎ InIds i xs

  pub InIds-self : (xs : List A) → All (λ x. InIds (r.row_id x) xs) xs
  InIds-self [] = tt
  InIds-self (x ∷ xs) = (
    inl refl,
    All-map (λ y. InIds (r.row_id y) xs) (λ y. InIds (r.row_id y) (x ∷ xs)) xs (λ y h. inr h)
        (InIds-self xs),
  )

  pub length-delete_row : (i : ℕ) (xs : List A) → length (delete_row i xs) ≤ length xs
  unfolding delete_row
  length-delete_row i [] = omega arith
  length-delete_row i (x ∷ xs) = ground (arith, length-delete_row i xs)

  pub delete_row-shorter : (i : ℕ) (xs : List A) → InIds i xs → length (delete_row i xs) < length xs
  unfolding delete_row
  delete_row-shorter i [] h = elim h [ ]
  delete_row-shorter i (x ∷ xs) (inl e) = ground (arith, length-delete_row i xs)
  delete_row-shorter i (x ∷ xs) (inr h) = ground (arith, delete_row-shorter i xs h)
