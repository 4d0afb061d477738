-- ===== src/Prelude/Ids.antt =====
-- The ids of a table never repeat, and lie below the store's counter.
use Prim.Native.Nat.{ℕ, suc, ◌<◌}
use mathlib.Core.Path.{◌≡◌, refl, sym}
use mathlib.Core.Logic.{◌≢◌, inl, inr}
use mathlib.Core.Bool.{Bool}
use mathlib.Core.Option.{some}
use mathlib.Core.List.{List, [], ◌∷◌, ◌++◌}
use native.Mathlib.Omega.{arith}
use fw_gatekeeper.Prelude.Tests.{nat_beq, nat_beq_iff, if◌then◌else◌, Bool-cases}
use fw_gatekeeper.Prelude.Lists.{find, All}
use fw_gatekeeper.Prelude.Table.{Row, get_row, patch_row, update_first, AllBelow}

module _ {ℓ} {A : Type ℓ} ⦃r : Row A⦄ where
  -- No two rows have one id.
  abbrev pub Absent : ℕ → List A → Type 0
  Absent i [] = Unit
  Absent i (x ∷ xs) = (r.row_id x ≢ i) × Absent i xs

  abbrev pub DistinctIds : List A → Type 0
  DistinctIds [] = Unit
  DistinctIds (x ∷ xs) = Absent (r.row_id x) xs × DistinctIds xs

  pub patch_row-Absent : (i : ℕ) (f : A → A) (xs : List A) → Absent i xs → patch_row i f xs ≡ xs
  unfolding patch_row
  patch_row-Absent i f [] h = refl
  patch_row-Absent i f (x ∷ xs) h = ground (arith, patch_row-Absent i f xs h.1)

  find-Absent :
      (p : A → Bool) (i : ℕ) (xs : List A) {x : A}
      → Absent i xs
      → find p xs ≡ some x
      → r.row_id x ≢ i
  unfolding find
  find-Absent p i [] h e = cc
  find-Absent p i (y ∷ xs) {x} h e = ground (arith, find-Absent p i xs {x = x} h.1)

  pub patch_row-found :
      (p : A → Bool) (f : A → A) (xs : List A) {x : A}
      → DistinctIds xs
      → find p xs ≡ some x
      → patch_row (r.row_id x) f xs ≡ update_first p f xs
  unfolding find update_first patch_row
  patch_row-found p f [] d e = refl
  patch_row-found p f (y ∷ xs) {x} d e = ground (
    arith,
    patch_row-Absent (r.row_id y) f xs d.0,
    find-Absent p (r.row_id y) xs {x = x} d.0,
    patch_row-found p f xs {x = x} d.1,
  )

  Absent-AllBelow : (n : ℕ) (xs : List A) → AllBelow n xs → Absent n xs
  Absent-AllBelow n [] h = tt
  Absent-AllBelow n (x ∷ xs) (h, k) = (ground arith, Absent-AllBelow n xs k)

  Absent-append :
      (i : ℕ) (xs : List A) (x : A) → Absent i xs → r.row_id x ≢ i → Absent i (xs ++ x ∷ [])
  Absent-append i [] x h k = (k, tt)
  Absent-append i (y ∷ xs) x (a, h) k = (a, Absent-append i xs x h k)

  DistinctIds-append :
      (xs : List A) (x : A) → Absent (r.row_id x) xs → DistinctIds xs → DistinctIds (xs ++ x ∷ [])
  DistinctIds-append [] x h d = (tt, tt)
  DistinctIds-append (y ∷ xs) x (a, h) (b, d) =
      (Absent-append (r.row_id y) xs x b (λ e. a (sym e)), DistinctIds-append xs x h d)

  AllBelow-append :
      (n : ℕ) (xs : List A) (x : A) → AllBelow n xs → r.row_id x < n → AllBelow n (xs ++ x ∷ [])
  AllBelow-append n [] x h k = (k, tt)
  AllBelow-append n (y ∷ xs) x (a, h) k = (a, AllBelow-append n xs x h k)

  AllBelow-suc : (n : ℕ) (xs : List A) → AllBelow n xs → AllBelow (suc n) xs
  AllBelow-suc n [] h = tt
  AllBelow-suc n (x ∷ xs) (a, h) = (omega arith, AllBelow-suc n xs h)

  -- The ids of a table: distinct, and below the counter.
  pub record HasIds (n : ℕ) (xs : List A) : Type 0 where
    pub below : AllBelow n xs
    pub distinct : DistinctIds xs

  -- A row inserted at the counter keeps the ids in order.
  pub HasIds-append :
      (n : ℕ) (xs : List A) (x : A) → r.row_id x ≡ n → HasIds n xs → HasIds (suc n) (xs ++ x ∷ [])
  HasIds-append n xs x e h = record {
    below = AllBelow-append (suc n) xs x (AllBelow-suc n xs h.below) (omega arith);
    distinct = DistinctIds-append xs x (rw e (Absent-AllBelow n xs h.below)) h.distinct;
  }

  pub HasIds-suc : (n : ℕ) (xs : List A) → HasIds n xs → HasIds (suc n) xs
  HasIds-suc n xs h = record { below = AllBelow-suc n xs h.below; distinct = h.distinct }

  AllBelow-patch_row :
      (n i : ℕ) (f : A → A) (xs : List A)
      → ((x : A) → r.row_id (f x) ≡ r.row_id x)
      → AllBelow n xs
      → AllBelow n (patch_row i f xs)
  unfolding patch_row
  AllBelow-patch_row n i f [] keeps h = tt
  AllBelow-patch_row n i f (x ∷ xs) keeps (a, h) =
      (ground (arith, keeps x), AllBelow-patch_row n i f xs keeps h)

  Absent-patch_row :
      (j i : ℕ) (f : A → A) (xs : List A)
      → ((x : A) → r.row_id (f x) ≡ r.row_id x)
      → Absent j xs
      → Absent j (patch_row i f xs)
  unfolding patch_row
  Absent-patch_row j i f [] keeps h = tt
  Absent-patch_row j i f (x ∷ xs) keeps (a, h) =
      (ground (arith, keeps x), Absent-patch_row j i f xs keeps h)

  patched_id :
      (i : ℕ) (f : A → A) (x : A)
      → ((y : A) → r.row_id (f y) ≡ r.row_id y)
      → r.row_id (if nat_beq (r.row_id x) i then f x else x) ≡ r.row_id x
  patched_id i f x keeps = ground (arith, keeps x)

  DistinctIds-patch_row :
      (i : ℕ) (f : A → A) (xs : List A)
      → ((x : A) → r.row_id (f x) ≡ r.row_id x)
      → DistinctIds xs
      → DistinctIds (patch_row i f xs)
  unfolding patch_row
  DistinctIds-patch_row i f [] keeps d = tt
  DistinctIds-patch_row i f (x ∷ xs) keeps (a, d) = (
    rw (patched_id i f x keeps) (Absent-patch_row (r.row_id x) i f xs keeps a),
    DistinctIds-patch_row i f xs keeps d,
  )

  pub HasIds-patch_row :
      (n i : ℕ) (f : A → A) (xs : List A)
      → ((x : A) → r.row_id (f x) ≡ r.row_id x)
      → HasIds n xs
      → HasIds n (patch_row i f xs)
  HasIds-patch_row n i f xs keeps h = record {
    below = AllBelow-patch_row n i f xs keeps h.below;
    distinct = DistinctIds-patch_row i f xs keeps h.distinct;
  }

  AllBelow-update_first :
      (n : ℕ) (p : A → Bool) (f : A → A) (xs : List A)
      → ((x : A) → r.row_id (f x) ≡ r.row_id x)
      → AllBelow n xs
      → AllBelow n (update_first p f xs)
  unfolding update_first
  AllBelow-update_first n p f [] keeps h = tt
  AllBelow-update_first n p f (x ∷ xs) keeps (a, h) =
      ground (arith, keeps x, AllBelow-update_first n p f xs keeps h)

  Absent-update_first :
      (j : ℕ) (p : A → Bool) (f : A → A) (xs : List A)
      → ((x : A) → r.row_id (f x) ≡ r.row_id x)
      → Absent j xs
      → Absent j (update_first p f xs)
  unfolding update_first
  Absent-update_first j p f [] keeps h = tt
  Absent-update_first j p f (x ∷ xs) keeps (a, h) =
      ground (arith, keeps x, Absent-update_first j p f xs keeps h)

  pub DistinctIds-update_first :
      (p : A → Bool) (f : A → A) (xs : List A)
      → ((x : A) → r.row_id (f x) ≡ r.row_id x)
      → DistinctIds xs
      → DistinctIds (update_first p f xs)
  unfolding update_first
  DistinctIds-update_first p f [] keeps d = tt
  DistinctIds-update_first p f (x ∷ xs) keeps (a, d) = elim (Bool-cases (p x)) [
    | inl e ↦ rw e (rw (keeps x) a, d)
    | inr e ↦
        rw e
          (Absent-update_first (r.row_id x) p f xs keeps a, DistinctIds-update_first p f xs keeps d)
  ]

  pub HasIds-update_first :
      (n : ℕ) (p : A → Bool) (f : A → A) (xs : List A)
      → ((x : A) → r.row_id (f x) ≡ r.row_id x)
      → HasIds n xs
      → HasIds n (update_first p f xs)
  HasIds-update_first n p f xs keeps h = record {
    below = AllBelow-update_first n p f xs keeps h.below;
    distinct = DistinctIds-update_first p f xs keeps h.distinct;
  }

  keep_found :
      (x : A) (rows ys : List A)
      → Absent (r.row_id x) ys
      → All (λ y. get_row (r.row_id y) rows ≡ some y) ys
      → All (λ y. get_row (r.row_id y) (x ∷ rows) ≡ some y) ys
  unfolding get_row find
  keep_found x rows [] a h = tt
  keep_found x rows (y ∷ ys) (n, a) (e, h) = (ground arith, keep_found x rows ys a h)

  -- Each row is the one that its id finds.
  pub found_self : (xs : List A) → DistinctIds xs → All (λ x. get_row (r.row_id x) xs ≡ some x) xs
  unfolding get_row find
  found_self [] d = tt
  found_self (x ∷ xs) (a, d) = (
    rw ((nat_beq_iff (r.row_id x) (r.row_id x)).1 refl) refl,
    keep_found x xs xs a (found_self xs d),
  )
