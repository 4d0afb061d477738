-- ===== src/Prelude/Table.antt =====
-- The tables of the document store as lists of rows in the order of creation. A row has an id,
-- and the platform never gives an id twice: the store's counter is the next one.
use mathlib.Core.Option
use fw_gatekeeper.Prelude.Lists.{find, filter, All, All-find}
use fw_gatekeeper.Prelude.Tests.{nat_beq, if◌then◌else◌, Bool-cases}
use Prim.Native.Nat.{ℕ, ◌<◌}
use mathlib.Core.Path.{◌≡◌, refl}
use mathlib.Core.Logic.{inl, inr, ◌⊎◌}
use mathlib.Core.Bool.{Bool, true, false}
use mathlib.Core.Option.{Option, none, some}
use mathlib.Core.List.{List, [], ◌∷◌, ◌++◌}
use native.Mathlib.Omega.{arith}

pub record Row {ℓ} (A : Type ℓ) : Type ℓ where
  pub row_id : A → ℕ

module _ {ℓ} {A : Type ℓ} ⦃r : Row A⦄ where
  -- `ctx.db.get(id)`.
  unfoldable pub get_row : ℕ → List A → Option A
  unfolding find
  get_row i rows = find (λ x. nat_beq (r.row_id x) i) rows

  -- `ctx.db.patch(id, …)` on the row, if it is there.
  unfoldable pub patch_row : ℕ → (A → A) → List A → List A
  patch_row i f [] = []
  patch_row i f (x ∷ xs) = (if nat_beq (r.row_id x) i then f x else x) ∷ patch_row i f xs

  -- `ctx.db.delete(id)`.
  unfoldable pub delete_row : ℕ → List A → List A
  delete_row i [] = []
  delete_row i (x ∷ xs) =
      let rest = delete_row i xs in if nat_beq (r.row_id x) i then rest else x ∷ rest

  pub get_row-append :
      (i : ℕ) (xs ys : List A)
      → get_row i (xs ++ ys) ≡ elim (get_row i xs) [ some x ↦ some x | none ↦ get_row i ys ]
  unfolding get_row
  get_row-append i [] ys = refl
  get_row-append i (x ∷ xs) ys = ground (arith, get_row-append i xs ys)

  pub row_id-get_row : (i : ℕ) (xs : List A) (x : A) → get_row i xs ≡ some x → r.row_id x ≡ i
  unfolding get_row
  row_id-get_row i [] x h = cc
  row_id-get_row i (y ∷ xs) x h = ground (arith, row_id-get_row i xs x)

  pub get_row-patch_row :
      (i j : ℕ) (f : A → A) (xs : List A)
      → ((x : A) → r.row_id (f x) ≡ r.row_id x)
      → get_row j (patch_row i f xs)
        ≡ (if nat_beq i j then Option.map f (get_row j xs) else get_row j xs)
  unfolding get_row patch_row
  get_row-patch_row i j f [] keeps = ground arith
  get_row-patch_row i j f (x ∷ xs) keeps = ground (arith, keeps x, get_row-patch_row i j f xs keeps)

  pub get_row-delete_row :
      (i j : ℕ) (xs : List A)
      → get_row j (delete_row i xs) ≡ (if nat_beq i j then none else get_row j xs)
  unfolding get_row delete_row
  get_row-delete_row i j [] = ground arith
  get_row-delete_row i j (x ∷ xs) = ground (arith, get_row-delete_row i j xs)

  -- A write that leaves a test as it is may as well be made to what the test picks.
  pub filter-patch_row :
      (test : A → Bool) (i : ℕ) (f : A → A) (xs : List A)
      → ((x : A) → test (f x) ≡ test x)
      → filter test (patch_row i f xs) ≡ patch_row i f (filter test xs)
  unfolding filter patch_row
  filter-patch_row test i f [] same = refl
  filter-patch_row test i f (x ∷ xs) same = elim (Bool-cases (nat_beq (r.row_id x) i)) [
    | inl e ↦ elim (Bool-cases (test x)) [
      | inl k ↦ ground (arith, same x, filter-patch_row test i f xs same)
      | inr k ↦ ground (arith, same x, filter-patch_row test i f xs same)
    ]
    | inr e ↦ elim (Bool-cases (test x)) [
      | inl k ↦ ground (arith, filter-patch_row test i f xs same)
      | inr k ↦ ground (arith, filter-patch_row test i f xs same)
    ]
  ]

  -- Every id in the table is below the store's counter.
  abbrev pub AllBelow : ℕ → List A → Type 0
  AllBelow n [] = Unit
  AllBelow n (x ∷ xs) = (r.row_id x < n) × AllBelow n xs

  pub get_row_fresh : (n : ℕ) (xs : List A) → AllBelow n xs → get_row n xs ≡ none
  unfolding get_row
  get_row_fresh n [] h = refl
  get_row_fresh n (x ∷ xs) h = ground (arith, get_row_fresh n xs)

  -- The row that is inserted at the counter is found by it.
  pub get_row-append_new :
      (n : ℕ) (xs : List A) (x : A)
      → AllBelow n xs
      → r.row_id x ≡ n
      → get_row n (xs ++ x ∷ []) ≡ some x
  unfolding get_row
  get_row-append_new n [] x h e = ground arith
  get_row-append_new n (y ∷ xs) x (a, h) e = ground (arith, get_row-append_new n xs x h e)

module _ {ℓ κ} {A : Type ℓ} ⦃r : Row A⦄ (P : A → Type κ) where
  pub All-patch_row :
      (i : ℕ) (f : A → A) (xs : List A)
      → ((x : A) → P x → P (f x))
      → All P xs
      → All P (patch_row i f xs)
  unfolding patch_row
  All-patch_row i f [] k h = tt
  All-patch_row i f (x ∷ xs) k (p, h) = elim (Bool-cases (nat_beq (r.row_id x) i)) [
    | inl e ↦ rw e (k x p, All-patch_row i f xs k h)
    | inr e ↦ rw e (p, All-patch_row i f xs k h)
  ]

  pub All-delete_row : (i : ℕ) (xs : List A) → All P xs → All P (delete_row i xs)
  unfolding delete_row
  All-delete_row i [] h = tt
  All-delete_row i (x ∷ xs) (p, h) = elim (Bool-cases (nat_beq (r.row_id x) i)) [
    | inl e ↦ rw e (All-delete_row i xs h)
    | inr e ↦ rw e (p, All-delete_row i xs h)
  ]

  pub All-get_row : (i : ℕ) (xs : List A) (x : A) → All P xs → get_row i xs ≡ some x → P x
  unfolding get_row
  All-get_row i xs x h e = All-find P (λ y. nat_beq (r.row_id y) i) xs h e

-- A write to the first row that passes a test: what a read followed by a patch of its id does.
module _ {ℓ} {A : Type ℓ} where
  unfoldable pub update_first : (A → Bool) → (A → A) → List A → List A
  update_first p f [] = []
  update_first p f (x ∷ xs) = if p x then f x ∷ xs else x ∷ update_first p f xs

  pub find-update_first :
      (p : A → Bool) (f : A → A) (xs : List A) {x : A}
      → find p xs ≡ some x
      → p (f x) ≡ true
      → find p (update_first p f xs) ≡ some (f x)
  unfolding find update_first
  find-update_first p f [] e k = cc
  find-update_first p f (y ∷ xs) {x} e k = ground (arith, find-update_first p f xs {x = x})

  -- A test that no row passed before finds the row that was written.
  pub find-update_first_new :
      (p q : A → Bool) (f : A → A) (xs : List A) {x : A}
      → find p xs ≡ some x
      → find q xs ≡ none
      → q (f x) ≡ true
      → find q (update_first p f xs) ≡ some (f x)
  unfolding find update_first
  find-update_first_new p q f [] e n k = cc
  find-update_first_new p q f (y ∷ xs) {x} e n k =
      ground (arith, find-update_first_new p q f xs {x = x})

  pub update_first-same :
      (p : A → Bool) (f : A → A) (xs : List A) {x : A}
      → find p xs ≡ some x
      → f x ≡ x
      → update_first p f xs ≡ xs
  unfolding find update_first
  update_first-same p f [] e k = refl
  update_first-same p f (y ∷ xs) {x} e k = ground (arith, update_first-same p f xs {x = x})

  pub update_first-ext :
      (p : A → Bool) (f g : A → A) (xs : List A) {x : A}
      → find p xs ≡ some x
      → f x ≡ g x
      → update_first p f xs ≡ update_first p g xs
  unfolding find update_first
  update_first-ext p f g [] e k = refl
  update_first-ext p f g (y ∷ xs) {x} e k = ground (arith, update_first-ext p f g xs {x = x})

  pub update_first-twice :
      (p : A → Bool) (f g : A → A) (xs : List A) {x : A}
      → find p xs ≡ some x
      → p (f x) ≡ true
      → update_first p g (update_first p f xs) ≡ update_first p (λ y. g (f y)) xs
  unfolding find update_first
  update_first-twice p f g [] e k = refl
  update_first-twice p f g (y ∷ xs) {x} e k = ground (arith, update_first-twice p f g xs {x = x})

  -- A test that no row passed, nor the row as written, still finds nothing.
  pub find-update_first-none :
      (p q : A → Bool) (f : A → A) (xs : List A) {x : A}
      → find p xs ≡ some x
      → find q xs ≡ none
      → q (f x) ≡ false
      → find q (update_first p f xs) ≡ none
  unfolding find update_first
  find-update_first-none p q f [] e n k = refl
  find-update_first-none p q f (y ∷ xs) {x} e n k =
      ground (arith, find-update_first-none p q f xs {x = x})

  -- A write that does not change a test leaves its first row in place, written or not.
  pub find-update_first_other :
      (p q : A → Bool) (f : A → A) (xs : List A) {x y : A}
      → find p xs ≡ some x
      → find q xs ≡ some y
      → q (f x) ≡ q x
      → (z : A) × (find q (update_first p f xs) ≡ some z) × ((z ≡ y) ⊎ ((z ≡ f y) × (x ≡ y)))
  unfolding find update_first
  find-update_first_other p q f [] e n k = cc
  find-update_first_other p q f (w ∷ xs) {x} {y} e n k = elim (Bool-cases (p w)) [
    | inl hit ↦ elim (Bool-cases (q w)) [
      | inl good ↦ (f w, ground arith, inr (ground arith, ground arith))
      | inr bad ↦ (y, ground arith, inl refl)
    ]
    | inr miss ↦ elim (Bool-cases (q w)) [
      | inl good ↦ (w, rw miss (rw good refl), inl (ground arith))
      | inr bad ↦
          let (z, found, same) =
            find-update_first_other p q f xs {x = x} {y = y} (ground arith) (ground arith) k in
          (z, rw miss (rw bad found), same)
    ]
  ]
