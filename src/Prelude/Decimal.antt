-- ===== src/Prelude/Decimal.antt =====
-- Decimal numerals: `String(n)` of a natural number, and `Number(text)` of a text of digits.
use Prim.Native.Nat.{ℕ, zero, suc, ◌+◌, ◌-◌, ◌*◌, ◌/◌, ◌%◌, ◌<◌}
use mathlib.Core.Path.{◌≡◌, refl, ap, ◌∙◌}
use mathlib.Core.Option.{Option, none, some}
use mathlib.Core.List.{[], ◌∷◌}
use mathlib.Core.Logic.{inl, inr}
use native.Mathlib.Omega.{arith}
use fw_gatekeeper.Prelude.Tests.{ltb, if◌then◌else◌, Bool-cases}
use fw_gatekeeper.Prelude.Text.{Text, is_digit}

-- With fuel above the number every digit is written.
unfoldable pub show_onto : ℕ → ℕ → Text → Text
show_onto zero n rest = rest
show_onto (suc fuel) n rest =
    let more = show_onto fuel (n / 10) ((n % 10 + b'0') ∷ rest) in
    if ltb n 10 then (n + b'0') ∷ rest else more

unfoldable pub show_nat : ℕ → Text
unfolding show_onto
show_nat n = show_onto (suc n) n []

unfoldable pub read_onto : ℕ → Text → Option ℕ
unfolding is_digit
read_onto n [] = some n
read_onto n (c ∷ s) = if is_digit c then read_onto (n * 10 + (c - b'0')) s else none

-- `/^\d+$/`, with the number that the text spells.
unfoldable pub read_nat : Text → Option ℕ
unfolding read_onto
read_nat [] = none
read_nat (c ∷ s) = read_onto 0 (c ∷ s)

read_digit :
    (a d : ℕ) (rest : Text) → d < 10 → read_onto a ((d + b'0') ∷ rest) ≡ read_onto (a * 10 + d) rest
unfolding read_onto
read_digit a d rest h = ground arith

read-show_onto :
    (fuel n : ℕ) (rest : Text) → n < fuel → read_onto 0 (show_onto fuel n rest) ≡ read_onto n rest
unfolding show_onto
read-show_onto zero n rest h = elim h [ ]
read-show_onto (suc fuel) n rest h = elim (Bool-cases (ltb n 10)) [
  | inl small ↦
      rw small (read_digit 0 n rest (ground arith) ∙ ap (λ (k : ℕ). read_onto k rest) (omega arith))
  | inr large ↦ rw large (
      read-show_onto fuel (n / 10) ((n % 10 + b'0') ∷ rest) (ground arith)
      ∙ read_digit (n / 10) (n % 10) rest (omega arith)
      ∙ ap (λ (k : ℕ). read_onto k rest) (omega arith))
]

show_onto_cons :
    (fuel n : ℕ) (rest : Text) → n < fuel → (c : ℕ) × (s : Text) × (show_onto fuel n rest ≡ c ∷ s)
unfolding show_onto
show_onto_cons zero n rest h = elim h [ ]
show_onto_cons (suc fuel) n rest h = elim (Bool-cases (ltb n 10)) [
  | inl small ↦ (n + b'0', rest, rw small refl)
  | inr large ↦ rw large (show_onto_cons fuel (n / 10) ((n % 10 + b'0') ∷ rest) (ground arith))
]

read_nat_cons : (t : Text) (c : ℕ) (s : Text) → t ≡ c ∷ s → read_nat t ≡ read_onto 0 t
unfolding read_nat
read_nat_cons t c s e = rw e refl

read_onto_nil : (n : ℕ) → read_onto n [] ≡ some n
unfolding read_onto
read_onto_nil n = refl

-- The numeral of a number reads as that number.
pub read-show_nat : (n : ℕ) → read_nat (show_nat n) ≡ some n
unfolding show_nat
read-show_nat n =
    let (c, s, e) = show_onto_cons (suc n) n [] (omega arith) in
    read_nat_cons (show_onto (suc n) n []) c s e
    ∙ read-show_onto (suc n) n [] (omega arith)
    ∙ read_onto_nil n
