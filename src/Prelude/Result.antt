-- ===== src/Prelude/Result.antt =====
-- A handler returns a value or throws; a transaction that throws commits nothing.
use mathlib.Core.Path.{◌≡◌, refl}
use mathlib.Core.Logic.{◌⊎◌, inl, inr}
use mathlib.Core.Bool.{Bool, true, false}
use mathlib.Core.Option.{Option, none, some}

pub data Result {ℓ} (E A : Type ℓ) : Type ℓ where
  ok : A → Result E A
  err : E → Result E A

module _ {ℓ} {E : Type ℓ} where
  infixl 5 ◌>>=◌
  abbrev pub ◌>>=◌ : {A B : Type ℓ} → Result E A → (A → Result E B) → Result E B
  ok a >>= f = f a
  err e >>= f = err e

module _ {E : Type 0} where
  infixl 5 ◌>>◌
  abbrev pub ◌>>◌ : {B : Type 0} → Result E (Unit {0}) → Result E B → Result E B
  m >> k = m >>= λ _. k

module _ {E : Type 0} where
  -- `if (!test) throw e`.
  abbrev pub require : Bool → E → Result E (Unit {0})
  require true e = ok tt
  require false e = err e

  -- `if (test) throw e`.
  abbrev pub refuse : Bool → E → Result E (Unit {0})
  refuse true e = err e
  refuse false e = ok tt

  -- `if (!value) throw e`, with the value for what follows.
  abbrev pub present : {A : Type 0} → Option A → E → Result E A
  present none e = err e
  present (some a) e = ok a

  pub Result-cases :
      {A : Type 0} (m : Result E A) → ((a : A) × (m ≡ ok a)) ⊎ ((e : E) × (m ≡ err e))
  Result-cases (ok a) = inl (a, refl)
  Result-cases (err e) = inr (e, refl)

  pub present-ok : {A : Type 0} (o : Option A) (e : E) {a : A} → present o e ≡ ok a → o ≡ some a
  present-ok none e h = cc
  present-ok (some b) e {a} h = cc
