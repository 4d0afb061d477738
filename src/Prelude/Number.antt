-- ===== src/Prelude/Number.antt =====
-- JavaScript numbers. A finite double is a multiple of 2^-1074, so `finite sign n` is that many
-- units, and every test of the program on a double is a test on natural numbers.
use Prim.Native.Nat.{ℕ, zero, suc, ◌*◌, ◌/◌, ◌%◌, ◌^◌, ◌-◌}
use mathlib.Core.Bool.{Bool, true, false, ◌&&◌}
use mathlib.Core.Option.{Option, none, some}
use fw_gatekeeper.Prelude.Tests.{leb, nat_beq, if◌then◌else◌}

pub data JsNumber : Type 0 where
  nan : JsNumber
  infinite : (negative : Bool) → JsNumber
  finite : (negative : Bool) → ℕ → JsNumber

-- The number 1, in units.
unfoldable pub unit : ℕ
unit = 2 ^ 1074

-- Number.MAX_SAFE_INTEGER.
abbrev pub max_safe_integer : ℕ
max_safe_integer = 2 ^ 53 - 1

-- The double of a natural number that is a safe integer.
unfoldable pub of_nat : ℕ → JsNumber
of_nat n = finite false (n * unit)

-- `Number.isSafeInteger(x) && x >= 0`, with the natural number that `x` then is. (-0 >= 0 holds.)
unfoldable pub safe_count : JsNumber → Option ℕ
safe_count nan = none
safe_count (infinite negative) = none
safe_count (finite false n) =
    if nat_beq (n % unit) 0 && leb (n / unit) max_safe_integer then some (n / unit) else none
safe_count (finite true zero) = some 0
safe_count (finite true (suc n)) = none

-- `Number.isFinite`.
unfoldable pub is_finite : JsNumber → Bool
is_finite (finite negative n) = true
is_finite _ = false
