-- ===== src/Prelude/Text.antt =====
-- JavaScript strings as lists of UTF-16 code units.
use Prim.Native.Nat.{ℕ}
use Prim.Native.Char.{code}
use Prim.Native.String.{String}
use mathlib.Core.Path.{◌≡◌}
use mathlib.Core.Logic.{◌↔◌}
use mathlib.Core.Bool.{Bool, true, false, ◌&&◌, ◌||◌}
use mathlib.Core.List.{List, [], ◌∷◌, reverse}
use native.Mathlib.Omega.{arith}
use fw_gatekeeper.Prelude.Tests.{ltb, leb, nat_beq, if◌then◌else◌, StrictEquality}

abbrev pub Text : Type 0
Text = List ℕ

-- A literal of the source. The literals of the program are ASCII.
abbrev pub text : String → Text
text String.[] = []
text (String.◌∷◌ c s) = code c ∷ text s

unfoldable pub text_beq : Text → Text → Bool
text_beq [] [] = true
text_beq (a ∷ s) (b ∷ t) = nat_beq a b && text_beq s t
text_beq _ _ = false

pub text_beq_iff : (s t : Text) → (text_beq s t ≡ true) ↔ (s ≡ t)
unfolding text_beq
text_beq_iff [] [] = ground arith
text_beq_iff [] (b ∷ t) = ground arith
text_beq_iff (a ∷ s) [] = ground arith
text_beq_iff (a ∷ s) (b ∷ t) = ground (arith, text_beq_iff s t)

instance abbrev pub text_eq : StrictEquality Text
text_eq = record { equal = text_beq; equal_iff = text_beq_iff }

-- `s < t` on strings: by code unit, a proper prefix first.
unfoldable pub text_ltb : Text → Text → Bool
text_ltb s [] = false
text_ltb [] (b ∷ t) = true
text_ltb (a ∷ s) (b ∷ t) = if nat_beq a b then text_ltb s t else ltb a b

-- The white space and line terminators that `trim` and `\s` take.
unfoldable pub is_space : ℕ → Bool
is_space c =
    (leb 9 c && leb c 13)
    || nat_beq c 32
    || nat_beq c 160
    || nat_beq c 5760
    || (leb 8192 c && leb c 8202)
    || nat_beq c 8232
    || nat_beq c 8233
    || nat_beq c 8239
    || nat_beq c 8287
    || nat_beq c 12288
    || nat_beq c 65279

unfoldable pub trim_start : Text → Text
unfolding is_space
trim_start [] = []
trim_start (c ∷ s) = if is_space c then trim_start s else c ∷ s

unfoldable pub trim : Text → Text
unfolding trim_start
trim s = reverse (trim_start (reverse (trim_start s)))

unfoldable pub is_digit : ℕ → Bool
is_digit c = leb b'0' c && leb c b'9'
