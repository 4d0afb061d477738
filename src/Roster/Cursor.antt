-- ===== src/Roster/Cursor.antt =====
-- convex/rosterSequence.ts: `parseRosterCursor`, and the cursors that convex/kiosks.ts issues.
use fw_gatekeeper.Prelude.{ℕ, ◌≤◌, Option, none, some, [], ◌∷◌, ◌++◌, ◌≡◌, refl}
use fw_gatekeeper.Prelude.Tests.{leb, if◌then◌else◌, nat_beq, le→leb}
use fw_gatekeeper.Prelude.Text.{Text, text}
use fw_gatekeeper.Prelude.Number.{max_safe_integer}
use fw_gatekeeper.Prelude.Decimal.{show_nat, read_nat, read-show_nat}

-- The text after a prefix, if the text has it.
unfoldable pub after : Text → Text → Option Text
after [] t = some t
after (c ∷ p) [] = none
after (c ∷ p) (d ∷ t) = if nat_beq c d then after p t else none

-- `Number.isSafeInteger(sequence) ? sequence : null`. A numeral above 2^53 - 1 is read as a double
-- that is no safe integer.
abbrev safe : Option ℕ → Option ℕ
safe none = none
safe (some n) = if leb n max_safe_integer then some n else none

unfoldable pub parse_roster_cursor : Option Text → Option ℕ
unfolding after
parse_roster_cursor none = none
parse_roster_cursor (some since) = elim (after (text "seq:") since) [
  | none ↦ none
  | some digits ↦ safe (read_nat digits)
]

-- `seq:${n}`.
unfoldable pub cursor_of : ℕ → Text
cursor_of n = text "seq:" ++ show_nat n

-- A cursor that the server issues for a sequence reads back as that sequence.
pub parse-cursor_of :
    (n : ℕ) → n ≤ max_safe_integer → parse_roster_cursor (some (cursor_of n)) ≡ some n
unfolding parse_roster_cursor cursor_of
parse-cursor_of n h = rw (read-show_nat n) (rw (le→leb n max_safe_integer h) refl)
