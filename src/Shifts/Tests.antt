-- ===== src/Shifts/Tests.antt =====
-- A day of punches, and the theorems on pairing at it.
use fw_gatekeeper.Prelude.{ℕ, true, none, some, [], ◌∷◌, ◌++◌, reverse, ◌≡◌, refl, arith}
use fw_gatekeeper.Prelude.Lists.{All, filter}
use fw_gatekeeper.Prelude.Order.{insert_with, sort_with}
use fw_gatekeeper.Prelude.Text.{text_ltb}
use fw_gatekeeper.Schema.{EventType, clock_in, clock_out}
use fw_gatekeeper.Shifts.Pairing.{
  ShiftClock, pass_while, plausible_ins, plausible_outs, is_in, is_out, pair_turn, pair_each, timed,
  pair_shift_events,
}
use fw_gatekeeper.Shifts.Plausible.{IsClock, has_exit, has_entry, plausible_lem}
use fw_gatekeeper.Shifts.Justified.{paired-plausible}

record Punch : Type 0 where
  time : ℕ
  kind : EventType

-- Keys that have one unit, the time.
abbrev clock : ShiftClock Punch
clock = record {
  order_key = λ x. x.time ∷ [];
  instant_ms = λ x. some x.time;
  local_date = λ x. none;
  event_type = λ x. x.kind;
}

clock-IsClock : IsClock clock
unfolding text_ltb
clock-IsClock = record {
  keeps_order = λ a b h. ground arith;
  times_first = λ a b h e. ground arith;
}

-- The entry at 1000 is repeated; the exit at 30000000 is eight hours after it. The last exit is more
-- than sixteen hours after the last entry.
abbrev entry : Punch
entry = record { time = 1000; kind = clock_in }

abbrev entry_again : Punch
entry_again = record { time = 2000; kind = clock_in }

abbrev exit : Punch
exit = record { time = 30000000; kind = clock_out }

abbrev evening : Punch
evening = record { time = 40000000; kind = clock_in }

abbrev too_late : Punch
too_late = record { time = 98000000; kind = clock_out }

day : pair_shift_events clock (exit ∷ entry_again ∷ too_late ∷ entry ∷ evening ∷ []) ≡ record {
  paired_ins = entry ∷ entry_again ∷ [];
  paired_outs = exit ∷ [];
  overlong_outs = too_late ∷ [];
  repeated = (entry_again, entry) ∷ [];
  plausible = entry ∷ entry_again ∷ exit ∷ [];
}
unfolding pair_shift_events pair_each pair_turn plausible_ins plausible_outs pass_while sort_with
    insert_with filter text_ltb
day = refl

plausible_lem_example :
    (pair_shift_events clock (exit ∷ entry ∷ [])).plausible
    ≡ filter
        (has_exit clock (exit ∷ entry ∷ []))
        (filter (is_in clock) (timed clock (exit ∷ entry ∷ [])))
      ++ filter
          (has_entry clock (exit ∷ entry ∷ []))
          (reverse (filter (is_out clock) (timed clock (exit ∷ entry ∷ []))))
plausible_lem_example = plausible_lem clock (exit ∷ entry ∷ []) clock-IsClock

paired-plausible_example :
    All
      (λ s. has_exit clock (exit ∷ entry ∷ []) s ≡ true)
      (pair_shift_events clock (exit ∷ entry ∷ [])).paired_ins
    × All
        (λ x. has_entry clock (exit ∷ entry ∷ []) x ≡ true)
        (pair_shift_events clock (exit ∷ entry ∷ [])).paired_outs
paired-plausible_example = paired-plausible clock (exit ∷ entry ∷ []) clock-IsClock
