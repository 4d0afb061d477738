-- ===== src/Shifts/Pairing.antt =====
-- convex/attendanceShifts.ts: `pairShiftEvents`, over a clock that gives an event its key, its instant
-- and its factory date. A set or a map of events is the list of what was put into it.
use fw_gatekeeper.Prelude.{
  ℕ, ◌+◌, ◌-◌, Bool, true, false, ◌&&◌, Option, none, some, List, [], ◌∷◌, ◌++◌, reverse,
}
use fw_gatekeeper.Prelude.Tests.{ltb, leb, if◌then◌else◌, ◌==◌, ◌!=◌, option_eq}
use fw_gatekeeper.Prelude.Lists.{filter}
use fw_gatekeeper.Prelude.Order.{sort_with}
use fw_gatekeeper.Prelude.Text.{Text, text_eq, text_ltb}
use fw_gatekeeper.Schema.{EventType, event_type_eq, clock_in, clock_out}

-- `createShiftClock`: `sortKey(event) || "~"`, `instantMs(event)`, which is `NaN` for no time, and
-- `getFactoryLocalDateKey(event.timestamp)` of convex/localDate.ts.
pub record ShiftClock (E : Type 0) : Type 0 where
  pub order_key : E → Text
  pub instant_ms : E → Option ℕ
  pub local_date : E → Option Text
  pub event_type : E → EventType

-- 16 hours.
abbrev pub max_shift_ms : ℕ
max_shift_ms = 57600000

-- `elapsed >= 0 && elapsed <= MAX_SHIFT_MS`, where both are times.
abbrev pub within_shift : Option ℕ → Option ℕ → Bool
within_shift (some start) (some end_) = leb start end_ && leb (end_ - start) max_shift_ms
within_shift none end_ = false
within_shift (some start) none = false

-- `instantMs(end) - instantMs(start) > MAX_SHIFT_MS`.
abbrev exceeds_shift : Option ℕ → Option ℕ → Bool
exceeds_shift (some start) (some end_) = ltb (start + max_shift_ms) end_
exceeds_shift none end_ = false
exceeds_shift (some start) none = false

abbrev pub is_instant : Option ℕ → Bool
is_instant none = false
is_instant (some t) = true

abbrev pub earlier : Option ℕ → Option ℕ → Bool
earlier (some a) (some b) = ltb a b
earlier none b = false
earlier (some a) none = false

module _ {E : Type 0} where
  -- A `while` loop of a pointer: it passes the events that the test takes.
  unfoldable pub pass_while : (E → Bool) → List E → List E
  pass_while test [] = []
  pass_while test (x ∷ xs) = let rest = pass_while test xs in if test x then rest else x ∷ xs

  abbrev pub head_is : (E → Bool) → List E → Bool
  head_is test [] = false
  head_is test (x ∷ xs) = test x

module _ {E : Type 0} (clock : ShiftClock E) where
  open clock use {order_key, instant_ms, local_date, event_type}

  -- `compare(a, b) <= 0`.
  abbrev pub no_later : E → E → Bool
  no_later a b = if text_ltb (order_key b) (order_key a) then false else true

  -- `isPlausibleShift`.
  abbrev pub is_plausible_shift : E → E → Bool
  is_plausible_shift start end_ = within_shift (instant_ms start) (instant_ms end_)

  abbrev pub is_before : E → E → Bool
  is_before a b = earlier (instant_ms a) (instant_ms b)

  -- The loop over the entries: the pointer `nextOut` goes on from where it was.
  unfoldable pub plausible_ins : List E → List E → List E
  plausible_ins [] outs = []
  plausible_ins (start ∷ ins) outs =
      let left = pass_while (λ end_. is_before end_ start) outs in
      let rest = plausible_ins ins left in
      if head_is (λ end_. is_plausible_shift start end_) left then start ∷ rest else rest

  -- The loop over the exits from the last, with the entries from the last, `previousIn`.
  unfoldable pub plausible_outs : List E → List E → List E
  plausible_outs [] ins = []
  plausible_outs (end_ ∷ outs) ins =
      let left = pass_while (λ start. is_before end_ start) ins in
      let rest = plausible_outs outs left in
      if head_is (λ start. is_plausible_shift start end_) left then end_ ∷ rest else rest

  abbrev pub is_in : E → Bool
  is_in x = event_type x == clock_in

  abbrev pub is_out : E → Bool
  is_out x = event_type x == clock_out

  -- What the loop over all events keeps.
  pub record PairState : Type 0 where
    pub previous : Option E
    pub open_ins : List E
    pub paired_ins : List E
    pub paired_outs : List E
    pub overlong_outs : List E
    pub repeated : List (E × E)

  abbrev pub no_pairs : PairState
  no_pairs = record {
    previous = none;
    open_ins = [];
    paired_ins = [];
    paired_outs = [];
    overlong_outs = [];
    repeated = [];
  }

  -- `repeatedEvents`, and `previous`.
  abbrev pub note_repeated : E → PairState → PairState
  note_repeated x s = record s {
    previous = some x;
    repeated = elim s.previous [
      | none ↦ s.repeated
      | some y ↦ if event_type y == event_type x then s.repeated ++ (x, y) ∷ [] else s.repeated
    ];
  }

  -- A new day's entry closes none of the day before.
  abbrev pub still_open : E → List E → List E
  still_open x [] = []
  still_open x (y ∷ ys) = if local_date y != local_date x then [] else y ∷ ys

  abbrev pub open_in : E → PairState → PairState
  open_in x s = record s { open_ins = still_open x s.open_ins ++ x ∷ [] }

  abbrev pub close : E → List E → PairState → PairState
  close x [] s = s
  close x (first ∷ others) s =
      if is_plausible_shift first x
      then record s {
        open_ins = [];
        paired_ins = s.paired_ins ++ first ∷ others;
        paired_outs = s.paired_outs ++ x ∷ [];
      }
      else record s {
        open_ins = [];
        overlong_outs =
            if exceeds_shift (instant_ms first) (instant_ms x)
            then s.overlong_outs ++ x ∷ []
            else s.overlong_outs;
      }

  -- One turn of the loop.
  abbrev pub turn_by : EventType → E → PairState → PairState
  turn_by clock_in x s = open_in x s
  turn_by clock_out x s = close x s.open_ins s

  unfoldable pub pair_turn : E → PairState → PairState
  pair_turn x s = turn_by (event_type x) x (note_repeated x s)

  unfoldable pub pair_each : List E → PairState → PairState
  pair_each [] s = s
  pair_each (x ∷ xs) s = pair_each xs (pair_turn x s)

  pub record ShiftPairs : Type 0 where
    pub paired_ins : List E
    pub paired_outs : List E
    pub overlong_outs : List E
    pub repeated : List (E × E)
    pub plausible : List E

  -- The events in order, and those of them that are times.
  abbrev pub ordered : List E → List E
  ordered events = sort_with no_later events

  abbrev pub timed : List E → List E
  timed events = filter (λ x. is_instant (instant_ms x)) (ordered events)

  -- `pairShiftEvents`.
  unfoldable pub pair_shift_events : List E → ShiftPairs
  pair_shift_events events =
      let ins = filter is_in (timed events) in
      let outs = filter is_out (timed events) in
      let s = pair_each (ordered events) no_pairs in
      record {
        paired_ins = s.paired_ins;
        paired_outs = s.paired_outs;
        overlong_outs = s.overlong_outs;
        repeated = s.repeated;
        plausible = plausible_ins ins outs ++ plausible_outs (reverse outs) (reverse ins);
      }
