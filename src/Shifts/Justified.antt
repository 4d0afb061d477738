-- ===== src/Shifts/Justified.antt =====
-- convex/attendanceShifts.ts: what the loop pairs has a plausible counterpart, so that it is never
-- offered as mistaken.
use fw_gatekeeper.Prelude.{Bool, true, ◌&&◌, List, [], ◌∷◌, ◌++◌, ◌≡◌, inl, inr, refl, subst, arith}
use fw_gatekeeper.Prelude.Tests.{Bool-cases, ◌!=◌, option_eq}
use fw_gatekeeper.Prelude.Lists.{All, All-map, All-append, any}
use fw_gatekeeper.Prelude.Order.{Sorted, All-sort_with}
use fw_gatekeeper.Prelude.Text.{text_eq}
use fw_gatekeeper.Schema.{EventType, event_type_eq, clock_in, clock_out}
use fw_gatekeeper.Shifts.Pairing.{
  ShiftClock, PairState, no_pairs, no_later, is_instant, is_plausible_shift, is_in, is_out,
  note_repeated, still_open, close, turn_by, pair_turn, pair_each, ordered, pair_shift_events,
}
use fw_gatekeeper.Prelude.Chains.{Chain, Chain-append}
use fw_gatekeeper.Shifts.Plausible.{IsClock, has_exit, has_entry, ordered-Sorted}

module _ {E : Type 0} (clock : ShiftClock E) (events : List E) where
  open clock use {instant_ms, event_type}

  -- What passes a test is found among the events.
  abbrev Listed : E → Type 0
  Listed x = (t : E → Bool) → t x ≡ true → any t events ≡ true

  abbrev NoLater : E → E → Type 0
  NoLater x y = no_later clock x y ≡ true

  -- An entry that is open, where these events are still to come.
  abbrev OpenEntry : List E → E → Type 0
  OpenEntry rest s = (is_in clock s ≡ true) × Listed s × All (NoLater s) rest

  pub record PairsAreValid (rest : List E) (s : PairState clock) : Type 0 where
    pub open_entries : All (OpenEntry rest) s.open_ins
    pub open_order : Chain NoLater s.open_ins
    pub ins : All (λ x. has_exit clock events x ≡ true) s.paired_ins
    pub outs : All (λ x. has_entry clock events x ≡ true) s.paired_outs

  All-Listed : (xs : List E) → All (λ x. (t : E → Bool) → t x ≡ true → any t xs ≡ true) xs
  unfolding any
  All-Listed [] = tt
  All-Listed (x ∷ xs) = (
    λ t e. rw e refl,
    All-map (λ y. (t : E → Bool) → t y ≡ true → any t xs ≡ true)
        (λ y. (t : E → Bool) → t y ≡ true → any t (x ∷ xs) ≡ true) xs
        (λ y h t e.
          let found = h t e in elim (Bool-cases (t x)) [ inl k ↦ rw k refl | inr k ↦ rw k found ])
        (All-Listed xs),
  )

  -- An entry between the first one and an exit with which that makes a plausible shift makes one too.
  between :
      (first y x : E)
      → IsClock clock
      → NoLater first y
      → NoLater y x
      → is_plausible_shift clock first x ≡ true
      → is_plausible_shift clock y x ≡ true
  between first y x c h k e = elim (Bool-cases (is_instant (instant_ms y))) [
    | inl t ↦ ground (arith, c.keeps_order first y h, c.keeps_order y x k)
    | inr t ↦ let no_time = c.times_first y x k t in absurd (ground arith)
  ]

  -- An entry and an exit that are both listed.
  exit_found :
      (s x : E)
      → Listed x
      → is_out clock x ≡ true
      → is_plausible_shift clock s x ≡ true
      → has_exit clock events s ≡ true
  exit_found s x listed out e =
      listed (λ z. is_out clock z && is_plausible_shift clock s z) (ground arith)

  entry_found :
      (s x : E)
      → Listed s
      → is_in clock s ≡ true
      → is_plausible_shift clock s x ≡ true
      → has_entry clock events x ≡ true
  entry_found s x listed enters e =
      listed (λ z. is_in clock z && is_plausible_shift clock z x) (ground arith)

  OpenEntry-rest :
      (x : E) (rest xs : List E) → All (OpenEntry (x ∷ rest)) xs → All (OpenEntry rest) xs
  OpenEntry-rest x rest xs h =
      All-map (OpenEntry (x ∷ rest)) (OpenEntry rest) xs (λ s k. (k.0, k.1, k.2.1)) h

  opened :
      (x : E) (rest xs : List E)
      → Listed x
      → is_in clock x ≡ true
      → All (NoLater x) rest
      → All (OpenEntry (x ∷ rest)) xs
      → Chain NoLater xs
      → All (OpenEntry rest) (still_open clock x xs ++ x ∷ [])
        × Chain NoLater (still_open clock x xs ++ x ∷ [])
  opened x rest [] listed enters later h k = (((enters, listed, later), tt), (tt, tt))
  opened x rest (y ∷ ys) listed enters later h k =
      elim (Bool-cases (clock.local_date y != clock.local_date x)) [
        | inl e ↦ rw e (((enters, listed, later), tt), (tt, tt))
        | inr e ↦ rw e (
          All-append (OpenEntry rest) (y ∷ ys) (x ∷ []) (OpenEntry-rest x rest (y ∷ ys) h)
              ((enters, listed, later), tt),
          Chain-append NoLater (y ∷ ys) x k
              (All-map (OpenEntry (x ∷ rest)) (λ a. NoLater a x) (y ∷ ys) (λ a q. q.2.0) h),
        )
      ]

  closed :
      (x : E) (rest xs : List E) (s : PairState clock)
      → IsClock clock
      → Listed x
      → is_out clock x ≡ true
      → s.open_ins ≡ xs
      → PairsAreValid (x ∷ rest) s
      → PairsAreValid rest (close clock x xs s)
  closed x rest [] s c listed out is v = record {
    open_entries = rw is tt;
    open_order = rw is tt;
    ins = v.ins;
    outs = v.outs;
  }
  closed x rest (first ∷ others) s c listed out is v =
      elim (Bool-cases (is_plausible_shift clock first x)) [
        | inl e ↦ rw e (
            let all = subst (All (OpenEntry (x ∷ rest))) is v.open_entries in
            let order = subst (Chain NoLater) is v.open_order in
            record {
              open_entries = tt;
              open_order = tt;
              ins = All-append _ s.paired_ins (first ∷ others) v.ins (
                exit_found first x listed out e,
                both_listed first x rest others c listed out e order.0 all.1,
              );
              outs =
                  All-append _ s.paired_outs (x ∷ []) v.outs
                    (entry_found first x all.0.1 all.0.0 e, tt);
            })
        | inr e ↦ rw e (record { open_entries = tt; open_order = tt; ins = v.ins; outs = v.outs })
      ]
    where
      both_listed :
          (first x : E) (rest ys : List E)
          → IsClock clock
          → Listed x
          → is_out clock x ≡ true
          → is_plausible_shift clock first x ≡ true
          → All (NoLater first) ys
          → All (OpenEntry (x ∷ rest)) ys
          → All (λ y. has_exit clock events y ≡ true) ys
      both_listed first x rest [] c listed out e h k = tt
      both_listed first x rest (y ∷ ys) c listed out e (a, h) (b, k) = (
        exit_found y x listed out (between first y x c a b.2.0 e),
        both_listed first x rest ys c listed out e h k,
      )

  turn-PairsAreValid :
      (kind : EventType) (x : E) (rest : List E) (s : PairState clock)
      → IsClock clock
      → event_type x ≡ kind
      → Listed x
      → All (NoLater x) rest
      → PairsAreValid (x ∷ rest) s
      → PairsAreValid rest (turn_by clock kind x (note_repeated clock x s))
  turn-PairsAreValid clock_in x rest s c is listed later v =
      let (entries, order) =
        opened x rest s.open_ins listed (ground arith) later v.open_entries v.open_order in
      record { open_entries = entries; open_order = order; ins = v.ins; outs = v.outs }
  turn-PairsAreValid clock_out x rest s c is listed later v =
      closed x rest s.open_ins (note_repeated clock x s) c listed (ground arith) refl (record {
        open_entries = v.open_entries;
        open_order = v.open_order;
        ins = v.ins;
        outs = v.outs;
      })

  each-PairsAreValid :
      (xs : List E) (s : PairState clock)
      → IsClock clock
      → All Listed xs
      → Sorted (no_later clock) xs
      → PairsAreValid xs s
      → PairsAreValid [] (pair_each clock xs s)
  unfolding pair_each pair_turn
  each-PairsAreValid [] s c l h v = v
  each-PairsAreValid (x ∷ xs) s c (listed, l) (later, h) v =
      each-PairsAreValid xs (pair_turn clock x s) c l h
        (turn-PairsAreValid (event_type x) x xs s c refl listed later v)

  -- Every entry that is paired has an exit, and every exit that is paired an entry, among the events
  -- with which it makes a plausible shift.
  pub paired-plausible :
      IsClock clock
      → All (λ s. has_exit clock events s ≡ true) (pair_shift_events clock events).paired_ins
        × All (λ x. has_entry clock events x ≡ true) (pair_shift_events clock events).paired_outs
  unfolding pair_shift_events
  paired-plausible c =
      let v =
        each-PairsAreValid (ordered clock events) (no_pairs clock) c
          (All-sort_with (no_later clock) Listed events (All-Listed events))
          (ordered-Sorted clock events)
          (record { open_entries = tt; open_order = tt; ins = tt; outs = tt }) in
      (v.ins, v.outs)
