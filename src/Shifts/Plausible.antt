-- ===== src/Shifts/Plausible.antt =====
-- convex/attendanceShifts.ts: the two pointers find every event that has a plausible counterpart.
use fw_gatekeeper.Prelude.{
  Bool, true, false, ◌&&◌, List, [], ◌∷◌, ◌++◌, reverse, ◌≡◌, inl, inr, refl, ap, ◌∙◌, arith,
}
use fw_gatekeeper.Prelude.Tests.{Bool-cases}
use fw_gatekeeper.Prelude.Lists.{All, All-filter, any, filter, filter_satisfies}
use fw_gatekeeper.Prelude.Order.{Sorted, IsOrder, Sorted-sort_with, text_ltb_asym, text_leb_trans}
use fw_gatekeeper.Prelude.Text.{text_ltb}
use fw_gatekeeper.Prelude.Chains.{
  All-every, Chain, Chain-reverse, Chain-filter, any-reverse, any-filter, any-sort_with, any-same,
  filter-same,
}
use fw_gatekeeper.Shifts.Pairing.{
  ShiftClock, no_later, is_instant, is_before, is_plausible_shift, pass_while, plausible_ins,
  plausible_outs, is_in, is_out, ordered, timed, pair_shift_events,
}
use fw_gatekeeper.Shifts.Pointer.{point, point_lem}

module _ {E : Type 0} (clock : ShiftClock E) where
  open clock use {instant_ms}

  -- Times that do not go back.
  abbrev Rises : E → E → Type 0
  Rises x y =
      (is_before clock y x ≡ false)
      × (is_instant (instant_ms x) ≡ true)
      × (is_instant (instant_ms y) ≡ true)

  abbrev Falls : E → E → Type 0
  Falls x y = Rises y x

  plausible_ins-point :
      (ins outs : List E)
      → plausible_ins clock ins outs
        ≡ point (λ s x. is_before clock x s) (λ s x. is_plausible_shift clock s x) ins outs
  unfolding plausible_ins point
  plausible_ins-point [] outs = refl
  plausible_ins-point (s ∷ ins) outs =
      rw (plausible_ins-point ins (pass_while (λ x. is_before clock x s) outs)) refl

  plausible_outs-point :
      (outs ins : List E)
      → plausible_outs clock outs ins
        ≡ point (λ x s. is_before clock x s) (λ x s. is_plausible_shift clock s x) outs ins
  unfolding plausible_outs point
  plausible_outs-point [] ins = refl
  plausible_outs-point (x ∷ outs) ins =
      rw (plausible_outs-point outs (pass_while (λ s. is_before clock x s) ins)) refl

  plausible_ins_lem :
      (ins outs : List E)
      → Chain Rises ins
      → Chain Rises outs
      → plausible_ins clock ins outs
        ≡ filter (λ s. any (λ x. is_plausible_shift clock s x) outs) ins
  plausible_ins_lem ins outs h k =
      plausible_ins-point ins outs
      ∙ point_lem (λ s x. is_before clock x s) (λ s x. is_plausible_shift clock s x) Rises Rises
          (λ s x e. ground arith) (λ s x y e j r. ground arith) (λ s s' x r e. ground arith) ins
          outs h k

  plausible_outs_lem :
      (outs ins : List E)
      → Chain Falls outs
      → Chain Falls ins
      → plausible_outs clock outs ins
        ≡ filter (λ x. any (λ s. is_plausible_shift clock s x) ins) outs
  plausible_outs_lem outs ins h k =
      plausible_outs-point outs ins
      ∙ point_lem (λ x s. is_before clock x s) (λ x s. is_plausible_shift clock s x) Falls Falls
          (λ x s e. ground arith) (λ x s t e j r. ground arith) (λ x x' s r e. ground arith) outs
          ins h k

  -- The instants that keys stand for: a later key is of no earlier instant, and what is no time has
  -- the last key. These are what createRecognitionTimestampSortKey gives.
  pub record IsClock : Type 0 where
    pub keeps_order : (a b : E) → no_later clock a b ≡ true → is_before clock b a ≡ false
    pub times_first :
        (a b : E)
        → no_later clock a b ≡ true
        → is_instant (instant_ms a) ≡ false
        → is_instant (instant_ms b) ≡ false

  no_later-IsOrder : IsOrder (no_later clock)
  no_later-IsOrder = record {
    total = λ a b. elim (Bool-cases (text_ltb (clock.order_key b) (clock.order_key a))) [
      | inr e ↦ inl (ground arith)
      | inl e ↦
          let other = text_ltb_asym (clock.order_key b) (clock.order_key a) e in inr (ground arith)
    ];
    trans = λ a b c h k.
        let leb =
          text_leb_trans (clock.order_key a) (clock.order_key b) (clock.order_key c) (ground arith)
            (ground arith) in
        ground arith;
  }

  pub ordered-Sorted : (events : List E) → Sorted (no_later clock) (ordered clock events)
  ordered-Sorted events = Sorted-sort_with (no_later clock) events no_later-IsOrder

  Chain-timed :
      (xs : List E)
      → IsClock
      → Sorted (no_later clock) xs
      → Chain Rises (filter (λ x. is_instant (instant_ms x)) xs)
  unfolding filter
  Chain-timed [] c h = tt
  Chain-timed (x ∷ xs) c (a, h) = elim (Bool-cases (is_instant (instant_ms x))) [
    | inr e ↦ rw e (Chain-timed xs c h)
    | inl e ↦
        let rises : (y : E)
            → no_later clock x y ≡ true
            → is_instant (instant_ms y) ≡ true
            → Rises x y =
          λ y k t. (c.keeps_order x y k, e, t) in
        rw e (
          both_chain x (filter (λ y. is_instant (instant_ms y)) xs) rises
              (All-filter (λ y. no_later clock x y ≡ true) (λ y. is_instant (instant_ms y)) xs a)
              (filter_satisfies (λ y. is_instant (instant_ms y)) xs),
          Chain-timed xs c h,
        )
  ]
    where
      both_chain :
          (x : E) (ys : List E)
          → ((y : E) → no_later clock x y ≡ true → is_instant (instant_ms y) ≡ true → Rises x y)
          → All (λ y. no_later clock x y ≡ true) ys
          → All (λ y. is_instant (instant_ms y) ≡ true) ys
          → All (Rises x) ys
      both_chain x [] f h k = tt
      both_chain x (y ∷ ys) f (p, h) (q, k) = (f y p q, both_chain x ys f h k)

  -- An exit, or an entry, that makes a plausible shift of an event.
  abbrev pub has_exit : List E → E → Bool
  has_exit events s = any (λ x. is_out clock x && is_plausible_shift clock s x) events

  abbrev pub has_entry : List E → E → Bool
  has_entry events x = any (λ s. is_in clock s && is_plausible_shift clock s x) events

  -- A search of the exits, or of the entries, in order is one of all events.
  searched :
      (kind fits : E → Bool) (events : List E)
      → ((x : E) → fits x ≡ true → is_instant (instant_ms x) ≡ true)
      → any fits (filter kind (timed clock events)) ≡ any (λ x. kind x && fits x) events
  searched kind fits events times =
      any-filter kind fits (timed clock events)
      ∙ any-filter (λ x. is_instant (instant_ms x)) (λ x. kind x && fits x) (ordered clock events)
      ∙ any-sort_with (no_later clock) (λ x. is_instant (instant_ms x) && (kind x && fits x)) events
      ∙ any-same (λ x. is_instant (instant_ms x) && (kind x && fits x)) (λ x. kind x && fits x)
          events
          (λ x. elim (Bool-cases (fits x)) [
            | inl e ↦ ground (arith, times x e)
            | inr e ↦ elim (Bool-cases (kind x)) [ inl k ↦ ground arith | inr k ↦ ground arith ]
          ])

  -- The two loops with a pointer take every entry that is a time and has an exit with which it makes a
  -- plausible shift, among all events, and every exit that has such an entry; and take no other.
  pub plausible_lem :
      (events : List E)
      → IsClock
      → (pair_shift_events clock events).plausible
        ≡ filter (has_exit events) (filter (is_in clock) (timed clock events))
          ++ filter (has_entry events) (reverse (filter (is_out clock) (timed clock events)))
  unfolding pair_shift_events
  plausible_lem events c =
      let ins = filter (is_in clock) (timed clock events) in
      let outs = filter (is_out clock) (timed clock events) in
      let chain = Chain-timed (ordered clock events) c (ordered-Sorted events) in
      let rise_ins = Chain-filter Rises (is_in clock) (timed clock events) chain in
      let rise_outs = Chain-filter Rises (is_out clock) (timed clock events) chain in
      ap (λ xs. xs ++ plausible_outs clock (reverse outs) (reverse ins))
        (plausible_ins_lem ins outs rise_ins rise_outs
          ∙ filter-same _ (has_exit events) ins (
              All-every _ ins (λ s.
                searched (is_out clock) (λ x. is_plausible_shift clock s x) events
                  (λ x e. ground arith))))
      ∙ ap (λ xs. filter (has_exit events) ins ++ xs)
          (plausible_outs_lem (reverse outs) (reverse ins) (Chain-reverse Rises outs rise_outs)
              (Chain-reverse Rises ins rise_ins)
            ∙ filter-same _ (has_entry events) (reverse outs) (
                All-every _ (reverse outs) (λ x.
                  any-reverse (λ s. is_plausible_shift clock s x) ins
                  ∙ searched (is_in clock) (λ s. is_plausible_shift clock s x) events
                      (λ s e. ground arith))))
