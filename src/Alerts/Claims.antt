-- ===== src/Alerts/Claims.antt =====
-- convex/peopleAlerts.ts: an event is claimed by one run at a time, and not after its delivery.
use fw_gatekeeper.Prelude.{
  ℕ, suc, ◌+◌, ◌<◌, true, false, not, some, List, [], ◌∷◌, ◌≡◌, ◌≢◌, refl, sym, ap, ◌∙◌, subst, inl,
  inr, arith,
}
use fw_gatekeeper.Prelude.Tests.{Bool-cases, Option-cases, nat_beq}
use fw_gatekeeper.Prelude.Lists.{
  All, All-map, All-find, All-take, All-sort_by, filter, find, find_satisfies, take, length,
}
use fw_gatekeeper.Prelude.Table.{get_row, patch_row}
use fw_gatekeeper.Prelude.Ids.{DistinctIds, found_self}
use fw_gatekeeper.Schema.{PeopleAlertEvent, alert_event_row, Db, Platform}
use fw_gatekeeper.Alerts.{
  ClaimedEvent, is_among, distinct, is_eligible, claim_order, candidates, claim_pending, claim_ms,
  finished, finish_delivery,
}

All-eligible :
    (P : PeopleAlertEvent → Type 0) (now : ℕ) (es : List PeopleAlertEvent)
    → All P es
    → All (λ e. (is_eligible now e ≡ true) × P e) (filter (is_eligible now) es)
unfolding filter
All-eligible P now [] h = tt
All-eligible P now (e ∷ es) (p, h) = elim (Bool-cases (is_eligible now e)) [
  | inl b ↦ rw b ((b, p), All-eligible P now es h)
  | inr b ↦ rw b (All-eligible P now es h)
]

-- What is claimed was eligible, and has what all rows have.
claimed_lem :
    (P : PeopleAlertEvent → Type 0) (ids : List ℕ) (now : ℕ) (db : Db) (c : ClaimedEvent)
    → All P db.alert_events
    → (claim_pending ids now db).0 ≡ some c
    → (e : PeopleAlertEvent) × (e.id ≡ c.id)
      × (is_eligible now e ≡ true)
      × P e
      × (is_among (distinct (take 20 ids)) e.id ≡ false)
      × ((claim_pending ids now db).1.alert_events
          ≡ patch_row e.id
              (λ (x : PeopleAlertEvent). record x { claimed_until = some (now + claim_ms) })
              db.alert_events)
unfolding claim_pending
claimed_lem P ids now db c h k =
    let attempted = distinct (take 20 ids) in
    let t = λ (e : PeopleAlertEvent). not (is_among attempted e.id) in
    elim (Option-cases (find t (candidates now attempted db))) [
      | inl nothing ↦ absurd (ground arith)
      | inr (e, found) ↦
          let Q = λ (x : PeopleAlertEvent). (is_eligible now x ≡ true) × P x in
          let (good, held) =
            All-find Q t (candidates now attempted db)
              (All-take Q (suc (length attempted)) _
                (All-sort_by claim_order Q _ (All-eligible P now db.alert_events h)))
              found in
          let fresh = find_satisfies t (candidates now attempted db) found in
          (e, ground arith, good, held, ground arith, ground arith)
    ]

patched_held :
    (i t : ℕ) (f : PeopleAlertEvent → PeopleAlertEvent) (es : List PeopleAlertEvent)
    → ((e : PeopleAlertEvent) (n : ℕ) → n < t → is_eligible n (f e) ≡ false)
    → ((e : PeopleAlertEvent) → (f e).id ≡ e.id)
    → All
        (λ (e : PeopleAlertEvent). e.id ≡ i → (n : ℕ) → n < t → is_eligible n e ≡ false)
        (patch_row i f es)
unfolding patch_row
patched_held i t f [] shut keeps = tt
patched_held i t f (e ∷ es) shut keeps = elim (Bool-cases (nat_beq e.id i)) [
  | inl hit ↦ rw hit ((λ _ n h. shut e n h), patched_held i t f es shut keeps)
  | inr miss ↦ rw miss ((λ same. absurd (ground arith)), patched_held i t f es shut keeps)
]

all_of : (es : List PeopleAlertEvent) → All {0, 0} (λ (e : PeopleAlertEvent). Unit {0}) es
all_of [] = tt
all_of (e ∷ es) = (tt, all_of es)

patched_shut :
    (i : ℕ) (f : PeopleAlertEvent → PeopleAlertEvent) (es : List PeopleAlertEvent)
    → ((e : PeopleAlertEvent) (n : ℕ) → is_eligible n (f e) ≡ false)
    → ((e : PeopleAlertEvent) → (f e).id ≡ e.id)
    → All
        (λ (e : PeopleAlertEvent). e.id ≡ i → (n : ℕ) → is_eligible n e ≡ false)
        (patch_row i f es)
unfolding patch_row
patched_shut i f [] shut keeps = tt
patched_shut i f (e ∷ es) shut keeps = elim (Bool-cases (nat_beq e.id i)) [
  | inl hit ↦ rw hit ((λ _ n. shut e n), patched_shut i f es shut keeps)
  | inr miss ↦ rw miss ((λ same. absurd (ground arith)), patched_shut i f es shut keeps)
]

-- While an event is claimed, and its minute has not passed, no run claims it a second time, whatever
-- events that run has attempted.
pub claim_pending_exclusive :
    (ids later_ids : List ℕ) (now later : ℕ) (db : Db) (c d : ClaimedEvent)
    → (claim_pending ids now db).0 ≡ some c
    → later < now + claim_ms
    → (claim_pending later_ids later (claim_pending ids now db).1).0 ≡ some d
    → d.id ≢ c.id
claim_pending_exclusive ids later_ids now later db c d h soon again same =
    let (e, e_is, good, _, _, new) =
      claimed_lem (λ x. Unit {0}) ids now db c (all_of db.alert_events) h in
    let Q = λ (x : PeopleAlertEvent).
      x.id ≡ e.id → (n : ℕ) → n < now + claim_ms → is_eligible n x ≡ false in
    let held : All Q (claim_pending ids now db).1.alert_events =
      rw new (
        patched_held e.id (now + claim_ms) _ db.alert_events (λ x n k. ground arith) (λ x. refl)) in
    let (f, f_is, eligible, shut, _, _) =
      claimed_lem Q later_ids later (claim_pending ids now db).1 d held again in
    let no = shut (f_is ∙ same ∙ sym e_is) later soon in ground arith

not_due :
    (i : ℕ) (e : PeopleAlertEvent) (es : List PeopleAlertEvent)
    → DistinctIds es
    → get_row i es ≡ some e
    → e.delivered ≡ true
    → All (λ (x : PeopleAlertEvent). x.id ≡ i → (n : ℕ) → is_eligible n x ≡ false) es
not_due i e es d found done =
    All-map (λ (x : PeopleAlertEvent). get_row x.id es ≡ some x)
      (λ (x : PeopleAlertEvent). x.id ≡ i → (n : ℕ) → is_eligible n x ≡ false) es
      (λ x self same n.
        let one : some x ≡ some e = sym self ∙ ap (λ j. get_row j es) same ∙ found in
        let eq : x ≡ e = ground arith in
        let x_done : x.delivered ≡ true = ap (λ (y : PeopleAlertEvent). y.delivered) eq ∙ done in
        ground arith)
      (found_self es d)

finish_shuts :
    (p : Platform) (i now : ℕ) (e : PeopleAlertEvent) (db : Db)
    → DistinctIds db.alert_events
    → get_row i db.alert_events ≡ some e
    → All
        (λ (x : PeopleAlertEvent). x.id ≡ i → (n : ℕ) → is_eligible n x ≡ false)
        (finish_delivery p i true now db).alert_events
unfolding finish_delivery
finish_shuts p i now e db d found =
    let Q = λ (x : PeopleAlertEvent). x.id ≡ i → (n : ℕ) → is_eligible n x ≡ false in
    elim (Bool-cases e.delivered) [
      | inl done ↦
          let same : db.alert_events ≡ (finish_delivery p i true now db).alert_events =
            ground arith in
          subst (All Q) same (not_due i e db.alert_events d found done)
      | inr pending ↦
          let same : patch_row i (finished p true now) db.alert_events
              ≡ (finish_delivery p i true now db).alert_events =
            ground arith in
          subst (All Q) same
            (patched_shut i (finished p true now) db.alert_events (λ x n. refl) (λ x. refl))
    ]

-- An event whose delivery was finished with success is never claimed again, at any time.
pub delivered_not_claimed :
    (p : Platform) (i now later : ℕ) (ids : List ℕ) (e : PeopleAlertEvent) (db : Db)
    (d : ClaimedEvent)
    → DistinctIds db.alert_events
    → get_row i db.alert_events ≡ some e
    → (claim_pending ids later (finish_delivery p i true now db)).0 ≡ some d
    → d.id ≢ i
delivered_not_claimed p i now later ids e db d distinct_ids found again same =
    let Q = λ (x : PeopleAlertEvent). x.id ≡ i → (n : ℕ) → is_eligible n x ≡ false in
    let (f, f_is, eligible, shut, _, _) =
      claimed_lem Q ids later (finish_delivery p i true now db) d
        (finish_shuts p i now e db distinct_ids found) again in
    let no = shut (f_is ∙ same) later in ground arith
