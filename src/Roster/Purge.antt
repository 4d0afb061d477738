-- ===== src/Roster/Purge.antt =====
-- convex/kiosks.ts: a purge of a worker stays pending at a kiosk until the kiosk acknowledges a
-- receipt that was issued after it.
use fw_gatekeeper.Prelude.{
  ℕ, ◌+◌, ◌≤◌, ◌<◌, Bool, true, false, Option, none, some, List, [], ◌∷◌, ◌≡◌, ◌≢◌, ◌⊎◌, sym, ◌∙◌,
  subst, inl, inr, arith,
}
use fw_gatekeeper.Prelude.Tests.{Bool-cases, nat_beq}
use fw_gatekeeper.Prelude.Lists.{All, All-append}
use fw_gatekeeper.Prelude.Text.{Text}
use fw_gatekeeper.Prelude.Result.{ok}
use fw_gatekeeper.Prelude.Table.{
  patch_row, All-patch_row, All-delete_row, All-get_row, row_id-get_row,
}
use fw_gatekeeper.Schema.{Worker, Kiosk, kiosk_row, RosterReceipt, receipt_row, Db, Platform}
use fw_gatekeeper.Roster.Sequence.{current, last_purge, advance, write_worker, insert_worker}
use fw_gatekeeper.Roster.Receipts.{
  issue_receipt, acknowledge_receipt, issue_legacy, LegacyIssue, pending_receipt, applied, raise,
  purge_pending,
}
use fw_gatekeeper.Roster.Outcomes.{
  write_worker_lem, insert_worker_lem, unchanged, fresh, issue_receipt_lem, same, taken,
  acknowledge_receipt_lem,
}
use fw_gatekeeper.Roster.Invariant.{Within, RosterIsValid, current-advance, last_purge-advance}
use fw_gatekeeper.Roster.Reach.{
  Step, wrote, enrolled, receipt_issued, acknowledged, cursor_issued, nothing, issued,
  issue_legacy_lem,
}

-- A sequence that is below `n`, or is not set.
abbrev Below : ℕ → Option ℕ → Type 0
Below n none = Unit
Below n (some s) = s < n

-- What holds at kiosk `k` while the purge `n` has not reached it.
record Uncertified (k n : ℕ) (db : Db) : Type 0 where
  purge : (l : ℕ) × (last_purge db ≡ some l) × (n ≤ l)
  reached : n ≤ current db
  kiosks : All (λ (x : Kiosk). x.id ≡ k → Below n x.roster_applied_sequence) db.kiosks
  receipts :
      All (λ (r : RosterReceipt). r.kiosk_id ≡ k → Below n r.roster_sequence) db.roster_receipts

Below-raise : (n : ℕ) (a s : Option ℕ) → Below n a → Below n s → Below n (raise a s)
Below-raise n a none h k = h
Below-raise n none (some s) h k = k
Below-raise n (some a) (some s) h k = ground arith

All-any :
    {A : Type 0} (P Q : A → Type 0) (xs : List A) → ((a : A) → P a → Q a) → All P xs → All Q xs
All-any P Q [] w h = tt
All-any P Q (x ∷ xs) w (p, h) = (w x p, All-any P Q xs w h)

Below-Within : (n : ℕ) (o : Option ℕ) → Within n o → Below (n + 1) o
Below-Within n none h = tt
Below-Within n (some s) h = omega arith

-- A purge certifies no kiosk.
Uncertified-purge :
    (fields : Worker → Worker) (id k : ℕ) (db db' : Db)
    → RosterIsValid db
    → write_worker fields id true db ≡ ok db'
    → Uncertified k (current db + 1) db'
Uncertified-purge fields id k db db' v h =
    let s = current db + 1 in
    let e = write_worker_lem fields id true db db' h in
    rw e (record {
      purge = (s, last_purge-advance true s db db, omega arith);
      reached = rw (current-advance true s db.roster_counter db) (omega arith);
      kiosks =
          All-any _ (λ (x : Kiosk). x.id ≡ k → Below s x.roster_applied_sequence) db.kiosks
            (λ x q _. Below-Within (current db) x.roster_applied_sequence q.0) v.kiosks;
      receipts =
          All-any _ (λ (r : RosterReceipt). r.kiosk_id ≡ k → Below s r.roster_sequence)
            db.roster_receipts (λ r q _. Below-Within (current db) r.roster_sequence q) v.receipts;
    })

-- No new receipt for the kiosk. (One that waits may be sent out again.)
module _ (p : Platform) (k : ℕ) where
  abbrev pub Spares : {db db' : Db} → Step p db db' → Type 0
  Spares {db} (receipt_issued document now h) = (document ≢ k) ⊎ (pending_receipt k db ≢ none)
  Spares _ = Unit

  -- Any handlers, but none that gives the kiosk a new receipt.
  pub data Quiet (db : Db) : Db → Type 0 where
    quiet : Quiet db db
    after : {d e : Db} → Quiet db d → (s : Step p d e) → Spares s → Quiet db e

module _ (k n : ℕ) where
  later_purge :
      (purge : Bool) (db d : Db)
      → Uncertified k n db
      → (l : ℕ) × (last_purge
            (record d { roster_counter = some (advance purge (current db + 1) db.roster_counter) })
          ≡ some l)
        × (n ≤ l)
  later_purge true db d u =
      let m = u.reached in (current db + 1, last_purge-advance true _ db d, omega arith)
  later_purge false db d u =
      let (l, e, m) = u.purge in (l, last_purge-advance false (current db + 1) db d ∙ e, m)

  Uncertified-write :
      (fields : Worker → Worker) (id : ℕ) (purge : Bool) (db db' : Db)
      → Uncertified k n db
      → write_worker fields id purge db ≡ ok db'
      → Uncertified k n db'
  Uncertified-write fields id purge db db' u h =
      let m = u.reached in
      rw (write_worker_lem fields id purge db db' h) (record {
        purge = later_purge purge db db u;
        reached = rw (current-advance purge (current db + 1) db.roster_counter db) (omega arith);
        kiosks = u.kiosks;
        receipts = u.receipts;
      })

  Uncertified-enrol :
      (fields : Worker) (now : ℕ) (db : Db) (id : ℕ) (db' : Db)
      → Uncertified k n db
      → insert_worker fields now db ≡ ok (id, db')
      → Uncertified k n db'
  Uncertified-enrol fields now db id db' u h =
      let m = u.reached in
      rw (insert_worker_lem fields now db id db' h) (record {
        purge = later_purge false db db u;
        reached = rw (current-advance false (current db + 1) db.roster_counter db) (omega arith);
        kiosks = u.kiosks;
        receipts = u.receipts;
      })

  not_mine :
      (document j : ℕ) (db : Db)
      → (document ≢ k) ⊎ (pending_receipt k db ≢ none)
      → j ≡ document
      → j ≡ k
      → pending_receipt j db ≡ none
      → ⊥
  not_mine document j db (inl other) same_id mine new = other (sym same_id ∙ mine)
  not_mine document j db (inr waits) same_id mine new =
      waits (subst (λ i. pending_receipt i db ≡ none) mine new)

  Uncertified-issue :
      (document : ℕ) (now : Text) (db : Db)
      → (document ≢ k) ⊎ (pending_receipt k db ≢ none)
      → Uncertified k n db
      → Uncertified k n (issue_receipt document now db).1
  Uncertified-issue document now db other u = elim (issue_receipt_lem document now db) [
    | unchanged e ↦ rw e u
    | fresh x found new e ↦
        let same_id = row_id-get_row document db.kiosks x found in
        rw e (record {
          purge = u.purge;
          reached = u.reached;
          kiosks = u.kiosks;
          receipts =
              All-append (λ (r : RosterReceipt). r.kiosk_id ≡ k → Below n r.roster_sequence)
                db.roster_receipts _ u.receipts
                (λ mine. absurd (not_mine document x.id db other same_id mine new), tt);
        })
  ]

  All-patch_applied :
      (x : Kiosk) (r : RosterReceipt) (ks : List Kiosk)
      → r.kiosk_id ≡ x.id
      → (r.kiosk_id ≡ k → Below n r.roster_sequence)
      → All (λ (y : Kiosk). y.id ≡ k → Below n y.roster_applied_sequence) ks
      → All
          (λ (y : Kiosk). y.id ≡ k → Below n y.roster_applied_sequence)
          (patch_row x.id (applied r) ks)
  unfolding patch_row
  All-patch_applied x r [] mine old h = tt
  All-patch_applied x r (y ∷ ks) mine old (q, h) = elim (Bool-cases (nat_beq y.id x.id)) [
    | inr other ↦ rw other (q, All-patch_applied x r ks mine old h)
    | inl hit ↦
        let at : y.id ≡ x.id = ground arith in
        rw hit (
          λ e.
              Below-raise n y.roster_applied_sequence r.roster_sequence (q e)
                (old (mine ∙ sym at ∙ e)),
          All-patch_applied x r ks mine old h,
        )
  ]

  Uncertified-acknowledge :
      (document receipt : ℕ) (now : Text) (db : Db)
      → Uncertified k n db
      → Uncertified k n (acknowledge_receipt document receipt now db).1
  Uncertified-acknowledge document receipt now db u =
      elim (acknowledge_receipt_lem document receipt now db) [
        | same e ↦ rw e u
        | taken x r found waiting mine e ↦
            let Q = λ (y : RosterReceipt). y.kiosk_id ≡ k → Below n y.roster_sequence in
            let old = All-get_row Q receipt db.roster_receipts r u.receipts waiting in
            rw e (record {
              purge = u.purge;
              reached = u.reached;
              kiosks = All-patch_applied x r db.kiosks mine old u.kiosks;
              receipts = All-delete_row Q r.id db.roster_receipts u.receipts;
            })
      ]

  Uncertified-legacy :
      (p : Platform) (document : ℕ) (since : Option Text) (now : ℕ) (db : Db)
      (r : Option LegacyIssue) (db' : Db)
      → Uncertified k n db
      → issue_legacy p document since now db ≡ ok (r, db')
      → Uncertified k n db'
  Uncertified-legacy p document since now db r db' u h =
      elim (issue_legacy_lem p document since now db r db' h) [
        | nothing e ↦ rw e u
        | issued x cursor found at e ↦ rw e (record {
          purge = u.purge;
          reached = u.reached;
          kiosks =
              All-patch_row (λ (y : Kiosk). y.id ≡ k → Below n y.roster_applied_sequence) x.id _
                db.kiosks (λ y q. q) u.kiosks;
          receipts = u.receipts;
        })
      ]

  Uncertified-Step :
      (p : Platform) {db db' : Db} (s : Step p db db')
      → Spares p k s
      → Uncertified k n db
      → Uncertified k n db'
  Uncertified-Step p {db} {db'} (wrote fields id purge h) q u =
      Uncertified-write fields id purge db db' u h
  Uncertified-Step p {db} {db'} (enrolled fields now id h) q u =
      Uncertified-enrol fields now db id db' u h
  Uncertified-Step p {db} {db'} (receipt_issued document now h) q u =
      subst (Uncertified k n) h (Uncertified-issue document now db q u)
  Uncertified-Step p {db} {db'} (acknowledged document receipt now h) q u =
      subst (Uncertified k n) h (Uncertified-acknowledge document receipt now db u)
  Uncertified-Step p {db} {db'} (cursor_issued document since now r h) q u =
      Uncertified-legacy p document since now db r db' u h

  Uncertified-Quiet :
      (p : Platform) {db db' : Db} → Quiet p k db db' → Uncertified k n db → Uncertified k n db'
  Uncertified-Quiet p quiet u = u
  Uncertified-Quiet p (after r s q) u = Uncertified-Step p s q (Uncertified-Quiet p r u)

pending_below :
    (n l : ℕ) (x : Kiosk)
    → n ≤ l
    → Below n x.roster_applied_sequence
    → purge_pending (some l) x ≡ true
unfolding purge_pending
pending_below n l x h b = ground arith

-- After a purge, whatever handlers run, a kiosk for which no new receipt is issued goes on being
-- shown as pending, however often it acknowledges the receipts that it had.
pub purge_stays_pending :
    (p : Platform) (fields : Worker → Worker) (id k : ℕ) (db purged last : Db)
    → RosterIsValid db
    → write_worker fields id true db ≡ ok purged
    → Quiet p k purged last
    → All (λ (x : Kiosk). x.id ≡ k → purge_pending (last_purge last) x ≡ true) last.kiosks
purge_stays_pending p fields id k db purged last v h r =
    let n = current db + 1 in
    let u = Uncertified-Quiet k n p r (Uncertified-purge fields id k db purged v h) in
    let (l, e, m) = u.purge in
    All-any (λ (x : Kiosk). x.id ≡ k → Below n x.roster_applied_sequence)
      (λ (x : Kiosk). x.id ≡ k → purge_pending (last_purge last) x ≡ true) last.kiosks
      (λ x q mine. rw e (pending_below n l x m (q mine))) u.kiosks
