-- ===== src/Roster/Invariant.antt =====
-- convex/rosterSequence.ts and convex/kiosks.ts: no worker, receipt, kiosk or purge is ahead of the
-- counter, whatever handlers run.
use fw_gatekeeper.Prelude.{
  ℕ, ◌+◌, ◌≤◌, Bool, true, false, Option, none, some, List, [], ◌∷◌, ◌≡◌, refl, sym, ap, subst, ◌∙◌,
  arith,
}
use fw_gatekeeper.Prelude.Tests.{if◌then◌else◌, nat_eq, option_eq}
use fw_gatekeeper.Prelude.Lists.{All, All-append}
use fw_gatekeeper.Prelude.Text.{Text}
use fw_gatekeeper.Prelude.Result.{ok}
use fw_gatekeeper.Prelude.Table.{All-patch_row, All-delete_row, All-get_row}
use fw_gatekeeper.Schema.{
  Worker, worker_row, Kiosk, kiosk_row, RosterReceipt, receipt_row, LegacyCursor, RosterCounter, Db,
}
use fw_gatekeeper.Roster.Sequence.{current, last_purge, advance, stamp, write_worker, insert_worker}
use fw_gatekeeper.Roster.Outcomes.{
  write_worker_lem, insert_worker_lem, unchanged, fresh, issue_receipt_lem, same, taken,
  acknowledge_receipt_lem,
}
use fw_gatekeeper.Roster.Receipts.{issue_receipt, acknowledge_receipt, applied, raise}

-- A sequence that is set is at most `n`.
abbrev pub Within : ℕ → Option ℕ → Type 0
Within n none = Unit
Within n (some s) = s ≤ n

Within-mono : (m n : ℕ) (o : Option ℕ) → m ≤ n → Within m o → Within n o
Within-mono m n none h k = tt
Within-mono m n (some s) h k = omega arith

abbrev pub cursors_of : Kiosk → List LegacyCursor
cursors_of k = elim k.legacy_roster_cursors [ none ↦ [] | some h ↦ h ]

abbrev pub KioskWithin : ℕ → Kiosk → Type 0
KioskWithin n k =
    Within n k.roster_applied_sequence
    × All (λ (c : LegacyCursor). c.roster_sequence ≤ n) (cursors_of k)

pub record UpTo (n : ℕ) (db : Db) : Type 0 where
  pub workers : All (λ (w : Worker). Within n w.roster_sequence) db.workers
  pub kiosks : All (KioskWithin n) db.kiosks
  pub receipts : All (λ (r : RosterReceipt). Within n r.roster_sequence) db.roster_receipts
  pub purge : Within n (last_purge db)

-- Nothing is ahead of the counter.
abbrev pub RosterIsValid : Db → Type 0
RosterIsValid db = UpTo (current db) db

pub valid_from : (n : ℕ) (db : Db) → current db ≡ n → UpTo n db → RosterIsValid db
valid_from n db e m = subst (λ k. UpTo k db) (sym e) m

module _ {A : Type 0} (P Q : A → Type 0) (weaken : (a : A) → P a → Q a) where
  All-mono : (xs : List A) → All P xs → All Q xs
  All-mono [] h = tt
  All-mono (x ∷ xs) (p, h) = (weaken x p, All-mono xs h)

KioskWithin-mono : (m n : ℕ) → m ≤ n → (k : Kiosk) → KioskWithin m k → KioskWithin n k
KioskWithin-mono m n h k (a, c) = (
  Within-mono m n k.roster_applied_sequence h a,
  All-mono (λ (c : LegacyCursor). c.roster_sequence ≤ m)
      (λ (c : LegacyCursor). c.roster_sequence ≤ n) (λ c q. omega arith) (cursors_of k) c,
)

pub current-advance :
    (purge : Bool) (s : ℕ) (c : Option RosterCounter) (db : Db)
    → current (record db { roster_counter = some (advance purge s c) }) ≡ s
unfolding advance
current-advance purge s none db = refl
current-advance purge s (some c) db = refl

pub last_purge-advance :
    (purge : Bool) (s : ℕ) (db d : Db)
    → last_purge (record d { roster_counter = some (advance purge s db.roster_counter) })
      ≡ (if purge then some s else last_purge db)
unfolding advance
last_purge-advance purge s db d = ground arith

-- A larger counter bounds what the smaller one bounded.
UpTo-mono : (n : ℕ) (db : Db) → current db ≤ n → RosterIsValid db → UpTo n db
UpTo-mono n db h v = record {
  workers =
      All-mono (λ (w : Worker). Within (current db) w.roster_sequence)
        (λ (w : Worker). Within n w.roster_sequence)
        (λ w. Within-mono (current db) n w.roster_sequence h) db.workers v.workers;
  kiosks =
      All-mono (KioskWithin (current db)) (KioskWithin n) (KioskWithin-mono (current db) n h)
        db.kiosks v.kiosks;
  receipts =
      All-mono (λ (r : RosterReceipt). Within (current db) r.roster_sequence)
        (λ (r : RosterReceipt). Within n r.roster_sequence)
        (λ r. Within-mono (current db) n r.roster_sequence h) db.roster_receipts v.receipts;
  purge = Within-mono (current db) n (last_purge db) h v.purge;
}

Within-purge :
    (purge : Bool) (s : ℕ) (o : Option ℕ) → Within s o → Within s (if purge then some s else o)
Within-purge true s o h = omega arith
Within-purge false s o h = h

pub write_worker-IsValid :
    (fields : Worker → Worker) (id : ℕ) (purge : Bool) (db db' : Db)
    → RosterIsValid db
    → write_worker fields id purge db ≡ ok db'
    → RosterIsValid db'
write_worker-IsValid fields id purge db db' v h =
    let s = current db + 1 in
    let m = UpTo-mono s db (omega arith) v in
    let e = write_worker_lem fields id purge db db' h in
    valid_from s db' (ap current e ∙ current-advance purge s db.roster_counter db) (
      rw e (record {
        workers =
            All-patch_row (λ (w : Worker). Within s w.roster_sequence) id (stamp fields s)
              db.workers (λ w q. omega arith) m.workers;
        kiosks = m.kiosks;
        receipts = m.receipts;
        purge = rw (last_purge-advance purge s db db) (Within-purge purge s _ m.purge);
      }))

pub insert_worker-IsValid :
    (fields : Worker) (now : ℕ) (db : Db) (id : ℕ) (db' : Db)
    → RosterIsValid db
    → insert_worker fields now db ≡ ok (id, db')
    → RosterIsValid db'
insert_worker-IsValid fields now db id db' v h =
    let s = current db + 1 in
    let m = UpTo-mono s db (omega arith) v in
    let e = insert_worker_lem fields now db id db' h in
    valid_from s db' (ap current e ∙ current-advance false s db.roster_counter db) (
      rw e (record {
        workers =
            All-append (λ (w : Worker). Within s w.roster_sequence) db.workers _ m.workers
              (omega arith, tt);
        kiosks = m.kiosks;
        receipts = m.receipts;
        purge = rw (last_purge-advance false s db db) m.purge;
      }))

pub issue_receipt-IsValid :
    (document : ℕ) (now : Text) (db : Db)
    → RosterIsValid db
    → RosterIsValid (issue_receipt document now db).1
issue_receipt-IsValid document now db v = elim (issue_receipt_lem document now db) [
  | unchanged e ↦ rw e v
  | fresh k found new e ↦ valid_from (current db) (issue_receipt document now db).1 (rw e refl) (
      rw e (record {
        workers = v.workers;
        kiosks = v.kiosks;
        receipts =
            All-append (λ (r : RosterReceipt). Within (current db) r.roster_sequence)
              db.roster_receipts _ v.receipts (omega arith, tt);
        purge = v.purge;
      }))
]

Within-raise : (n : ℕ) (a s : Option ℕ) → Within n a → Within n s → Within n (raise a s)
Within-raise n a none h k = h
Within-raise n none (some s) h k = k
Within-raise n (some a) (some s) h k = ground arith

pub acknowledge_receipt-IsValid :
    (document receipt : ℕ) (now : Text) (db : Db)
    → RosterIsValid db
    → RosterIsValid (acknowledge_receipt document receipt now db).1
acknowledge_receipt-IsValid document receipt now db v =
    elim (acknowledge_receipt_lem document receipt now db) [
      | same e ↦ rw e v
      | taken k r found waiting mine e ↦
          let n = current db in
          let bound =
            All-get_row (λ (x : RosterReceipt). Within n x.roster_sequence) receipt
              db.roster_receipts r v.receipts waiting in
          valid_from n (acknowledge_receipt document receipt now db).1 (rw e refl) (
            rw e (record {
              workers = v.workers;
              kiosks =
                  All-patch_row (KioskWithin n) k.id (applied r) db.kiosks
                    (λ x q.
                      (Within-raise n x.roster_applied_sequence r.roster_sequence q.0 bound, q.1))
                    v.kiosks;
              receipts =
                  All-delete_row (λ (x : RosterReceipt). Within n x.roster_sequence) r.id
                    db.roster_receipts v.receipts;
              purge = v.purge;
            }))
    ]
