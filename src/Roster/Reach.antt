-- ===== src/Roster/Reach.antt =====
-- The roster protocol as a relation: any of its handlers may run next, in any order.
use fw_gatekeeper.Prelude.{ℕ, ◌≤◌, Bool, Option, some, ◌∷◌, ◌≡◌, refl, subst, inl, inr, arith}
use fw_gatekeeper.Prelude.Tests.{Bool-cases, Option-cases}
use fw_gatekeeper.Prelude.Lists.{take, All-take}
use fw_gatekeeper.Prelude.Text.{Text}
use fw_gatekeeper.Prelude.Result.{ok}
use fw_gatekeeper.Prelude.Table.{get_row, patch_row, All-patch_row, All-get_row}
use fw_gatekeeper.Schema.{Worker, Kiosk, kiosk_row, LegacyCursor, Db, Platform}
use fw_gatekeeper.Roster.Sequence.{current, write_worker, insert_worker}
use fw_gatekeeper.Roster.Receipts.{
  issue_receipt, acknowledge_receipt, issue_ms, issue_legacy, LegacyIssue, fresh_time,
}
use fw_gatekeeper.Roster.Invariant.{
  KioskWithin, RosterIsValid, valid_from, cursors_of, write_worker-IsValid, insert_worker-IsValid,
  issue_receipt-IsValid, acknowledge_receipt-IsValid,
}

-- The outcomes of `issueLegacyRosterCursorFromHttp`.
pub data LegacyIssued (document : ℕ) (db db' : Db) : Type 0 where
  nothing : db' ≡ db → LegacyIssued document db db'
  issued :
      (k : Kiosk) (cursor : LegacyCursor)
      → get_row document db.kiosks ≡ some k
      → cursor.roster_sequence ≡ current db
      → db' ≡ record db {
        kiosks =
            patch_row k.id
              (λ (x : Kiosk). record x {
                legacy_roster_cursors = some (take 2 (cursor ∷ cursors_of k));
              })
              db.kiosks;
      }
      → LegacyIssued document db db'

module _ (p : Platform) where
  pub issue_legacy_lem :
      (document : ℕ) (since : Option Text) (now : ℕ) (db : Db) (r : Option LegacyIssue) (db' : Db)
      → issue_legacy p document since now db ≡ ok (r, db')
      → LegacyIssued document db db'
  unfolding issue_legacy
  issue_legacy_lem document since now db r db' h =
      elim (Option-cases (get_row document db.kiosks)) [
        | inl none_ ↦ nothing (ground arith)
        | inr (k, found) ↦ elim (Bool-cases k.active) [
          | inr off ↦ nothing (ground arith)
          | inl on ↦ elim (Option-cases (issue_ms p now (cursors_of k))) [
            | inl bad ↦ absurd (ground arith)
            | inr (ms, good) ↦
                issued k
                  (record { issued_at = fresh_time p since ms; roster_sequence = current db }) found
                  refl (ground arith)
          ]
        ]
      ]

  issue_legacy-IsValid :
      (document : ℕ) (since : Option Text) (now : ℕ) (db : Db) (r : Option LegacyIssue) (db' : Db)
      → RosterIsValid db
      → issue_legacy p document since now db ≡ ok (r, db')
      → RosterIsValid db'
  issue_legacy-IsValid document since now db r db' v h =
      elim (issue_legacy_lem document since now db r db' h) [
        | nothing e ↦ rw e v
        | issued k cursor found at e ↦
            let n = current db in
            let history = All-get_row (KioskWithin n) document db.kiosks k v.kiosks found in
            valid_from n db' (rw e refl) (
              rw e (record {
                workers = v.workers;
                kiosks =
                    All-patch_row (KioskWithin n) k.id _ db.kiosks
                      (λ x q. (
                        q.0,
                        All-take (λ (c : LegacyCursor). c.roster_sequence ≤ n) 2
                            (cursor ∷ cursors_of k) (omega arith, history.1),
                      ))
                      v.kiosks;
                receipts = v.receipts;
                purge = v.purge;
              }))
      ]

  -- One run of a handler.
  pub data Step (db : Db) : Db → Type 0 where
    wrote :
        {db' : Db} (fields : Worker → Worker) (id : ℕ) (purge : Bool)
        → write_worker fields id purge db ≡ ok db'
        → Step db db'
    enrolled :
        {db' : Db} (fields : Worker) (now id : ℕ)
        → insert_worker fields now db ≡ ok (id, db')
        → Step db db'
    receipt_issued :
        {db' : Db} (document : ℕ) (now : Text)
        → (issue_receipt document now db).1 ≡ db'
        → Step db db'
    acknowledged :
        {db' : Db} (document receipt : ℕ) (now : Text)
        → (acknowledge_receipt document receipt now db).1 ≡ db'
        → Step db db'
    cursor_issued :
        {db' : Db} (document : ℕ) (since : Option Text) (now : ℕ) (r : Option LegacyIssue)
        → issue_legacy p document since now db ≡ ok (r, db')
        → Step db db'

  pub data Reach (db : Db) : Db → Type 0 where
    here : Reach db db
    next : {d e : Db} → Reach db d → Step d e → Reach db e

  Step-IsValid : {db db' : Db} → Step db db' → RosterIsValid db → RosterIsValid db'
  Step-IsValid {db} {db'} (wrote fields id purge h) v =
      write_worker-IsValid fields id purge db db' v h
  Step-IsValid {db} {db'} (enrolled fields now id h) v =
      insert_worker-IsValid fields now db id db' v h
  Step-IsValid {db} {db'} (receipt_issued document now h) v =
      subst RosterIsValid h (issue_receipt-IsValid document now db v)
  Step-IsValid {db} {db'} (acknowledged document receipt now h) v =
      subst RosterIsValid h (acknowledge_receipt-IsValid document receipt now db v)
  Step-IsValid {db} {db'} (cursor_issued document since now r h) v =
      issue_legacy-IsValid document since now db r db' v h

  -- Whatever handlers run, in whatever order, no worker, receipt, applied sequence, legacy cursor
  -- or purge comes to be ahead of the counter.
  pub Reach-IsValid : {db db' : Db} → Reach db db' → RosterIsValid db → RosterIsValid db'
  Reach-IsValid here v = v
  Reach-IsValid (next r s) v = Step-IsValid s (Reach-IsValid r v)
