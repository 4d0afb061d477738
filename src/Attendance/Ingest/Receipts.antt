-- ===== src/Attendance/Ingest/Receipts.antt =====
-- convex/attendance.ts: what `bulkCreateFromHttp` acknowledges, with and without a receipt.
use fw_gatekeeper.Prelude.{
  ℕ, Option, none, some, List, [], ◌∷◌, ◌++◌, ◌≡◌, refl, ◌∙◌, inl, inr, arith,
}
use fw_gatekeeper.Prelude.Tests.{Bool-cases, Option-cases, eq_refl, nat_eq, ◌==◌}
use fw_gatekeeper.Prelude.Lists.{find-append, find_head, All, length}
use fw_gatekeeper.Prelude.Text.{Text, text_eq, text_beq}
use fw_gatekeeper.Prelude.Result.{ok, Result-cases}
use fw_gatekeeper.Schema.{Db, Platform, IngestReceipt}
use fw_gatekeeper.Attendance.Ingest.{
  AttendanceEvent, insert_events, bulk_create, Acknowledgement, find_receipt, validate_digests,
}
use fw_gatekeeper.Attendance.Ingest.Evidence.{AllKept}
use fw_gatekeeper.Attendance.Ingest.Batch.{
  IngestIsValid, insert_events_keeps, insert_events_twice, insert_events-OnRecord, OnRecord,
  receipts-insert_events,
}

-- The outcomes of an accepted upload with a receipt.
data Uploaded (p : Platform) (events : List AttendanceEvent) (h : Text) (db : Db)
    (ack : Acknowledgement) (db' : Db) : Type 0 where
  replayed :
      (r : IngestReceipt) (ds : List Text)
      → validate_digests (h ∷ []) ≡ ok ds
      → find_receipt h db ≡ some r
      → r.acknowledged ≡ length events
      → db' ≡ db
      → ack ≡ record { synced = 0; acknowledged = length events }
      → Uploaded p events h db ack db'
  stored :
      (n : ℕ) (db1 : Db) (ds : List Text)
      → validate_digests (h ∷ []) ≡ ok ds
      → find_receipt h db ≡ none
      → insert_events p events db ≡ ok (n, db1)
      → db' ≡ record db1 {
        ingest_receipts =
            db1.ingest_receipts ++ record { digest = h; acknowledged = length events } ∷ [];
      }
      → ack ≡ record { synced = n; acknowledged = length events }
      → Uploaded p events h db ack db'

bulk_create-Uploaded :
    (p : Platform) (events : List AttendanceEvent) (h : Text) (db : Db) (ack : Acknowledgement)
    (db' : Db)
    → bulk_create p events (some h) db ≡ ok (ack, db')
    → Uploaded p events h db ack db'
unfolding bulk_create
bulk_create-Uploaded p events h db ack db' e = elim (Result-cases (validate_digests (h ∷ []))) [
  | inr (_, bad) ↦ absurd (ground arith)
  | inl (ds, valid) ↦ elim (Option-cases (find_receipt h db)) [
    | inr (r, found) ↦ elim (Bool-cases (r.acknowledged == length events)) [
      | inl same ↦ replayed r ds valid found (ground arith) (ground arith) (ground arith)
      | inr other ↦ absurd (ground arith)
    ]
    | inl new ↦ elim (Result-cases (insert_events p events db)) [
      | inr (_, failed) ↦ absurd (ground arith)
      | inl ((n, db1), done) ↦ stored n db1 ds valid new done (ground arith) (ground arith)
    ]
  ]
]

bulk_create_plain :
    (p : Platform) (events : List AttendanceEvent) (db : Db) (ack : Acknowledgement) (db' : Db)
    → bulk_create p events none db ≡ ok (ack, db')
    → (insert_events p events db ≡ ok (ack.synced, db')) × (ack.acknowledged ≡ length events)
unfolding bulk_create
bulk_create_plain p events db ack db' e = elim (Result-cases (insert_events p events db)) [
  | inr (_, failed) ↦ absurd (ground arith)
  | inl ((n, db1), done) ↦ (done ∙ ground arith, ground arith)
]

-- An accepted upload without a receipt is acknowledged in full, every event is on record, and no
-- row that was there is lost or rewritten; the ids and the keys stay in order.
pub bulk_create_stores :
    (p : Platform) (events : List AttendanceEvent) (db : Db) (ack : Acknowledgement) (db' : Db)
    → IngestIsValid db
    → bulk_create p events none db ≡ ok (ack, db')
    → (ack.acknowledged ≡ length events)
      × All (OnRecord db'.attendance) events
      × AllKept db.attendance db'.attendance
      × IngestIsValid db'
bulk_create_stores p events db ack db' v e =
    let (done, full) = bulk_create_plain p events db ack db' e in
    let (valid, kept) = insert_events_keeps p events db ack.synced db' v done in
    (full, insert_events-OnRecord p events db ack.synced db' v done, kept, valid)

find_receipt-append :
    (h : Text) (n : ℕ) (db db1 : Db)
    → db1.ingest_receipts ≡ db.ingest_receipts
    → find_receipt h db ≡ none
    → find_receipt h (record db1 {
      ingest_receipts = db1.ingest_receipts ++ record { digest = h; acknowledged = n } ∷ [];
    })
      ≡ some (record { digest = h; acknowledged = n })
find_receipt-append h n db db1 same none_ =
    let q = λ (r : IngestReceipt). text_beq r.digest h in
    find-append q db1.ingest_receipts _
    ∙ rw (same, none_) (find_head q (record { digest = h; acknowledged = n }) [] (eq_refl h))

replays :
    (p : Platform) (events : List AttendanceEvent) (h : Text) (db : Db) (ds : List Text)
    (r : IngestReceipt)
    → validate_digests (h ∷ []) ≡ ok ds
    → find_receipt h db ≡ some r
    → r.acknowledged ≡ length events
    → bulk_create p events (some h) db
      ≡ ok (record { synced = 0; acknowledged = length events }, db)
unfolding bulk_create
replays p events h db ds r valid found full = ground (arith, eq_refl (length events))

Uploaded-again :
    (p : Platform) (events : List AttendanceEvent) (h : Text) (db : Db) (ack : Acknowledgement)
    (db' : Db)
    → IngestIsValid db
    → Uploaded p events h db ack db'
    → bulk_create p events (some h) db'
      ≡ ok (record { synced = 0; acknowledged = length events }, db')
Uploaded-again p events h db ack db' v (replayed r ds valid found full same a) =
    replays p events h db' ds r valid (rw same found) full
Uploaded-again p events h db ack db' v (stored n db1 ds valid new done same a) =
    replays p events h db' ds (record { digest = h; acknowledged = length events }) valid
      (rw same (
        find_receipt-append h (length events) db db1
          (receipts-insert_events p events db n db1 v done) new))
      refl

-- An accepted upload, with a receipt or without, can be sent again: the answer acknowledges all of
-- it and counts nothing new, and the store stays as it is.
pub bulk_create_twice :
    (p : Platform) (events : List AttendanceEvent) (receipt : Option Text) (db : Db)
    (ack : Acknowledgement) (db' : Db)
    → IngestIsValid db
    → bulk_create p events receipt db ≡ ok (ack, db')
    → bulk_create p events receipt db'
      ≡ ok (record { synced = 0; acknowledged = length events }, db')
unfolding bulk_create
bulk_create_twice p events none db ack db' v e =
    let (done, _) = bulk_create_plain p events db ack db' e in
    rw (insert_events_twice p events db ack.synced db' v done) refl
bulk_create_twice p events (some h) db ack db' v e =
    Uploaded-again p events h db ack db' v (bulk_create-Uploaded p events h db ack db' e)
