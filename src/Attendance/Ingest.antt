-- ===== src/Attendance/Ingest.antt =====
-- convex/attendance.ts: the mutations that store uploaded punches.
pub mod Stored
pub mod Evidence
pub mod Retry
pub mod Keys
mod Standing
pub mod Batch
pub mod Receipts
mod Tests
use fw_gatekeeper.Prelude.{
  ℕ, suc, Bool, true, false, ◌&&◌, ◌||◌, not, Option, none, some, List, [], ◌∷◌, ◌++◌, map,
}
use fw_gatekeeper.Prelude.Tests.{leb, if◌then◌else◌, ◌==◌, ◌!=◌, nat_eq, option_eq}
use fw_gatekeeper.Prelude.Lists.{length, find, all}
use fw_gatekeeper.Prelude.Text.{Text, text_eq, is_digit}
use fw_gatekeeper.Prelude.Number.{JsNumber}
use fw_gatekeeper.Prelude.Result.{Result, ok, err, ◌>>=◌, ◌>>◌, require, refuse}
use fw_gatekeeper.Prelude.Table.{get_row, patch_row}
use fw_gatekeeper.Schema.{
  EventType, event_type_eq, AttendanceRow, attendance_row, IngestReceipt, Db, Platform, worker_row,
}

-- `AttendanceEvent` of convex/attendanceValidation.ts: an event that has been validated.
pub record AttendanceEvent : Type 0 where
  pub worker_id : Text
  pub event_type : EventType
  pub timestamp : Text
  pub kiosk_id : Option Text
  pub idempotency_key : Option Text
  pub worker_name : Option Text
  pub confidence : Option JsNumber
  pub liveness_confirmed : Option Bool
  pub note : Option Text

-- The messages of the INVALID_ATTENDANCE errors that these handlers throw.
pub data IngestError : Type 0 where
  unknown_worker key_reused note_changed bad_digests receipt_size : IngestError

-- A string that JavaScript reads as true.
abbrev pub truthy : Option Text → Bool
truthy none = false
truthy (some []) = false
truthy (some (c ∷ s)) = true

pub record Inserted : Type 0 where
  pub id : ℕ
  pub inserted : Bool

unfoldable pub preserve_note : AttendanceRow → AttendanceEvent → Db → Result IngestError Db
preserve_note existing event db = elim event.note [
  | none ↦ ok db
  | some n ↦ elim existing.note [
    | some m ↦ if m == n then ok db else err note_changed
    | none ↦ ok (record db {
      attendance =
          patch_row existing.id (λ (a : AttendanceRow). record a { note = event.note })
            db.attendance;
    })
  ]
]

-- The index by_kiosk_and_idempotency_key at a kiosk and a key.
abbrev pub has_key : Option Text → Option Text → AttendanceRow → Bool
has_key kiosk key a = a.kiosk_id == kiosk && a.idempotency_key == key

-- The index by_worker_timestamp_type_kiosk at an event.
abbrev pub same_punch : AttendanceEvent → AttendanceRow → Bool
same_punch event a =
    a.worker_id == event.worker_id
    && a.timestamp == event.timestamp
    && a.event_type == event.event_type
    && a.kiosk_id == event.kiosk_id

-- The row that `insert("attendance", { ...event, synced: true })` stores.
abbrev pub row_of : ℕ → AttendanceEvent → AttendanceRow
row_of id event = record {
  id = id;
  worker_id = event.worker_id;
  event_type = event.event_type;
  kiosk_id = event.kiosk_id;
  timestamp = event.timestamp;
  idempotency_key = event.idempotency_key;
  synced = true;
  worker_name = event.worker_name;
  confidence = event.confidence;
  liveness_confirmed = event.liveness_confirmed;
  note = event.note;
}

-- A keyed retry: the row that has the key must hold the same evidence.
unfoldable pub reuse_key : AttendanceRow → AttendanceEvent → Db → Result IngestError (Inserted × Db)
reuse_key existing event db = do
  refuse
      (existing.worker_id != event.worker_id
        || existing.event_type != event.event_type
        || existing.timestamp != event.timestamp)
      key_reused
  db' ← preserve_note existing event db
  ok (record { id = existing.id; inserted = false }, db')

-- The exact event is there already, and one of the two has no key.
unfoldable pub merge_punch :
    AttendanceRow → AttendanceEvent → Db → Result IngestError (Inserted × Db)
merge_punch same event db = do
  db' ← preserve_note same event db
  ok (
    record { id = same.id; inserted = false },
    if truthy event.idempotency_key
        then record db' {
          attendance =
              patch_row same.id
                (λ (a : AttendanceRow). record a { idempotency_key = event.idempotency_key })
                db'.attendance;
        }
        else db',
  )

unfoldable pub add_punch : AttendanceEvent → Db → Inserted × Db
add_punch event db = (
  record { id = db.next_id; inserted = true },
  record db {
    next_id = suc db.next_id;
    attendance = db.attendance ++ row_of db.next_id event ∷ [];
  },
)

-- After the key's row was sought.
unfoldable pub store_punch : AttendanceEvent → Db → Result IngestError (Inserted × Db)
store_punch event db = elim (find (same_punch event) db.attendance) [
  | none ↦ ok (add_punch event db)
  | some same ↦
      if not (truthy event.idempotency_key) || not (truthy same.idempotency_key)
      then merge_punch same event db
      else ok (add_punch event db)
]

module _ (p : Platform) where
  -- `normalizeId("workers", id)` names a row.
  unfoldable pub worker_exists : Text → Db → Bool
  worker_exists id db = elim (p.worker_id_of id) [
    | none ↦ false
    | some w ↦ elim (get_row w db.workers) [ none ↦ false | some x ↦ true ]
  ]

  unfoldable pub insert_event : AttendanceEvent → Db → Result IngestError (Inserted × Db)
  insert_event event db =
      if worker_exists event.worker_id db
      then (if truthy event.idempotency_key
          then elim (find (has_key event.kiosk_id event.idempotency_key) db.attendance) [
            | some existing ↦ reuse_key existing event db
            | none ↦ store_punch event db
          ]
          else store_punch event db)
      else err unknown_worker

  -- The loop of `bulkCreateFromHttp`.
  unfoldable pub insert_events : List AttendanceEvent → Db → Result IngestError (ℕ × Db)
  insert_events [] db = ok (0, db)
  insert_events (event ∷ events) db = do
    (one, db1) ← insert_event event db
    (synced, db2) ← insert_events events db1
    ok ((if one.inserted then suc synced else synced), db2)

-- The characters of a lower-case SHA-256 digest.
abbrev pub is_hex : ℕ → Bool
is_hex c = is_digit c || (leb b'a' c && leb c b'f')

unfoldable pub is_digest : Text → Bool
is_digest d = length d == 64 && all is_hex d

-- `validateReceiptDigests`, on strings.
unfoldable pub validate_digests : List Text → Result IngestError (List Text)
validate_digests ds = do require (leb (length ds) 500 && all is_digest ds) bad_digests; ok ds

pub record Acknowledgement : Type 0 where
  pub synced : ℕ
  pub acknowledged : ℕ

abbrev pub find_receipt : Text → Db → Option IngestReceipt
find_receipt h db = find (λ (r : IngestReceipt). r.digest == h) db.ingest_receipts

module _ (p : Platform) where
  -- `bulkCreateFromHttp` after `validateAttendanceBatch`.
  unfoldable pub bulk_create :
      List AttendanceEvent → Option Text → Db → Result IngestError (Acknowledgement × Db)
  bulk_create events none db = do
    (synced, db1) ← insert_events p events db
    ok (record { synced = synced; acknowledged = length events }, db1)
  bulk_create events (some h) db = do
    _ ← validate_digests (h ∷ [])
    elim (find_receipt h db) [
      | some r ↦ do
        require (r.acknowledged == length events) receipt_size
        ok (record { synced = 0; acknowledged = r.acknowledged }, db)
      | none ↦ do
        (synced, db1) ← insert_events p events db
        ok (
          record { synced = synced; acknowledged = length events },
          record db1 {
            ingest_receipts =
                db1.ingest_receipts ++ record { digest = h; acknowledged = length events } ∷ [];
          },
        )
    ]

-- `receiptStatus`.
unfoldable pub receipt_status : List Text → Db → Result IngestError (List Bool)
receipt_status ds db = do
  valid ← validate_digests ds
  ok (map (λ (h : Text). elim (find_receipt h db) [ none ↦ false | some r ↦ true ]) valid)
