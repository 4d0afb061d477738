-- ===== src/Attendance/Uploads.antt =====
-- convex/attendance.ts: the uploads of kiosks, validated and stored.
pub mod Bounds
mod Tests
use fw_gatekeeper.Prelude.{ℕ, Bool, true, false, Option, none, some, List, [], ◌∷◌}
use fw_gatekeeper.Prelude.Tests.{if◌then◌else◌}
use fw_gatekeeper.Prelude.Lists.{find}
use fw_gatekeeper.Prelude.Text.{Text, trim}
use fw_gatekeeper.Prelude.Result.{Result, ok, err, ◌>>=◌}
use fw_gatekeeper.Schema.{AttendanceRow, Db, Platform}
use fw_gatekeeper.Attendance.Ingest.{
  IngestError, AttendanceEvent, Acknowledgement, has_key, insert_event, bulk_create,
}
use fw_gatekeeper.Attendance.Validation.{
  Value, undefined, null, string, RawEvent, Invalid, validate_event, validate_batch,
}

pub data UploadError : Type 0 where
  invalid : Invalid → UploadError
  not_stored : IngestError → UploadError

abbrev pub validated : {A : Type 0} → Result Invalid A → Result UploadError A
validated (ok a) = ok a
validated (err e) = err (invalid e)

abbrev pub stored : {A : Type 0} → Result IngestError A → Result UploadError A
stored (ok a) = ok a
stored (err e) = err (not_stored e)

pub record PunchArgs : Type 0 where
  pub worker_id : Text
  pub event_type : Text
  pub kiosk_id : Option Text
  pub timestamp : Option Text
  pub note : Option Text
  pub idempotency_key : Option Text

-- `value?.trim() || undefined`.
abbrev pub trimmed : Option Text → Option Text
trimmed none = none
trimmed (some t) = elim (trim t) [ [] ↦ none | c ∷ s ↦ some (c ∷ s) ]

abbrev value_of : Option Text → Value
value_of none = undefined
value_of (some t) = string t

-- The timestamp of the punch that has the key already.
abbrev pub recorded_time : Option Text → Option Text → Db → Option Text
recorded_time kiosk none db = none
recorded_time kiosk (some key) db = elim (find (has_key kiosk (some key)) db.attendance) [
  | none ↦ none
  | some a ↦ some a.timestamp
]

-- `args.timestamp ?? existing?.timestamp ?? new Date().toISOString()`.
abbrev pub punch_time : Option Text → Option Text → Text → Text
punch_time (some t) recorded now = t
punch_time none (some t) now = t
punch_time none none now = now

abbrev pub raw_of : PunchArgs → Text → RawEvent
raw_of a timestamp = record {
  id = undefined;
  worker_id = string a.worker_id;
  event_type = string a.event_type;
  timestamp = string timestamp;
  kiosk_id = value_of a.kiosk_id;
  idempotency_key = value_of a.idempotency_key;
  worker_name = undefined;
  confidence = undefined;
  liveness_confirmed = undefined;
  note = value_of a.note;
}

module _ (p : Platform) (is_valid_timestamp : Text → Bool) where
  -- `createFromHttp`: the id of the punch.
  unfoldable pub create_from_http : PunchArgs → ℕ → Db → Result UploadError (ℕ × Db)
  create_from_http a now db = do
    let recorded = recorded_time (trimmed a.kiosk_id) (trimmed a.idempotency_key) db
    event ← validated (
        validate_event is_valid_timestamp
          (some (raw_of a (punch_time a.timestamp recorded (p.iso now)))))
    (one, db1) ← stored (insert_event p event db)
    ok (one.id, db1)

  -- `bulkCreateFromHttp`.
  unfoldable pub bulk_create_from_http :
      List (Option RawEvent) → Option Text → Db → Result UploadError (Acknowledgement × Db)
  bulk_create_from_http raw receipt db = do
    events ← validated (validate_batch is_valid_timestamp raw)
    stored (bulk_create p events receipt db)
