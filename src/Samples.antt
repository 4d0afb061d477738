-- ===== src/Samples.antt =====
-- Concrete inputs that the tests of several components share.
use fw_gatekeeper.Prelude.{ℕ, true, Option, none, some, [], ◌∷◌}
use fw_gatekeeper.Prelude.Text.{Text, text}
use fw_gatekeeper.Schema.{
  Db, empty_db, Platform, Worker, PortalMember, enrollment, Kiosk, AttendanceRow, clock_in,
  void_event,
}
use fw_gatekeeper.Access.{Caller}
use fw_gatekeeper.Attendance.Corrections.{Evidences, CorrectionArgs}

-- A platform whose ids are one-letter texts: "a" is 97.
abbrev letter_id : Text → Option ℕ
letter_id (c ∷ []) = some c
letter_id _ = none

abbrev pub platform : Platform
platform = record {
  worker_id_of = letter_id;
  kiosk_id_of = letter_id;
  id_text = λ i. i ∷ [];
  iso = λ ms. ms ∷ [];
  parse_date = letter_id;
  lower = λ t. t;
  upper = λ t. t;
}

abbrev pub ann : Worker
ann = record {
  id = 97;
  creation_time = 0;
  name = text "Ann";
  employee_id = some (text "E1");
  department = text "Line 1";
  photo_storage_ids = none;
  face_encoding = none;
  enrolled_at = text "2026-01-01T00:00:00.000Z";
  updated_at = none;
  roster_sequence = some 1;
  active = true;
  consent_at = none;
  consent_recorded_by = none;
  biometrics_purged_at = none;
}

abbrev pub staffed : Db
staffed = record empty_db { next_id = 98; workers = ann ∷ [] }

abbrev pub session_of : Text → Option ℕ
session_of = letter_id

-- The account of user 66 ("B"), an operator, with a session, 67 ("C").
abbrev pub operator_account : PortalMember
operator_account = record {
  id = 1;
  user_id = 66;
  role = enrollment;
  active = true;
  created_at = text "2026-01-01";
  updated_at = none;
  session_revoked_at = some 1000;
  must_change_password = none;
}

abbrev pub operator_call : ℕ → Caller
operator_call now = record { user = some 66; subject = some (text "B|C"); now = now }

-- Ann's punch, and the account that may correct it.
abbrev pub punch : AttendanceRow
punch = record {
  id = 7;
  worker_id = text "a";
  event_type = clock_in;
  kiosk_id = none;
  timestamp = text "2026-03-02T07:58:00";
  idempotency_key = none;
  synced = true;
  worker_name = none;
  confidence = none;
  liveness_confirmed = none;
  note = none;
}

abbrev pub records : Db
records = record staffed {
  members = operator_account ∷ [];
  sessions = record { id = 67; user_id = 66; expiration_time = 9000; creation_time = 2000 } ∷ [];
  attendance = punch ∷ [];
}

abbrev pub evidences : Evidences
evidences = record {
  belongs_to_date = λ t date. true;
  is_valid_timestamp = λ t. true;
  instant = letter_id;
  exceptions = λ date db. [];
}

-- The void of Ann's punch.
abbrev pub void_args : CorrectionArgs
void_args = record {
  request_id = some (text "r1");
  date = text "2026-03-02";
  worker_id = 97;
  action = void_event;
  corrected_timestamp = none;
  original_attendance_id = some 7;
  related_exception_key = none;
  source_fingerprint = none;
  reason = text " scanned twice ";
  supervisor_name = none;
}

abbrev pub gate : Kiosk
gate = record {
  id = 50;
  name = text "Gate";
  kiosk_id = some (text "kiosk-entry-1");
  type = text "entry";
  location = text "North";
  last_sync = none;
  roster_applied_at = none;
  roster_applied_sequence = none;
  legacy_roster_cursors = none;
  last_roster_receipt_id = none;
  health = none;
  attendance_queue = none;
  credential_hash = some (text "hash");
  credential_issued_at = none;
  credential_revoked_at = none;
  legacy_disabled_at = none;
  active = true;
}
