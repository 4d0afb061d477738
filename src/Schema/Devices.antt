-- ===== src/Schema/Devices.antt =====
-- convex/schema.ts: kiosks, their health and queue reports, roster receipts, and schedules.
use fw_gatekeeper.Prelude.{ℕ, Bool, Option, List}
use fw_gatekeeper.Prelude.Text.{Text}
use fw_gatekeeper.Prelude.Number.{JsNumber}
use fw_gatekeeper.Prelude.Table.{Row}

pub record Health : Type 0 where
  pub camera_ok : Option Bool
  pub model_ok : Option Bool
  pub liveness_available : Option Bool
  pub known_workers : Option JsNumber
  pub queued_logs : Option JsNumber
  pub queued_attempts : Option JsNumber
  pub rejected_attempts : Option JsNumber
  pub degraded_reason : Option Text
  pub last_scan_at : Option Text
  pub reported_at : Text

pub data Latest : Type 0 where
  reported unknown : Latest

-- `StoredAttendanceQueue` of convex/attendanceQueue.ts.
pub record StoredQueue : Type 0 where
  pub last_valid_count : ℕ
  pub observed_at : Text
  pub latest : Latest

pub record LegacyCursor : Type 0 where
  pub issued_at : Text
  pub roster_sequence : ℕ

pub record Kiosk : Type 0 where
  pub id : ℕ
  pub name : Text
  pub kiosk_id : Option Text
  pub type : Text
  pub location : Text
  pub last_sync : Option Text
  pub roster_applied_at : Option Text
  pub roster_applied_sequence : Option ℕ
  pub legacy_roster_cursors : Option (List LegacyCursor)
  pub last_roster_receipt_id : Option ℕ
  pub health : Option Health
  pub attendance_queue : Option StoredQueue
  pub credential_hash : Option Text
  pub credential_issued_at : Option Text
  pub credential_revoked_at : Option Text
  pub legacy_disabled_at : Option Text
  pub active : Bool

instance abbrev pub kiosk_row : Row Kiosk
kiosk_row = record { row_id = λ k. k.id }

pub record RosterReceipt : Type 0 where
  pub id : ℕ
  pub kiosk_id : ℕ
  pub issued_at : Text
  pub roster_sequence : Option ℕ

instance abbrev pub receipt_row : Row RosterReceipt
receipt_row = record { row_id = λ r. r.id }

pub record Schedule : Type 0 where
  pub id : ℕ
  pub name : Text
  pub days : Text
  pub start_time : Text
  pub end_time : Text
  pub department : Option Text
  pub active : Bool
  pub created_at : Text

instance abbrev pub schedule_row : Row Schedule
schedule_row = record { row_id = λ s. s.id }
