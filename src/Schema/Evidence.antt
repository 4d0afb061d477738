-- ===== src/Schema/Evidence.antt =====
-- convex/schema.ts: attendance punches, their corrections and reversals, upload receipts.
use fw_gatekeeper.Prelude.{ℕ, Bool, true, false, Option, ◌≡◌, ◌↔◌, arith}
use fw_gatekeeper.Prelude.Tests.{StrictEquality}
use fw_gatekeeper.Prelude.Text.{Text}
use fw_gatekeeper.Prelude.Number.{JsNumber}
use fw_gatekeeper.Prelude.Table.{Row}

pub data EventType : Type 0 where
  clock_in clock_out : EventType

abbrev pub event_type_beq : EventType → EventType → Bool
event_type_beq clock_in clock_in = true
event_type_beq clock_out clock_out = true
event_type_beq _ _ = false

pub event_type_beq_iff : (a b : EventType) → (event_type_beq a b ≡ true) ↔ (a ≡ b)
event_type_beq_iff a b = ground arith

instance abbrev pub event_type_eq : StrictEquality EventType
event_type_eq = record { equal = event_type_beq; equal_iff = event_type_beq_iff }

pub record AttendanceRow : Type 0 where
  pub id : ℕ
  pub worker_id : Text
  pub event_type : EventType
  pub kiosk_id : Option Text
  pub timestamp : Text
  pub idempotency_key : Option Text
  pub synced : Bool
  pub worker_name : Option Text
  pub confidence : Option JsNumber
  pub liveness_confirmed : Option Bool
  pub note : Option Text

instance abbrev pub attendance_row : Row AttendanceRow
attendance_row = record { row_id = λ a. a.id }

pub record IngestReceipt : Type 0 where
  pub digest : Text
  pub acknowledged : ℕ

pub data CorrectionAction : Type 0 where
  add_clock_in add_clock_out void_event : CorrectionAction

abbrev pub action_beq : CorrectionAction → CorrectionAction → Bool
action_beq add_clock_in add_clock_in = true
action_beq add_clock_out add_clock_out = true
action_beq void_event void_event = true
action_beq _ _ = false

pub action_beq_iff : (a b : CorrectionAction) → (action_beq a b ≡ true) ↔ (a ≡ b)
action_beq_iff a b = ground arith

instance abbrev pub action_eq : StrictEquality CorrectionAction
action_eq = record { equal = action_beq; equal_iff = action_beq_iff }

pub record Correction : Type 0 where
  pub id : ℕ
  pub request_id : Option Text
  pub date : Text
  pub worker_id : Text
  pub action : CorrectionAction
  pub event_type : Option EventType
  pub corrected_timestamp : Option Text
  pub original_attendance_id : Option ℕ
  pub related_exception_key : Option Text
  pub source_fingerprint : Option Text
  pub reason : Text
  pub supervisor_name : Option Text
  pub actor_user_id : Option ℕ
  pub created_at : Text
  pub updated_at : Text

instance abbrev pub correction_row : Row Correction
correction_row = record { row_id = λ c. c.id }

pub record Reversal : Type 0 where
  pub id : ℕ
  pub correction_id : ℕ
  pub request_id : Text
  pub date : Text
  pub worker_id : Text
  pub reason : Text
  pub actor_user_id : ℕ
  pub created_at : Text

instance abbrev pub reversal_row : Row Reversal
reversal_row = record { row_id = λ r. r.id }
