-- ===== src/Attendance/Uploads/Tests.antt =====
-- Runs of the validation and of the uploads, and the bounds at one event.
use fw_gatekeeper.Prelude.{◌*◌, Bool, true, false, none, some, [], ◌∷◌, ◌≡◌, refl}
use fw_gatekeeper.Prelude.Lists.{find, filter, all}
use fw_gatekeeper.Prelude.Text.{Text, text, text_beq, trim, trim_start, is_space}
use fw_gatekeeper.Prelude.Number.{finite, unit}
use fw_gatekeeper.Prelude.Result.{ok, err}
use fw_gatekeeper.Prelude.Table.{get_row, patch_row}
use fw_gatekeeper.Schema.{clock_in, Db}
use fw_gatekeeper.Samples.{platform, staffed}
use fw_gatekeeper.Attendance.Ingest.{
  AttendanceEvent, insert_event, store_punch, reuse_key, merge_punch, add_punch, preserve_note,
  worker_exists, insert_events, bulk_create, row_of,
}
use fw_gatekeeper.Attendance.Validation.{
  undefined, string, number, RawEvent, Invalid, bad_confidence, bad_event_type, text_field, clamp,
  confidence_field, validate_event, validate_each, validate_batch,
}
use fw_gatekeeper.Attendance.Uploads.{PunchArgs, invalid, create_from_http, bulk_create_from_http}
use fw_gatekeeper.Attendance.Uploads.Bounds.{EventIsValid, validate_event-IsValid}

uploads : Unit {0}
unfolding get_row patch_row find filter all text_beq trim trim_start is_space insert_event
    store_punch reuse_key merge_punch add_punch preserve_note worker_exists insert_events
    bulk_create text_field clamp confidence_field validate_event validate_each validate_batch
    create_from_http bulk_create_from_http
uploads = tt

abbrev any_time : Text → Bool
any_time t = true

abbrev raw : RawEvent
raw = record {
  id = undefined;
  worker_id = string (text " a ");
  event_type = string (text "clock_in");
  timestamp = string (text "2026-03-02T07:58:00");
  kiosk_id = string (text "kiosk-entry-1");
  idempotency_key = string (text "k1");
  worker_name = undefined;
  confidence = undefined;
  liveness_confirmed = undefined;
  note = string (text "  ");
}

abbrev event : AttendanceEvent
event = record {
  worker_id = text "a";
  event_type = clock_in;
  timestamp = text "2026-03-02T07:58:00";
  kiosk_id = some (text "kiosk-entry-1");
  idempotency_key = some (text "k1");
  worker_name = none;
  confidence = none;
  liveness_confirmed = none;
  note = none;
}

validations :
    (validate_event any_time (some raw) ≡ ok event)
    × (validate_event any_time (some (record raw { event_type = string (text "lunch") }))
        ≡ err bad_event_type)
    × (validate_event any_time (some (record raw { confidence = number (finite false (2 * unit)) }))
        ≡ err bad_confidence)
unfolding uploads unit
validations = (refl, refl, refl)

validate_event-IsValid_example : EventIsValid any_time event
validate_event-IsValid_example = validate_event-IsValid any_time (some raw) event validations.0

abbrev args : PunchArgs
args = record {
  worker_id = text "a";
  event_type = text "clock_in";
  kiosk_id = some (text "kiosk-entry-1");
  timestamp = none;
  note = none;
  idempotency_key = some (text "k1");
}

abbrev stored_once : Db
stored_once = record staffed {
  next_id = 99;
  attendance = row_of 98 (record event { timestamp = 5000 ∷ [] }) ∷ [];
}

-- A punch without a time gets the server's, and its retry gets the time on record.
punches :
    (create_from_http platform any_time args 5000 staffed ≡ ok (98, stored_once))
    × (create_from_http platform any_time args 6000 stored_once ≡ ok (98, stored_once))
    × (bulk_create_from_http platform any_time (some raw ∷ none ∷ []) none staffed
        ≡ err (invalid Invalid.no_object))
unfolding uploads
punches = (refl, refl, refl)
