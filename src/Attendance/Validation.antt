-- ===== src/Attendance/Validation.antt =====
-- convex/attendanceValidation.ts: an uploaded event is checked and brought into its stored form.
use fw_gatekeeper.Prelude.{ℕ, ◌*◌, ◌^◌, Bool, true, false, ◌&&◌, Option, none, some, List, [], ◌∷◌}
use fw_gatekeeper.Prelude.Tests.{ltb, leb, if◌then◌else◌, ◌==◌}
use fw_gatekeeper.Prelude.Lists.{length}
use fw_gatekeeper.Prelude.Text.{Text, text, text_eq, trim}
use fw_gatekeeper.Prelude.Number.{JsNumber, finite, unit}
use fw_gatekeeper.Prelude.Result.{Result, ok, err, ◌>>=◌, ◌>>◌, require, refuse, present}
use fw_gatekeeper.Schema.{EventType, clock_in, clock_out}
use fw_gatekeeper.Attendance.Ingest.{AttendanceEvent}

-- A value of an event that was uploaded.
pub data Value : Type 0 where
  undefined null : Value
  string : Text → Value
  number : JsNumber → Value
  boolean : Bool → Value
  -- An object or an array.
  compound : Value

pub record RawEvent : Type 0 where
  pub id : Value
  pub worker_id : Value
  pub event_type : Value
  pub timestamp : Value
  pub kiosk_id : Value
  pub idempotency_key : Value
  pub worker_name : Value
  pub confidence : Value
  pub liveness_confirmed : Value
  pub note : Value

pub data Invalid : Type 0 where
  no_object missing_field no_string too_long bad_event_type bad_timestamp : Invalid
  bad_confidence bad_liveness too_many_events : Invalid

abbrev pub not_blank : Text → Option Text
not_blank [] = none
not_blank (c ∷ t) = some (c ∷ t)

-- `text(value, field, required, max)`.
unfoldable pub text_field : Value → Bool → ℕ → Result Invalid (Option Text)
text_field undefined required max = if required then err missing_field else ok none
text_field null required max = if required then err missing_field else ok none
text_field (string t) required max = do
  refuse (required && leb (length (trim t)) 0) missing_field
  refuse (ltb max (length (trim t))) too_long
  ok (not_blank (trim t))
text_field (number x) required max = err no_string
text_field (boolean b) required max = err no_string
text_field compound required max = err no_string

-- A field that is required; the text is not empty.
abbrev pub required_text : Value → ℕ → Result Invalid Text
required_text v max = text_field v true max >>= λ t. present t missing_field

abbrev pub event_type_of : Text → Result Invalid EventType
event_type_of t =
    if t == text "clock_in"
    then ok clock_in
    else if t == text "clock_out"
    then ok clock_out
    else err bad_event_type

-- The double of `1e-12`, and of `1 + 1e-12`, in units of 2^-1074.
abbrev pub tolerance : ℕ
tolerance = 4951760157141521 * 2 ^ 982

abbrev pub one_and_tolerance : ℕ
one_and_tolerance = 4503599627375000 * 2 ^ 1022

-- `Math.max(0, Math.min(1, x))` of a number that is accepted.
unfoldable pub clamp : Bool → ℕ → JsNumber
clamp true n = finite false 0
clamp false n = finite false (if ltb unit n then unit else n)

unfoldable pub confidence_field : Value → Result Invalid (Option JsNumber)
confidence_field undefined = ok none
confidence_field (number (finite true n)) =
    if ltb tolerance n then err bad_confidence else ok (some (clamp true n))
confidence_field (number (finite false n)) =
    if ltb one_and_tolerance n then err bad_confidence else ok (some (clamp false n))
confidence_field _ = err bad_confidence

abbrev pub liveness_field : Value → Result Invalid (Option Bool)
liveness_field undefined = ok none
liveness_field (boolean b) = ok (some b)
liveness_field _ = err bad_liveness

-- `event.idempotencyKey ?? event.id`.
abbrev pub or_id : Value → Value → Value
or_id undefined id = id
or_id null id = id
or_id v id = v

-- `is_valid_timestamp` is `isValidTimestamp`, with the calendar of convex/localDate.ts.
module _ (is_valid_timestamp : Text → Bool) where
  -- `validateEvent`; an event that is not an object is none.
  unfoldable pub validate_event : Option RawEvent → Result Invalid AttendanceEvent
  validate_event raw = do
    event ← present raw no_object
    worker_id ← required_text event.worker_id 256
    type_text ← required_text event.event_type 256
    event_type ← event_type_of type_text
    timestamp ← required_text event.timestamp 64
    require (is_valid_timestamp timestamp) bad_timestamp
    confidence ← confidence_field event.confidence
    liveness ← liveness_field event.liveness_confirmed
    kiosk_id ← text_field event.kiosk_id false 128
    key ← text_field (or_id event.idempotency_key event.id) false 256
    worker_name ← text_field event.worker_name false 200
    note ← text_field event.note false 500
    ok (record {
      worker_id = worker_id;
      event_type = event_type;
      timestamp = timestamp;
      kiosk_id = kiosk_id;
      idempotency_key = key;
      worker_name = worker_name;
      confidence = confidence;
      liveness_confirmed = liveness;
      note = note;
    })

  unfoldable pub validate_each : List (Option RawEvent) → Result Invalid (List AttendanceEvent)
  validate_each [] = ok []
  validate_each (raw ∷ rest) = do
    event ← validate_event raw
    events ← validate_each rest
    ok (event ∷ events)

  -- `validateAttendanceBatch`, of an array.
  unfoldable pub validate_batch : List (Option RawEvent) → Result Invalid (List AttendanceEvent)
  validate_batch events = do refuse (ltb 500 (length events)) too_many_events; validate_each events
