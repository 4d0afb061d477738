-- ===== src/Attendance/Effective.antt =====
-- convex/attendance.ts and convex/attendanceReads.ts: the punches of a factory date with the
-- corrections that stand. What is read twice in a transaction is shared there, which changes no answer.
pub mod Undone
pub mod Dates
pub mod Standing
pub mod Daily
mod Tests
use fw_gatekeeper.Prelude.{
  ℕ, suc, Bool, true, false, not, ◌&&◌, ◌||◌, Option, none, some, List, [], ◌∷◌, ◌++◌, map,
}
use fw_gatekeeper.Prelude.Tests.{if◌then◌else◌, ◌==◌, nat_eq, option_eq}
use fw_gatekeeper.Prelude.Lists.{take, filter, any}
use fw_gatekeeper.Prelude.Text.{Text, text, text_eq, text_ltb, is_digit}
use fw_gatekeeper.Prelude.Number.{JsNumber}
use fw_gatekeeper.Prelude.Order.{sort_with}
use fw_gatekeeper.Prelude.Result.{Result, ok, err, ◌>>=◌, ◌>>◌, require}
use fw_gatekeeper.Attendance.DateKeys.{is_date_key}
use fw_gatekeeper.Schema.{
  EventType, AttendanceRow, Correction, CorrectionAction, add_clock_in, add_clock_out, void_event,
  action_eq, Reversal, Db, Platform,
}

-- convex/localDate.ts and convex/recognitionTimestamp.ts, which resolve time zones by Intl, and the
-- platform's `localeCompare` on ids, by whether the first comes no later.
pub record FactoryCalendar : Type 0 where
  -- `getFactoryLocalTimestamp(timestamp) || timestamp`.
  pub local_timestamp : Text → Text
  -- `createRecognitionTimestampSortKey()(timestamp)`, empty for what is no time.
  pub sort_key : Text → Text
  -- `getFactoryLocalDateKey(timestamp)`.
  pub local_date : Text → Option Text
  -- `listFactoryLocalDateKeys(start, end)`, of date keys in order.
  pub local_dates : Text → Text → List Text
  -- The one range of `buildConservativeFactoryLocalTimestampRanges(start, end)`, of date keys: where it starts, which
  -- depends on the start, and where it ends, which depends on the end.
  pub range_start : Text → Text
  pub range_end : Text → Text
  pub id_leb : Text → Text → Bool

-- `_id` of a row: a punch's, or `correction:` and a correction's.
pub data EvidenceId : Type 0 where
  of_punch of_correction : ℕ → EvidenceId

pub data Source : Type 0 where
  kiosk correction : Source

pub record EffectiveRow : Type 0 where
  pub id : EvidenceId
  pub worker_id : Text
  pub event_type : EventType
  pub kiosk_id : Option Text
  pub timestamp : Text
  pub chronological_key : Text
  pub idempotency_key : Option Text
  pub synced : Bool
  pub worker_name : Option Text
  pub confidence : Option JsNumber
  pub liveness_confirmed : Option Bool
  pub note : Option Text
  pub correction_id : Option ℕ
  pub correction_reason : Option Text
  pub correction_supervisor_name : Option Text
  pub corrected : Bool
  pub source : Source

pub data EvidenceError : Type 0 where
  -- "Attendance correction has more than one reversal."
  double_reversal : EvidenceError
  -- "dateKey must use YYYY-MM-DD format".
  bad_date_key : EvidenceError
  -- "endDateKey must not precede startDateKey".
  end_before_start : EvidenceError

unfoldable pub digits : Text → Text
digits [] = []
digits (c ∷ t) = let rest = digits t in if is_digit c then c ∷ rest else []

-- `timestamp.match(/\.([0-9]+)/)?.[1]`; 46 is the full stop.
unfoldable pub fraction : Text → Text
fraction [] = []
fraction (c ∷ t) =
    let rest = fraction t in
    if c == 46 then elim (digits t) [ [] ↦ rest | d ∷ ds ↦ d ∷ ds ] else rest

abbrev with_fraction : Text → Text → Text
with_fraction [] local = local
with_fraction (d ∷ ds) local =
    if any (λ c. c == 46) local then local else local ++ (text "." ++ d ∷ ds)

-- `left < right ? -1 : left > right ? 1 : …`, with an empty key last.
abbrev pub key_or_last : Text → Text
key_or_last [] = text "~"
key_or_last (c ∷ t) = c ∷ t

abbrev pub corrections_on : Text → Db → List Correction
corrections_on date db = filter (λ (c : Correction). c.date == date) db.corrections

-- `listCorrectionReversals`: those of the correction's date that name it.
abbrev pub reversals_by_date : Db → Correction → List Reversal
reversals_by_date db c =
    filter (λ (r : Reversal). r.date == c.date && r.correction_id == c.id) db.reversals

-- `listReversalsPerCorrection`.
abbrev pub reversals_by_correction : Db → Correction → List Reversal
reversals_by_correction db c =
    take 2 (filter (λ (r : Reversal). r.correction_id == c.id) db.reversals)

-- A correction stands if it has no reversal.
abbrev pub keep_active :
    Correction
    → List Reversal
    → Result EvidenceError (List Correction)
    → Result EvidenceError (List Correction)
keep_active c [] rest = rest >>= λ active. ok (c ∷ active)
keep_active c (r ∷ []) rest = rest
keep_active c (r ∷ s ∷ _) rest = err double_reversal

-- `listActiveCorrections`.
unfoldable pub list_active :
    (Correction → List Reversal) → List Correction → Result EvidenceError (List Correction)
list_active reversals_of [] = ok []
list_active reversals_of (c ∷ corrections) =
    keep_active c (reversals_of c) (list_active reversals_of corrections)

-- What the active voids take out.
abbrev voids : ℕ → Correction → Bool
voids punch c = c.action == void_event && c.original_attendance_id == some punch

module _ (p : Platform) (calendar : FactoryCalendar) where
  -- `withFactoryLocalTimestamp`.
  abbrev wall_time : Text → Text
  wall_time original = with_fraction (fraction original) (calendar.local_timestamp original)

  abbrev pub row_id_text : EvidenceId → Text
  row_id_text (of_punch i) = p.id_text i
  row_id_text (of_correction i) = text "correction:" ++ p.id_text i

  -- `compareAttendance(a, b) <= 0`.
  abbrev pub attendance_leb : EffectiveRow → EffectiveRow → Bool
  attendance_leb a b =
      let left = key_or_last a.chronological_key in
      let right = key_or_last b.chronological_key in
      if text_ltb left right
      then true
      else if text_ltb right left
      then false
      else calendar.id_leb (row_id_text a.id) (row_id_text b.id)

  -- A punch as it is shown.
  abbrev pub punch_row : AttendanceRow → EffectiveRow
  punch_row a = record {
    id = of_punch a.id;
    worker_id = a.worker_id;
    event_type = a.event_type;
    kiosk_id = a.kiosk_id;
    timestamp = wall_time a.timestamp;
    chronological_key = calendar.sort_key a.timestamp;
    idempotency_key = a.idempotency_key;
    synced = a.synced;
    worker_name = a.worker_name;
    confidence = a.confidence;
    liveness_confirmed = a.liveness_confirmed;
    note = a.note;
    correction_id = none;
    correction_reason = none;
    correction_supervisor_name = none;
    corrected = false;
    source = kiosk;
  }

  -- A punch that a correction adds.
  abbrev added_row : Correction → Text → EventType → EffectiveRow
  added_row c timestamp event_type = record {
    id = of_correction c.id;
    worker_id = c.worker_id;
    event_type = event_type;
    kiosk_id = some (text "supervisor_correction");
    timestamp = wall_time timestamp;
    chronological_key = calendar.sort_key timestamp;
    idempotency_key = some (text "correction:" ++ p.id_text c.id);
    synced = true;
    worker_name = none;
    confidence = none;
    liveness_confirmed = none;
    note = none;
    correction_id = some c.id;
    correction_reason = some c.reason;
    correction_supervisor_name = c.supervisor_name;
    corrected = true;
    source = correction;
  }

  -- A correction adds a punch if it is of that kind and has a time and a type.
  abbrev addition : Correction → List EffectiveRow
  addition c =
      if c.action == add_clock_in || c.action == add_clock_out
      then elim c.corrected_timestamp [
        | none ↦ []
        | some [] ↦ []
        | some (k ∷ t) ↦ elim c.event_type [
          | none ↦ []
          | some event_type ↦ added_row c (k ∷ t) event_type ∷ []
        ]
      ]
      else []

  unfoldable pub additions : List Correction → List EffectiveRow
  additions [] = []
  additions (c ∷ corrections) = addition c ++ additions corrections

  -- An empty worker's id is none.
  abbrev of_worker : Option Text → AttendanceRow → Bool
  of_worker none a = true
  of_worker (some []) a = true
  of_worker (some (k ∷ w)) a = a.worker_id == k ∷ w

  -- `timestampBelongsToFactoryLocalDate`.
  abbrev pub belongs_to_date : Text → Text → Bool
  belongs_to_date timestamp date = calendar.local_date timestamp == some date

  abbrev pub is_scanned : Text → Text → AttendanceRow → Bool
  is_scanned start end_ a =
      not (text_ltb a.timestamp (calendar.range_start start))
      && text_ltb a.timestamp (calendar.range_end end_)

  -- `listAttendanceByTimestampRange`: the rows of the scan that are of the date, in order.
  abbrev pub attendance_on : Text → Option Text → Db → List EffectiveRow
  attendance_on date worker db = sort_with attendance_leb (
      map punch_row (
        filter
          (λ (a : AttendanceRow).
            is_scanned date date a && of_worker worker a && belongs_to_date a.timestamp date)
          db.attendance))

  unfoldable pub list_attendance :
      Text → Option Text → Db → Result EvidenceError (List EffectiveRow)
  list_attendance date worker db = do
    require (is_date_key date) bad_date_key
    ok (attendance_on date worker db)

  abbrev pub is_voided : List Correction → EvidenceId → Bool
  is_voided active (of_punch i) = any (voids i) active
  is_voided active (of_correction i) = false

  -- `applyAttendanceCorrections`.
  unfoldable pub apply_corrections : List EffectiveRow → List Correction → List EffectiveRow
  apply_corrections rows active =
      sort_with attendance_leb
        (filter (λ (r : EffectiveRow). not (is_voided active r.id)) rows ++ additions active)

  -- The corrections that stand, for every worker or for one.
  abbrev pub active_corrections : Text → Option Text → Db → Result EvidenceError (List Correction)
  active_corrections date none db = list_active (reversals_by_date db) (corrections_on date db)
  active_corrections date (some []) db = list_active (reversals_by_date db) (corrections_on date db)
  active_corrections date (some (k ∷ w)) db =
      list_active (reversals_by_correction db)
        (filter (λ (c : Correction). c.worker_id == k ∷ w && c.date == date) db.corrections)

  -- `listEffectiveAttendanceByTimestampRange`.
  unfoldable pub list_effective : Text → Option Text → Db → Result EvidenceError (List EffectiveRow)
  list_effective date worker db = do
    rows ← list_attendance date worker db
    active ← active_corrections date worker db
    ok (apply_corrections rows active)
