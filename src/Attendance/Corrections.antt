-- ===== src/Attendance/Corrections.antt =====
-- convex/attendanceCorrections.ts: supervisors add or void punches without touching the evidence,
-- and reverse such corrections.
pub mod Created
pub mod Voids
pub mod Replay
mod Tests
use fw_gatekeeper.Prelude.{
  ℕ, suc, ◌+◌, ◌*◌, Bool, true, false, not, ◌&&◌, ◌||◌, Option, none, some, List, [], ◌∷◌, ◌++◌,
}
use fw_gatekeeper.Prelude.Tests.{ltb, leb, if◌then◌else◌, ◌==◌, ◌!=◌, nat_eq, option_eq}
use fw_gatekeeper.Prelude.Lists.{take, filter, find, length, sole}
use fw_gatekeeper.Prelude.Text.{Text, text_eq, trim}
use fw_gatekeeper.Prelude.Result.{Result, ok, err, ◌>>=◌, ◌>>◌, require, refuse, present}
use fw_gatekeeper.Prelude.Table.{get_row}
use fw_gatekeeper.Schema.{
  Worker, worker_row, AttendanceRow, attendance_row, CorrectionAction, add_clock_in, add_clock_out,
  void_event, action_eq, EventType, clock_in, clock_out, Correction, correction_row, Reversal,
  reversal_row, admin, enrollment, PortalMember, Db, Platform,
}
use fw_gatekeeper.Access.{AccessError, Caller, assert_portal_role}

-- What a correction takes from an exception of convex/shiftExceptions.ts.
pub record ExceptionSource : Type 0 where
  pub key : Text
  pub source_fingerprint : Text
  pub date : Text
  pub worker_id : Text
  pub attendance_id : Option ℕ
  pub can_apply : Bool
  pub action : Option CorrectionAction

-- The parts of the program that a correction is checked against.
pub record Evidences : Type 0 where
  -- `timestampBelongsToFactoryLocalDate(timestamp, date)` of convex/localDate.ts.
  pub belongs_to_date : Text → Text → Bool
  -- `isValidAttendanceTimestamp` of convex/attendanceValidation.ts.
  pub is_valid_timestamp : Text → Bool
  -- The instant, in milliseconds, of a timestamp's key of convex/recognitionTimestamp.ts.
  pub instant : Text → Option ℕ
  -- `buildShiftExceptions(ctx, date)`.
  pub exceptions : Text → Db → List ExceptionSource

pub data CorrectionError : Type 0 where
  denied : AccessError → CorrectionError
  no_reason bad_request_id request_id_reused ambiguous_request worker_missing source_conflict :
      CorrectionError
  original_required original_missing history_too_long ambiguous_reversal active_void :
      CorrectionError
  other_worker other_date : CorrectionError
  timestamp_required timestamp_invalid timestamp_other_date timestamp_in_future : CorrectionError
  correction_missing already_reversed : CorrectionError

-- `normalizeText`.
abbrev pub normalize_text : Option Text → Option Text
normalize_text none = none
normalize_text (some t) = elim (trim t) [ [] ↦ none | c ∷ s ↦ some (c ∷ s) ]

-- `getEventTypeForAction`.
abbrev pub event_type_for : CorrectionAction → Option EventType
event_type_for add_clock_in = some clock_in
event_type_for add_clock_out = some clock_out
event_type_for void_event = none

pub record CorrectionArgs : Type 0 where
  pub request_id : Option Text
  pub date : Text
  pub worker_id : ℕ
  pub action : CorrectionAction
  pub corrected_timestamp : Option Text
  pub original_attendance_id : Option ℕ
  pub related_exception_key : Option Text
  pub source_fingerprint : Option Text
  pub reason : Text
  pub supervisor_name : Option Text

abbrev pub bad_request_text : Text → Bool
bad_request_text t = elim (trim t) [ [] ↦ true | c ∷ s ↦ ltb 200 (length t) ]

abbrev pub bad_request_id_of : Option Text → Bool
bad_request_id_of none = false
bad_request_id_of (some t) = bad_request_text t

abbrev pub future_tolerance_ms : ℕ
future_tolerance_ms = 60000

-- The corrections of one punch that are voids have each been reversed.
unfoldable pub no_active_void : List Reversal → List Correction → Result CorrectionError (Unit {0})
no_active_void reversals [] = ok tt
no_active_void reversals (c ∷ priors) =
    let rest = no_active_void reversals priors in
    if c.action == void_event
    then elim (sole (filter (λ (r : Reversal). r.correction_id == c.id) reversals)) [
      | none ↦ err ambiguous_reversal
      | some none ↦ err active_void
      | some (some r) ↦ rest
    ]
    else rest

abbrev pub prior_corrections : ℕ → Db → List Correction
prior_corrections original db =
    take 501 (filter (λ (c : Correction). c.original_attendance_id == some original) db.corrections)

pub record CorrectionAnswer : Type 0 where
  pub id : ℕ
  pub created_at : Text

module _ (p : Platform) (e : Evidences) where
  -- The row that `create` inserts: the evidence, and what the server adds.
  abbrev pub correction_row_of : ℕ → Text → ℕ → Text → CorrectionArgs → Correction
  correction_row_of id now actor reason a = record {
    id = id;
    request_id = a.request_id;
    date = a.date;
    worker_id = p.id_text a.worker_id;
    action = a.action;
    event_type = event_type_for a.action;
    corrected_timestamp =
        if a.action == void_event then none else normalize_text a.corrected_timestamp;
    original_attendance_id = a.original_attendance_id;
    related_exception_key = normalize_text a.related_exception_key;
    source_fingerprint = a.source_fingerprint;
    reason = reason;
    supervisor_name = normalize_text a.supervisor_name;
    actor_user_id = some actor;
    created_at = now;
    updated_at = now;
  }

  -- No entry of the evidence differs.
  abbrev pub same_evidence : Correction → Correction → Bool
  same_evidence c d =
      c.date == d.date
      && c.worker_id == d.worker_id
      && c.action == d.action
      && c.corrected_timestamp == d.corrected_timestamp
      && c.original_attendance_id == d.original_attendance_id
      && c.related_exception_key == d.related_exception_key
      && c.source_fingerprint == d.source_fingerprint
      && c.reason == d.reason
      && c.supervisor_name == d.supervisor_name

  abbrev source_matches : CorrectionArgs → ExceptionSource → Bool
  source_matches a s =
      some s.source_fingerprint == a.source_fingerprint
      && s.date == a.date
      && s.worker_id == p.id_text a.worker_id
      && s.can_apply
      && s.action == some a.action
      && (not (a.action == void_event) || s.attendance_id == a.original_attendance_id)

  abbrev pub check_source : CorrectionArgs → Db → Result CorrectionError (Unit {0})
  check_source a db = elim (normalize_text a.related_exception_key) [
    | none ↦ ok tt
    | some key ↦ elim (find (λ (s : ExceptionSource). s.key == key) (e.exceptions a.date db)) [
      | none ↦ err source_conflict
      | some s ↦ require (source_matches a s) source_conflict
    ]
  ]

  unfoldable pub check_void : CorrectionArgs → Db → Result CorrectionError (Unit {0})
  check_void a db = do
    id ← present a.original_attendance_id original_required
    original ← present (get_row id db.attendance) original_missing
    refuse (ltb 500 (length (prior_corrections id db))) history_too_long
    no_active_void db.reversals (prior_corrections id db)
    require (original.worker_id == p.id_text a.worker_id) other_worker
    require (e.belongs_to_date original.timestamp a.date) other_date

  abbrev in_future : Option ℕ → ℕ → Bool
  in_future none now = false
  in_future (some t) now = ltb (now + future_tolerance_ms) t

  unfoldable pub check_addition : CorrectionArgs → ℕ → Result CorrectionError (Unit {0})
  check_addition a now = do
    t ← present (normalize_text a.corrected_timestamp) timestamp_required
    require (e.is_valid_timestamp t) timestamp_invalid
    require (e.belongs_to_date t a.date) timestamp_other_date
    refuse (in_future (e.instant t) now) timestamp_in_future

  -- A first commit: what must hold, and the row.
  unfoldable pub commit_correction :
      CorrectionArgs → Text → ℕ → ℕ → Db → Result CorrectionError (CorrectionAnswer × Db)
  commit_correction a reason actor now db = do
    worker ← present (get_row a.worker_id db.workers) worker_missing
    check_source a db
    (if a.action == void_event then check_void a db else check_addition a now)
    ok (
      record { id = db.next_id; created_at = p.iso now },
      record db {
        next_id = suc db.next_id;
        corrections =
            db.corrections ++ correction_row_of db.next_id (p.iso now) actor reason a ∷ [];
      },
    )

  -- The correction that was made for the request before, if there is one.
  abbrev pub requested : Option Text → Db → Result CorrectionError (Option Correction)
  requested none db = ok none
  requested (some t) db =
      present (sole (filter (λ (c : Correction). c.request_id == some t) db.corrections))
        ambiguous_request

  -- The replay of a request, or its first commit.
  abbrev pub replay_or_commit :
      CorrectionArgs
      → Text
      → ℕ
      → ℕ
      → Db
      → Option Correction
      → Result CorrectionError (CorrectionAnswer × Db)
  replay_or_commit a reason actor now db none = commit_correction a reason actor now db
  replay_or_commit a reason actor now db (some c) =
      if same_evidence c (correction_row_of c.id c.created_at actor reason a)
      then ok (record { id = c.id; created_at = c.created_at }, db)
      else err request_id_reused

  -- `create` for an operator who may.
  unfoldable pub create_for :
      CorrectionArgs → ℕ → ℕ → Db → Result CorrectionError (CorrectionAnswer × Db)
  create_for a actor now db = do
    reason ← present (normalize_text (some a.reason)) no_reason
    refuse (bad_request_id_of a.request_id) bad_request_id
    existing ← requested a.request_id db
    replay_or_commit a reason actor now db existing

  module _ (session_id_of : Text → Option ℕ) where
    -- The access check, with its error among those of corrections.
    abbrev pub operator : Caller → Db → Result CorrectionError PortalMember
    operator c db = elim (assert_portal_role p session_id_of (admin ∷ enrollment ∷ []) c db) [
      | ok m ↦ ok m
      | err bad ↦ err (denied bad)
    ]

    unfoldable pub create :
        CorrectionArgs → Caller → Db → Result CorrectionError (CorrectionAnswer × Db)
    create a c db = do actor ← operator c db; create_for a actor.user_id c.now db
