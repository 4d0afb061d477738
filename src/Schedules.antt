-- ===== src/Schedules.antt =====
-- convex/schedules.ts, convex/scheduleValidation.ts, convex/scheduleAssignment.ts, and of
-- convex/scheduleTimes.ts the range of times that is supported.
pub mod Supported
pub mod Assigned
mod Tests
use fw_gatekeeper.Prelude.{
  ℕ, suc, Bool, true, false, not, ◌&&◌, ◌||◌, Option, none, some, List, [], ◌∷◌, ◌++◌,
}
use fw_gatekeeper.Prelude.Tests.{ltb, leb, if◌then◌else◌, ◌==◌, ◌!=◌, nat_eq}
use fw_gatekeeper.Prelude.Lists.{filter, any, all, length, sort_by}
use fw_gatekeeper.Prelude.Text.{Text, text, text_eq, text_ltb, trim, is_digit}
use fw_gatekeeper.Prelude.Number.{JsNumber, safe_count}
use fw_gatekeeper.Prelude.Decimal.{show_nat}
use fw_gatekeeper.Prelude.Result.{Result, ok, err, ◌>>=◌, ◌>>◌, require, refuse, present}
use fw_gatekeeper.Prelude.Table.{get_row, patch_row}
use fw_gatekeeper.Schema.{Schedule, schedule_row, admin, PortalMember, Db, Platform}
use fw_gatekeeper.Access.{AccessError, Caller, assert_portal_role}

pub data ScheduleError : Type 0 where
  denied : AccessError → ScheduleError
  blank_name bad_days bad_times schedule_missing : ScheduleError

-- `/^(?:[01]\d|2[0-3]):[0-5]\d$/`; 58 is the colon.
unfoldable pub is_time : Text → Bool
is_time (a ∷ b ∷ c ∷ d ∷ e ∷ []) =
    (((a == b'0' || a == b'1') && is_digit b) || (a == b'2' && (leb b'0' b && leb b b'3')))
    && c == 58
    && (leb b'0' d && leb d b'5')
    && is_digit e
is_time _ = false

-- `isSupportedScheduleTimeRange`, on strings.
unfoldable pub is_supported_range : Text → Text → Bool
is_supported_range start end = is_time start && is_time end && text_ltb start end

-- `isValidScheduleName`.
abbrev pub is_valid_name : Text → Bool
is_valid_name name = ltb 0 (length (trim name))

-- An integer from 0 through 6.
abbrev pub day_of : Option JsNumber → Option ℕ
day_of none = none
day_of (some x) = elim (safe_count x) [ none ↦ none | some n ↦ if leb n 6 then some n else none ]

-- The days of an array, all of which must be such.
unfoldable pub all_days : List (Option JsNumber) → Option (List ℕ)
all_days [] = some []
all_days (v ∷ vs) = elim (day_of v) [
  | none ↦ none
  | some d ↦ elim (all_days vs) [ none ↦ none | some ds ↦ some (d ∷ ds) ]
]

unfoldable pub has_repeat : List ℕ → Bool
has_repeat [] = false
has_repeat (d ∷ ds) = any (λ x. x == d) ds || has_repeat ds

-- The days of an array, without what is no day.
unfoldable pub some_days : List (Option JsNumber) → List ℕ
some_days [] = []
some_days (v ∷ vs) = elim (day_of v) [ none ↦ some_days vs | some d ↦ d ∷ some_days vs ]

unfoldable pub join_days : List ℕ → Text
join_days [] = []
join_days (d ∷ []) = show_nat d
join_days (d ∷ e ∷ ds) = show_nat d ++ text "," ++ join_days (e ∷ ds)

-- `JSON.stringify` of days.
abbrev pub days_text : List ℕ → Text
days_text ds = text "[" ++ join_days ds ++ text "]"

abbrev distinct_days : Option (List ℕ) → Option (List ℕ)
distinct_days none = none
distinct_days (some ds) = if has_repeat ds then none else some ds

-- `json` is `JSON.parse`: the elements of an array, each a number or something else, or nothing for
-- what is no array or no JSON.
module _ (json : Text → Option (List (Option JsNumber))) where
  -- `parseScheduleDays`, on a string.
  unfoldable pub parse_days : Text → Option (List ℕ)
  parse_days t = elim (json t) [
    | none ↦ none
    | some vs ↦ if leb (length vs) 0 || ltb 7 (length vs) then none else distinct_days (all_days vs)
  ]

  -- `scheduleDays`.
  unfoldable pub schedule_days : Text → List ℕ
  schedule_days t = elim (json t) [ none ↦ [] | some vs ↦ some_days vs ]

  -- `validateSchedule`, with the days that are parsed.
  unfoldable pub validate_schedule : Text → Text → Text → Text → Result ScheduleError (List ℕ)
  validate_schedule name days start end = do
    require (is_valid_name name) blank_name
    parsed ← present (parse_days days) bad_days
    require (is_supported_range start end) bad_times
    ok parsed

pub record ScheduleArgs : Type 0 where
  pub name : Text
  pub days : Text
  pub start_time : Text
  pub end_time : Text
  pub department : Option Text

-- A change: what is `none` is left; a department is cleared by `some none` or an empty text.
pub record ScheduleChange : Type 0 where
  pub name : Option Text
  pub days : Option Text
  pub start_time : Option Text
  pub end_time : Option Text
  pub department : Option (Option Text)

abbrev pub or_old {ℓ} : {A : Type ℓ} → Option A → A → A
or_old none old = old
or_old (some a) old = a

abbrev filled : Option Text → Option Text
filled none = none
filled (some []) = none
filled (some (c ∷ t)) = some (c ∷ t)

abbrev new_department : Option (Option Text) → Option Text → Option Text
new_department none old = old
new_department (some d) old = filled d

-- The texts that a change of the days writes; the days have been parsed.
abbrev new_days : Option Text → List ℕ → Text → Text
new_days none parsed old = old
new_days (some t) parsed old = days_text parsed

abbrev new_name : Option Text → Text → Text
new_name none old = old
new_name (some t) old = trim t

abbrev pub changed : ScheduleChange → List ℕ → Schedule → Schedule
changed x parsed s = record s {
  name = new_name x.name s.name;
  days = new_days x.days parsed s.days;
  start_time = or_old x.start_time s.start_time;
  end_time = or_old x.end_time s.end_time;
  department = new_department x.department s.department;
}

module _ (p : Platform) (json : Text → Option (List (Option JsNumber))) where
  -- `create`, `update` and `remove` for an administrator who may.
  unfoldable pub add_schedule : ScheduleArgs → ℕ → Db → Result ScheduleError (ℕ × Db)
  add_schedule a now db = do
    parsed ← validate_schedule json a.name a.days a.start_time a.end_time
    ok (
      db.next_id,
      record db {
        next_id = suc db.next_id;
        schedules =
            db.schedules
            ++ record {
              id = db.next_id;
              name = trim a.name;
              days = days_text parsed;
              start_time = a.start_time;
              end_time = a.end_time;
              department = a.department;
              active = true;
              created_at = p.iso now;
            }
              ∷ [];
      },
    )

  unfoldable pub change_schedule : ℕ → ScheduleChange → Db → Result ScheduleError Db
  change_schedule id x db = do
    s ← present (get_row id db.schedules) schedule_missing
    parsed ←
        validate_schedule json (or_old x.name s.name) (or_old x.days s.days)
          (or_old x.start_time s.start_time) (or_old x.end_time s.end_time)
    ok (record db { schedules = patch_row id (changed x parsed) db.schedules })

  unfoldable pub remove_schedule : ℕ → Db → Result ScheduleError Db
  remove_schedule id db = do
    s ← present (get_row id db.schedules) schedule_missing
    ok (record db {
      schedules = patch_row id (λ (x : Schedule). record x { active = false }) db.schedules;
    })

  module _ (session_id_of : Text → Option ℕ) where
    abbrev pub manager : Caller → Db → Result ScheduleError PortalMember
    manager c db = elim (assert_portal_role p session_id_of (admin ∷ []) c db) [
      | ok m ↦ ok m
      | err bad ↦ err (denied bad)
    ]

    unfoldable pub create : ScheduleArgs → Caller → Db → Result ScheduleError (ℕ × Db)
    create a c db = manager c db >>= λ _. add_schedule a c.now db

    unfoldable pub update : ℕ → ScheduleChange → Caller → Db → Result ScheduleError Db
    update id x c db = manager c db >>= λ _. change_schedule id x db

    unfoldable pub remove : ℕ → Caller → Db → Result ScheduleError Db
    remove id c db = manager c db >>= λ _. remove_schedule id db

pub data Tier : Type 0 where
  department_tier default_tier : Tier

pub data Assignment : Type 0 where
  unique : Tier → Schedule → Assignment
  unassigned : Assignment
  ambiguous : Tier → List Schedule → Assignment

module _ (p : Platform) (json : Text → Option (List (Option JsNumber))) where
  -- `departmentKey`.
  abbrev pub department_key : Option Text → Text
  department_key none = p.lower (trim [])
  department_key (some t) = p.lower (trim t)

  abbrev pub has_key : Option Text → Bool
  has_key d = ltb 0 (length (department_key d))

  abbrev pub is_today : ℕ → Schedule → Bool
  is_today day s = s.active && any (λ d. d == day) (schedule_days json s.days)

  abbrev pub department_matches : Option Text → ℕ → List Schedule → List Schedule
  department_matches d day schedules =
      if has_key d
      then filter (λ (s : Schedule). department_key s.department == department_key d)
          (filter (is_today day) schedules)
      else []

  abbrev pub default_matches : ℕ → List Schedule → List Schedule
  default_matches day schedules =
      filter (λ (s : Schedule). not (has_key s.department)) (filter (is_today day) schedules)

  -- The order of ids stands for the order of their texts.
  abbrev pub choose : Tier → List Schedule → Assignment
  choose tier [] = unassigned
  choose tier (s ∷ []) = unique tier s
  choose tier (s ∷ r ∷ ss) = ambiguous tier (sort_by (λ (x : Schedule). x.id) (s ∷ r ∷ ss))

  abbrev pub is_none_of : List Schedule → Bool
  is_none_of [] = true
  is_none_of (s ∷ ss) = false

  -- `resolveScheduleAssignment`.
  unfoldable pub resolve_assignment : Option Text → List Schedule → ℕ → Assignment
  resolve_assignment d schedules day =
      if is_none_of (department_matches d day schedules)
      then choose default_tier (default_matches day schedules)
      else choose department_tier (department_matches d day schedules)
