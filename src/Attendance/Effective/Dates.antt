-- ===== src/Attendance/Effective/Dates.antt =====
-- convex/attendance.ts: `listEffectiveAttendanceByFactoryDates`, which reads the attendance of several
-- dates at once, and `listEffectiveAttendanceByTimestampRange`, which reads that of one.
use fw_gatekeeper.Prelude.{true, false, not, ◌&&◌, some, List, map, ◌≡◌}
use fw_gatekeeper.Prelude.Tests.{if◌then◌else◌, ◌==◌, option_eq}
use fw_gatekeeper.Prelude.Lists.{All, filter}
use fw_gatekeeper.Prelude.Text.{Text, text_eq, text_ltb}
use fw_gatekeeper.Prelude.Order.{IsOrder}
use fw_gatekeeper.Prelude.Result.{Result, ok, ◌>>=◌, ◌>>◌, require, refuse}
use fw_gatekeeper.Attendance.DateKeys.{is_date_key}
use fw_gatekeeper.Schema.{AttendanceRow, Correction, Db, Platform}
use fw_gatekeeper.Attendance.Effective.{
  FactoryCalendar, EffectiveRow, EvidenceError, bad_date_key, end_before_start, corrections_on,
  reversals_by_date, list_active, punch_row, is_scanned, belongs_to_date, apply_corrections,
}

-- `listCorrectionsByDateRange`.
abbrev pub corrections_between : Text → Text → Db → List Correction
corrections_between start end_ db =
    if start == end_
    then corrections_on start db
    else filter (λ (c : Correction). not (text_ltb c.date start) && not (text_ltb end_ c.date))
        db.corrections

-- What the reads of a range of dates rest on, of the calendar at that range and of the punches on
-- record: ids are in an order; the dates are date keys of the range, with their ranges of timestamps in
-- the range's; and a punch that is of one of the dates has its timestamp in the range of that date,
-- which is so for a timestamp that begins with its date, or the date before or after it.
pub record IsCovered (calendar : FactoryCalendar) (start end_ : Text) (db : Db) : Type 0 where
  pub id_order : IsOrder calendar.id_leb
  pub dates_within :
      All
        (λ date.
          (is_date_key date ≡ true)
          × (text_ltb date start ≡ false)
          × (text_ltb end_ date ≡ false)
          × (text_ltb (calendar.range_start date) (calendar.range_start start) ≡ false)
          × (text_ltb (calendar.range_end end_) (calendar.range_end date) ≡ false))
        (calendar.local_dates start end_)
  pub scanned :
      All
        (λ date.
          All
            (λ (a : AttendanceRow).
              calendar.local_date a.timestamp ≡ some date
              → (text_ltb a.timestamp (calendar.range_start date) ≡ false)
                × (text_ltb a.timestamp (calendar.range_end date) ≡ true))
            db.attendance)
        (calendar.local_dates start end_)

module _ (p : Platform) (calendar : FactoryCalendar) where
  -- The rows of the one scan that are of a date.
  abbrev pub rows_on : Text → Text → Text → Db → List EffectiveRow
  rows_on start end_ date db = map (punch_row p calendar) (
      filter
        (λ (a : AttendanceRow).
          is_scanned p calendar start end_ a && belongs_to_date p calendar a.timestamp date)
        db.attendance)

  -- What is effective on a date of the range, by the corrections of the range that stand.
  abbrev pub effective_on : Text → Text → List Correction → Db → Text → List EffectiveRow
  effective_on start end_ active db date =
      apply_corrections p calendar (rows_on start end_ date db)
        (filter (λ (c : Correction). c.date == date) active)

  -- `listEffectiveAttendanceByFactoryDates`: a map, as the list of its entries.
  unfoldable pub list_effective_by_dates :
      Text → Text → Db → Result EvidenceError (List (Text × List EffectiveRow))
  list_effective_by_dates start end_ db = do
    require (is_date_key start && is_date_key end_) bad_date_key
    refuse (text_ltb end_ start) end_before_start
    active ← list_active (reversals_by_date db) (corrections_between start end_ db)
    ok (
        map (λ date. (date, effective_on start end_ active db date))
          (calendar.local_dates start end_))
