-- ===== src/Attendance/Effective/Daily.antt =====
-- convex/attendance.ts: what is read for several dates at once is what is read for each.
use fw_gatekeeper.Prelude.{
  Bool, true, false, not, ◌&&◌, none, some, List, [], ◌∷◌, ◌++◌, map, ◌≡◌, inl, inr, refl, sym, ap,
  ◌∙◌, arith,
}
use fw_gatekeeper.Prelude.Tests.{Bool-cases, nat_eq, option_beq_iff, ◌==◌, option_eq}
use fw_gatekeeper.Prelude.Lists.{All, All-map, filter}
use fw_gatekeeper.Prelude.Text.{Text, text_eq, text_ltb}
use fw_gatekeeper.Prelude.Order.{IsOrder, by_key-IsOrder, sort_with, text_leb_trans}
use fw_gatekeeper.Prelude.Chains.{filter-same}
use fw_gatekeeper.Prelude.Stable.{sort-sorted_append, filter-sort}
use fw_gatekeeper.Prelude.Result.{ok}
use fw_gatekeeper.Attendance.DateKeys.{is_date_key}
use fw_gatekeeper.Schema.{AttendanceRow, Correction, Db, Platform}
use fw_gatekeeper.Attendance.Effective.{
  FactoryCalendar, EffectiveRow, reversals_by_date, list_active, key_or_last, row_id_text,
  punch_row, is_scanned, belongs_to_date, is_voided, additions, attendance_leb, attendance_on,
  list_attendance, apply_corrections, list_effective,
}
use fw_gatekeeper.Attendance.Reversals.Single.{OneReversal}
use fw_gatekeeper.Attendance.Effective.Dates.{
  corrections_between, rows_on, effective_on, list_effective_by_dates, IsCovered,
}
use fw_gatekeeper.Attendance.Effective.Standing.{list_active-filter, list_active-total, of_date}

module _ (p : Platform) (calendar : FactoryCalendar) where
  attendance_leb-IsOrder : IsOrder calendar.id_leb → IsOrder (attendance_leb p calendar)
  attendance_leb-IsOrder o =
      by_key-IsOrder (λ (r : EffectiveRow). key_or_last r.chronological_key)
        (λ (r s : EffectiveRow).
          calendar.id_leb (row_id_text p calendar r.id) (row_id_text p calendar s.id))
        (record {
          total = λ r s. o.total (row_id_text p calendar r.id) (row_id_text p calendar s.id);
          trans = λ r s t.
              o.trans (row_id_text p calendar r.id) (row_id_text p calendar s.id)
                (row_id_text p calendar t.id);
        })

  scan_same :
      (start end_ date : Text) (a : AttendanceRow)
      → (calendar.local_date a.timestamp ≡ some date
          → (text_ltb a.timestamp (calendar.range_start date) ≡ false)
            × (text_ltb a.timestamp (calendar.range_end date) ≡ true))
      → (text_ltb (calendar.range_start date) (calendar.range_start start) ≡ false)
      → (text_ltb (calendar.range_end end_) (calendar.range_end date) ≡ false)
      → (is_scanned p calendar date date a && true && belongs_to_date p calendar a.timestamp date)
        ≡ (is_scanned p calendar start end_ a && belongs_to_date p calendar a.timestamp date)
  scan_same start end_ date a scanned low high =
      elim (Bool-cases (belongs_to_date p calendar a.timestamp date)) [
        | inl e ↦
            let is = (option_beq_iff (calendar.local_date a.timestamp) (some date)).0 e in
            let (after_, before_) = scanned is in
            let first =
              text_leb_trans (calendar.range_start start) (calendar.range_start date) a.timestamp
                low after_ in
            let last : text_ltb a.timestamp (calendar.range_end end_) ≡ true =
              elim (Bool-cases (text_ltb a.timestamp (calendar.range_end end_))) [
                | inl k ↦ k
                | inr k ↦
                    let late =
                      text_leb_trans (calendar.range_end date) (calendar.range_end end_) a.timestamp
                        high k in
                    absurd (ground arith)
              ] in
            rw first (rw last (rw after_ (rw before_ refl)))
        | inr e ↦ elim (Bool-cases (is_scanned p calendar start end_ a)) [
          | inl k ↦ elim (Bool-cases (is_scanned p calendar date date a)) [
            | inl j ↦ ground arith
            | inr j ↦ ground arith
          ]
          | inr k ↦ elim (Bool-cases (is_scanned p calendar date date a)) [
            | inl j ↦ ground arith
            | inr j ↦ ground arith
          ]
        ]
      ]

  rows_same :
      (start end_ date : Text) (db : Db)
      → All
          (λ (a : AttendanceRow).
            calendar.local_date a.timestamp ≡ some date
            → (text_ltb a.timestamp (calendar.range_start date) ≡ false)
              × (text_ltb a.timestamp (calendar.range_end date) ≡ true))
          db.attendance
      → (text_ltb (calendar.range_start date) (calendar.range_start start) ≡ false)
      → (text_ltb (calendar.range_end end_) (calendar.range_end date) ≡ false)
      → attendance_on p calendar date none db
        ≡ sort_with (attendance_leb p calendar) (rows_on p calendar start end_ date db)
  rows_same start end_ date db scanned low high =
      ap (λ rows. sort_with (attendance_leb p calendar) (map (punch_row p calendar) rows))
        (filter-same _ _ db.attendance
          (All-map _ _ db.attendance (λ a h. scan_same start end_ date a h low high) scanned))

  -- Corrections are applied to rows in any order that the sort takes to the same.
  apply_corrections-sorted :
      (rows : List EffectiveRow) (active : List Correction)
      → IsOrder calendar.id_leb
      → apply_corrections p calendar (sort_with (attendance_leb p calendar) rows) active
        ≡ apply_corrections p calendar rows active
  unfolding apply_corrections
  apply_corrections-sorted rows active order =
      let o = attendance_leb-IsOrder order in
      let stays : EffectiveRow → Bool = λ r. not (is_voided p calendar active r.id) in
      ap (λ rs. sort_with (attendance_leb p calendar) (rs ++ additions p calendar active))
        (filter-sort (attendance_leb p calendar) o stays rows)
      ∙ sort-sorted_append (attendance_leb p calendar) o (filter stays rows)
          (additions p calendar active)

  All-entries :
      (P R : Text → Type 0) (Q : Text × List EffectiveRow → Type 0) (f : Text → List EffectiveRow)
      (dates : List Text)
      → ((date : Text) → P date → R date → Q (date, f date))
      → All P dates
      → All R dates
      → All Q (map (λ date. (date, f date)) dates)
  All-entries P R Q f [] g h k = tt
  All-entries P R Q f (date ∷ dates) g (q, h) (r, k) = (g date q r, All-entries P R Q f dates g h k)

  each_date :
      (start end_ date : Text) (db : Db) (active : List Correction)
      → IsOrder calendar.id_leb
      → list_active (reversals_by_date db) (corrections_between start end_ db) ≡ ok active
      → (is_date_key date ≡ true)
        × (text_ltb date start ≡ false)
        × (text_ltb end_ date ≡ false)
        × (text_ltb (calendar.range_start date) (calendar.range_start start) ≡ false)
        × (text_ltb (calendar.range_end end_) (calendar.range_end date) ≡ false)
      → All
          (λ (a : AttendanceRow).
            calendar.local_date a.timestamp ≡ some date
            → (text_ltb a.timestamp (calendar.range_start date) ≡ false)
              × (text_ltb a.timestamp (calendar.range_end date) ≡ true))
          db.attendance
      → list_effective p calendar date none db
        ≡ ok (effective_on p calendar start end_ active db date)
  unfolding list_effective list_attendance
  each_date start end_ date db active order e (key, after_, before_, low, high) scanned =
      let of_day : Correction → Bool = λ x. x.date == date in
      rw key (
        rw
          (ap (list_active (reversals_by_date db)) (sym (of_date start end_ date db after_ before_))
            ∙ list_active-filter (reversals_by_date db) of_day (corrections_between start end_ db)
                active e)
          (ap ok (
            ap (λ rows. apply_corrections p calendar rows (filter of_day active))
              (rows_same start end_ date db scanned low high)
            ∙ apply_corrections-sorted (rows_on p calendar start end_ date db)
                (filter of_day active) order)))

  dates_of :
      (f : Text → List EffectiveRow) (dates : List Text)
      → map (λ (date, rows). date) (map (λ date. (date, f date)) dates) ≡ dates
  dates_of f [] = refl
  dates_of f (date ∷ dates) = ap (λ ds. date ∷ ds) (dates_of f dates)

  -- For date keys of which the second is not before the first, and where no correction has two
  -- reversals, the attendance of several dates can be read at once, and has for each of them what is
  -- read for that date alone, which is no error either; where the calendar's dates between the two are
  -- date keys, in the order of texts as their ranges of timestamps are, and each punch on record that is
  -- of one of them has its timestamp in the range of that date.
  pub list_effective_by_dates_lem :
      (start end_ : Text) (db : Db)
      → is_date_key start ≡ true
      → is_date_key end_ ≡ true
      → text_ltb end_ start ≡ false
      → IsCovered calendar start end_ db
      → OneReversal db.reversals
      → (days : List (Text × List EffectiveRow)) × (list_effective_by_dates p calendar start end_ db
          ≡ ok days)
        × (map (λ (date, rows). date) days ≡ calendar.local_dates start end_)
        × All (λ (date, rows). list_effective p calendar date none db ≡ ok rows) days
  unfolding list_effective_by_dates
  list_effective_by_dates_lem start end_ db from till forward c h =
      let (active, e) = list_active-total db (corrections_between start end_ db) h in
      let dates = calendar.local_dates start end_ in
      let on_date = effective_on p calendar start end_ active db in
      (
        map (λ date. (date, on_date date)) dates,
        rw (from, till, forward, e) refl,
        dates_of on_date dates,
        All-entries _ _ _ on_date dates
            (λ date q r. each_date start end_ date db active c.id_order e q r) c.dates_within
            c.scanned,
      )
