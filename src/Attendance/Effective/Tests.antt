-- ===== src/Attendance/Effective/Tests.antt =====
-- The attendance of two dates at once, with a punch on the first.
use fw_gatekeeper.Prelude.{
  true, false, not, none, some, List, [], ◌∷◌, map, ◌≡◌, inl, inr, refl, arith,
}
use fw_gatekeeper.Prelude.Tests.{Bool-cases, if◌then◌else◌, ◌==◌}
use fw_gatekeeper.Prelude.Lists.{All, any, filter, take}
use fw_gatekeeper.Prelude.Text.{Text, text, text_eq, text_beq, text_ltb, is_digit}
use fw_gatekeeper.Prelude.Order.{IsOrder, insert_with, sort_with, text_ltb_asym, text_leb_trans}
use fw_gatekeeper.Prelude.Result.{ok, err}
use fw_gatekeeper.Samples.{platform, records, punch}
use fw_gatekeeper.Attendance.DateKeys.{element, is_date_key}
use fw_gatekeeper.Attendance.Effective.{
  FactoryCalendar, EffectiveRow, end_before_start, bad_date_key, digits, fraction, list_active,
  additions, punch_row, apply_corrections, list_effective,
}
use fw_gatekeeper.Attendance.Effective.Dates.{list_effective_by_dates, IsCovered}
use fw_gatekeeper.Attendance.Effective.Daily.{list_effective_by_dates_lem}

abbrev monday : Text
monday = text "2026-03-02"

abbrev tuesday : Text
tuesday = text "2026-03-03"

-- A calendar of two days: a timestamp without an offset is of the date it begins with, and a date's
-- range goes from the date before it to the second after it.
abbrev two_days : FactoryCalendar
two_days = record {
  local_timestamp = λ t. t;
  sort_key = λ t. t;
  local_date = λ t. if is_date_key (take 10 t) then some (take 10 t) else none;
  local_dates = λ start end_. if start == end_ then start ∷ [] else start ∷ end_ ∷ [];
  range_start = λ date. if date == monday then text "2026-03-01" else monday;
  range_end = λ date. if date == monday then text "2026-03-04" else text "2026-03-05";
  id_leb = λ s t. not (text_ltb t s);
}

keys :
    (is_date_key monday ≡ true)
    × (is_date_key tuesday ≡ true)
    × (is_date_key (text "2026-02-29") ≡ false)
    × (is_date_key (text "2028-02-29") ≡ true)
    × (is_date_key (text " 2026-03-0") ≡ false)
    × (is_date_key (text "2026-13-01") ≡ false)
unfolding is_date_key is_digit element
keys = (refl, refl, refl, refl, refl, refl)

text_order : IsOrder two_days.id_leb
text_order = record {
  total = λ s t. elim (Bool-cases (text_ltb t s)) [
    | inl e ↦ let other = text_ltb_asym t s e in inr (rw other refl)
    | inr e ↦ inl (rw e refl)
  ];
  trans = λ s t u h k. let le = text_leb_trans s t u (ground arith) (ground arith) in rw le refl;
}

two_days-IsCovered : IsCovered two_days monday tuesday records
unfolding text_ltb text_beq is_date_key is_digit element
two_days-IsCovered = record {
  id_order = text_order;
  dates_within = ((refl, refl, refl, refl, refl), ((refl, refl, refl, refl, refl), tt));
  scanned = (((λ h. (refl, refl)), tt), (((λ h. (refl, refl)), tt), tt));
}

-- The punch is of Monday. A range that goes back, and one from what is no date, are refused.
reads :
    (text_ltb tuesday monday ≡ false)
    × (list_effective_by_dates platform two_days monday tuesday records
        ≡ ok ((monday, punch_row platform two_days punch ∷ []) ∷ (tuesday, []) ∷ []))
    × (list_effective_by_dates platform two_days tuesday monday records ≡ err end_before_start)
    × (list_effective_by_dates platform two_days (text "today") monday records ≡ err bad_date_key)
unfolding text_ltb text_beq is_date_key is_digit element filter any list_active fraction digits
    additions insert_with sort_with apply_corrections list_effective_by_dates
reads = (refl, refl, refl, refl)

list_effective_by_dates_lem_example :
    (days : List (Text × List EffectiveRow)) × (list_effective_by_dates platform two_days monday
        tuesday records
      ≡ ok days)
    × (map (λ (date, rows). date) days ≡ two_days.local_dates monday tuesday)
    × All (λ (date, rows). list_effective platform two_days date none records ≡ ok rows) days
list_effective_by_dates_lem_example =
    list_effective_by_dates_lem platform two_days monday tuesday records keys.0 keys.1 reads.0
      two_days-IsCovered tt
