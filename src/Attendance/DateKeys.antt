-- ===== src/Attendance/DateKeys.antt =====
-- convex/localDate.ts: `isValidFactoryLocalDateKey`, the test of a date key.
use fw_gatekeeper.Prelude.{ℕ, ◌+◌, ◌-◌, ◌*◌, ◌%◌, Bool, false, ◌&&◌, ◌||◌, List, [], ◌∷◌}
use fw_gatekeeper.Prelude.Tests.{ltb, leb, if◌then◌else◌, ◌==◌, ◌!=◌, nat_eq}
use fw_gatekeeper.Prelude.Text.{Text, is_digit}

-- `isLeapYear`.
abbrev is_leap_year : ℕ → Bool
is_leap_year year = year % 4 == 0 && (year % 100 != 0 || year % 400 == 0)

-- `DAYS_BY_MONTH`, from January on.
abbrev days_by_month : List ℕ
days_by_month = 31 ∷ 28 ∷ 31 ∷ 30 ∷ 31 ∷ 30 ∷ 31 ∷ 31 ∷ 30 ∷ 31 ∷ 30 ∷ 31 ∷ []

-- The element at an index, 0 beyond the list.
unfoldable pub element : ℕ → List ℕ → ℕ
element n [] = 0
element n (x ∷ xs) = let rest = element (n - 1) xs in if n == 0 then x else rest

-- A month from 1 to 12, and a day of it.
abbrev is_day : ℕ → ℕ → ℕ → Bool
is_day year month day =
    if ltb month 1 || ltb 12 month || ltb day 1
    then false
    else leb day (if month == 2 && is_leap_year year then 29 else element (month - 1) days_by_month)

abbrev digit : ℕ → ℕ
digit c = c - b'0'

-- `isValidFactoryLocalDateKey`: four digits, two and two, with a dash between them, that are a date.
unfoldable pub is_date_key : Text → Bool
is_date_key (y1 ∷ y2 ∷ y3 ∷ y4 ∷ dash1 ∷ m1 ∷ m2 ∷ dash2 ∷ d1 ∷ d2 ∷ []) =
    is_digit y1
    && is_digit y2
    && is_digit y3
    && is_digit y4
    && dash1 == b'-'
    && is_digit m1
    && is_digit m2
    && dash2 == b'-'
    && is_digit d1
    && is_digit d2
    && is_day (1000 * digit y1 + 100 * digit y2 + 10 * digit y3 + digit y4)
        (10 * digit m1 + digit m2) (10 * digit d1 + digit d2)
is_date_key _ = false
