-- ===== src/Schedules/Tests.antt =====
-- Runs of the schedules, and their theorems at one schedule.
use fw_gatekeeper.Prelude.{true, false, Option, none, some, List, [], ◌∷◌, ◌≡◌, refl}
use fw_gatekeeper.Prelude.Lists.{find, filter, any, sort_by, insert_by}
use fw_gatekeeper.Prelude.Text.{
  Text, text, text_beq, text_ltb, trim, trim_start, is_space, is_digit,
}
use fw_gatekeeper.Prelude.Number.{JsNumber, finite, unit, safe_count}
use fw_gatekeeper.Prelude.Decimal.{show_nat, show_onto}
use fw_gatekeeper.Prelude.Result.{ok, err}
use fw_gatekeeper.Prelude.Table.{get_row, patch_row}
use fw_gatekeeper.Schema.{Schedule, admin, Db}
use fw_gatekeeper.Samples.{platform, session_of, operator_call, operator_account, records}
use fw_gatekeeper.Access.{
  before_bar, after_bar, has_current_session, assert_portal_member, assert_portal_role,
}
use fw_gatekeeper.Schedules.{
  Assignment, bad_times, is_time, is_supported_range, all_days, has_repeat, some_days, join_days,
  parse_days, schedule_days, validate_schedule, ScheduleArgs, add_schedule, change_schedule,
  remove_schedule, create, update, unique, department_tier, resolve_assignment,
}
use fw_gatekeeper.Schedules.Supported.{SchedulesAreValid, created, Change-IsValid}
use fw_gatekeeper.Schedules.Assigned.{MayHave, resolve_assignment-unique}

schedules : Unit {0}
unfolding get_row patch_row find filter any sort_by insert_by text_beq text_ltb trim trim_start
    is_space is_digit safe_count unit show_nat show_onto before_bar after_bar has_current_session
    assert_portal_member assert_portal_role is_time is_supported_range all_days has_repeat some_days
    join_days parse_days schedule_days validate_schedule add_schedule change_schedule
    remove_schedule create update resolve_assignment
schedules = tt

-- Every text spells the array of Monday.
abbrev monday : Text → Option (List (Option JsNumber))
monday t = some (some (finite false unit) ∷ [])

abbrev office : Db
office = record records { next_id = 100; members = record operator_account { role = admin } ∷ [] }

abbrev args : ScheduleArgs
args = record {
  name = text " Early ";
  days = text "[1]";
  start_time = text "06:00";
  end_time = text "14:30";
  department = some (text "Line 1");
}

abbrev early : Schedule
early = record {
  id = 100;
  name = text "Early";
  days = text "[1]";
  start_time = text "06:00";
  end_time = text "14:30";
  department = some (text "Line 1");
  active = true;
  created_at = 3000 ∷ [];
}

abbrev scheduled : Db
scheduled = record office { next_id = 101; schedules = early ∷ [] }

-- One that was removed, one without a department, and the first.
abbrev on_file : List Schedule
on_file =
    record early { id = 98; active = false }
    ∷ record early { id = 99; department = none }
    ∷ early
    ∷ []

runs :
    (create platform monday session_of args (operator_call 3000) office ≡ ok (100, scheduled))
    × (create platform monday session_of
          (record args { start_time = text "22:00"; end_time = text "06:00" })
          (operator_call 3000)
          office
        ≡ err bad_times)
    × (update platform monday session_of 100
          (record {
            name = none;
            days = none;
            start_time = some (text "15:00");
            end_time = none;
            department = none;
          })
          (operator_call 3000)
          scheduled
        ≡ err bad_times)
    × (resolve_assignment platform monday (some (text "Line 1 ")) on_file 1
        ≡ unique department_tier early)
    × (resolve_assignment platform monday
          (some (text "Line 1"))
          (record early { id = 102 } ∷ on_file)
          1
        ≡ Assignment.ambiguous department_tier (early ∷ record early { id = 102 } ∷ []))
unfolding schedules
runs = (refl, refl, refl, refl, refl)

Change-IsValid_example : SchedulesAreValid scheduled
Change-IsValid_example =
    Change-IsValid monday platform session_of (created args (operator_call 3000) 100 runs.0)
      (record { ids = record { below = tt; distinct = tt }; ranges = tt })

resolve_assignment-unique_example :
    MayHave platform monday (some (text "Line 1 ")) 1 on_file department_tier early
resolve_assignment-unique_example =
    resolve_assignment-unique platform monday (some (text "Line 1 ")) on_file 1 department_tier
      early runs.3
