-- ===== src/Attendance/Reversals/Tests.antt =====
-- Runs of `reverse`, and the theorems on both handlers, and on the effective attendance, at a void
-- that is reversed.
use fw_gatekeeper.Prelude.{true, none, some, [], ◌∷◌, ◌≡◌, refl}
use fw_gatekeeper.Prelude.Lists.{find, filter, any}
use fw_gatekeeper.Prelude.Text.{text, text_beq, text_ltb, is_digit, trim, trim_start, is_space}
use fw_gatekeeper.Prelude.Order.{insert_with, sort_with}
use fw_gatekeeper.Prelude.Result.{ok, err}
use fw_gatekeeper.Prelude.Table.{get_row}
use fw_gatekeeper.Schema.{Db}
use fw_gatekeeper.Samples.{
  platform, session_of, operator_call, operator_account, records, punch, evidences, void_args,
}
use fw_gatekeeper.Access.{
  before_bar, after_bar, has_current_session, assert_portal_member, assert_portal_role,
}
use fw_gatekeeper.Attendance.Corrections.{
  CorrectionAnswer, correction_row_of, no_active_void, check_void, check_addition,
  commit_correction, create_for, create, operator, already_reversed,
}
use fw_gatekeeper.Attendance.Reversals.{
  ReversalArgs, reversal_row_of, commit_reversal, reverse_for, reverse, created, reversed, Changes,
  unchanged, more,
}
use fw_gatekeeper.Attendance.DateKeys.{element, is_date_key}
use fw_gatekeeper.Attendance.Effective.{
  FactoryCalendar, digits, fraction, list_active, additions, list_attendance, apply_corrections,
  list_effective, punch_row,
}
use fw_gatekeeper.Attendance.Effective.Undone.{reverse-list_effective}
use fw_gatekeeper.Attendance.Reversals.Single.{CorrectionsAreValid, Changes-IsValid}
use fw_gatekeeper.Attendance.Reversals.Again.{reverse_twice}

reversals : Unit {0}
unfolding get_row find filter any text_beq trim trim_start is_space before_bar after_bar
    has_current_session assert_portal_member assert_portal_role no_active_void check_void
    check_addition commit_correction create_for create commit_reversal reverse_for reverse
reversals = tt

abbrev void_answer : CorrectionAnswer
void_answer = record { id = 98; created_at = 3000 ∷ [] }

abbrev voided_records : Db
voided_records = record records {
  next_id = 99;
  corrections =
      correction_row_of platform evidences 98 (3000 ∷ []) 66 (text "scanned twice") void_args ∷ [];
}

abbrev undo : ReversalArgs
undo = record { correction_id = 98; request_id = text "u1"; reason = text "was right" }

abbrev undo_answer : CorrectionAnswer
undo_answer = record { id = 99; created_at = 3500 ∷ [] }

abbrev undone_records : Db
undone_records = record voided_records {
  next_id = 100;
  reversals =
      reversal_row_of 99 (3500 ∷ []) 66 (text "was right") (text "u1")
        (correction_row_of platform evidences 98 (3000 ∷ []) 66 (text "scanned twice") void_args)
      ∷ [];
}

-- The punch may be voided again once its void is reversed, but no reversal is made twice.
runs :
    (create platform evidences session_of void_args (operator_call 3000) records
      ≡ ok (void_answer, voided_records))
    × (reverse platform evidences session_of undo (operator_call 3500) voided_records
        ≡ ok (undo_answer, undone_records))
    × (reverse platform evidences session_of
          (record undo { request_id = text "u2" })
          (operator_call 3500)
          undone_records
        ≡ err already_reversed)
    × (operator platform evidences session_of (operator_call 4000) undone_records
        ≡ ok operator_account)
unfolding reversals
runs = (refl, refl, refl, refl)

both_handlers : Changes platform evidences session_of records undone_records
both_handlers =
    more (more unchanged (created void_args (operator_call 3000) void_answer runs.0))
      (reversed undo (operator_call 3500) undo_answer runs.1)

Changes-IsValid_example : CorrectionsAreValid undone_records
Changes-IsValid_example =
    Changes-IsValid platform evidences session_of both_handlers
      (record { one_reversal = tt; single_void = tt })

reverse_twice_example :
    reverse platform evidences session_of undo (operator_call 4000) undone_records
    ≡ ok (undo_answer, undone_records)
reverse_twice_example =
    reverse_twice platform evidences session_of undo (operator_call 3500) (operator_call 4000)
      operator_account voided_records undo_answer undone_records runs.1 runs.3

-- A calendar of one day, on which a timestamp is its own key.
abbrev one_day : FactoryCalendar
one_day = record {
  local_timestamp = λ t. t;
  sort_key = λ t. t;
  local_date = λ t. some (text "2026-03-02");
  local_dates = λ start end_. start ∷ [];
  range_start = λ date. [];
  range_end = λ date. text "~";
  id_leb = λ s t. true;
}

-- A punch that is voided is not effective, and is so again when the void is reversed.
effective_runs :
    (list_effective platform one_day (text "2026-03-02") none records
      ≡ ok (punch_row platform one_day punch ∷ []))
    × (list_effective platform one_day (text "2026-03-02") none voided_records ≡ ok [])
unfolding list_effective list_attendance apply_corrections additions list_active sort_with
    insert_with filter any text_beq text_ltb fraction digits is_digit is_date_key element
effective_runs = (refl, refl)

reverse-list_effective_example :
    list_effective platform one_day (text "2026-03-02") none undone_records
    ≡ list_effective platform one_day (text "2026-03-02") none records
unfolding filter
reverse-list_effective_example =
    reverse-list_effective platform evidences session_of one_day void_args undo (operator_call 3000)
      (operator_call 3500) records voided_records undone_records void_answer undo_answer
      (text "2026-03-02") none tt tt refl runs.0 refl runs.1
