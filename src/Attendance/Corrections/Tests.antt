-- ===== src/Attendance/Corrections/Tests.antt =====
-- Runs of `create`, and its theorems at a punch that is voided.
use fw_gatekeeper.Prelude.{some, [], ◌∷◌, ◌≡◌, refl}
use fw_gatekeeper.Prelude.Lists.{find, filter, any}
use fw_gatekeeper.Prelude.Text.{text, text_beq, trim, trim_start, is_space}
use fw_gatekeeper.Prelude.Result.{ok, err}
use fw_gatekeeper.Prelude.Table.{get_row}
use fw_gatekeeper.Schema.{Db}
use fw_gatekeeper.Samples.{
  platform, session_of, operator_call, records, operator_account, evidences, void_args,
}
use fw_gatekeeper.Access.{
  before_bar, after_bar, has_current_session, assert_portal_member, assert_portal_role,
}
use fw_gatekeeper.Attendance.Corrections.{
  CorrectionAnswer, correction_row_of, no_active_void, check_void, check_addition,
  commit_correction, create_for, create, operator, active_void, request_id_reused,
}
use fw_gatekeeper.Attendance.Corrections.Replay.{create_twice}

corrections : Unit {0}
unfolding get_row find filter any text_beq trim trim_start is_space before_bar after_bar
    has_current_session assert_portal_member assert_portal_role no_active_void check_void
    check_addition commit_correction create_for create
corrections = tt

abbrev void_answer : CorrectionAnswer
void_answer = record { id = 98; created_at = 3000 ∷ [] }

abbrev voided_records : Db
voided_records = record records {
  next_id = 99;
  corrections =
      correction_row_of platform evidences 98 (3000 ∷ []) 66 (text "scanned twice") void_args ∷ [];
}

-- A void; a second one is refused, and so is its request id for other details.
void_runs :
    (create platform evidences session_of void_args (operator_call 3000) records
      ≡ ok (void_answer, voided_records))
    × (create platform evidences session_of
          (record void_args { request_id = some (text "r2") })
          (operator_call 3000)
          voided_records
        ≡ err active_void)
    × (create platform evidences session_of
          (record void_args { reason = text "other" })
          (operator_call 3000)
          voided_records
        ≡ err request_id_reused)
    × (operator platform evidences session_of (operator_call 4000) voided_records
        ≡ ok operator_account)
unfolding corrections
void_runs = (refl, refl, refl, refl)

create_twice_example :
    create platform evidences session_of void_args (operator_call 4000) voided_records
    ≡ ok (void_answer, voided_records)
create_twice_example =
    create_twice platform evidences session_of void_args (text "r1") (operator_call 3000)
      (operator_call 4000) operator_account records void_answer voided_records refl void_runs.0
      void_runs.3
