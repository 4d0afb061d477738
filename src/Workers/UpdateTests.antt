-- ===== src/Workers/UpdateTests.antt =====
-- Runs of the update of a worker, and its theorem at an update that sends the name again.
use fw_gatekeeper.Prelude.{true, none, some, [], ◌∷◌, ◌++◌, ◌≡◌, ◌⊎◌, refl}
use fw_gatekeeper.Prelude.Lists.{find, filter}
use fw_gatekeeper.Prelude.Text.{text, text_beq, trim, trim_start, is_space}
use fw_gatekeeper.Prelude.Result.{ok, err}
use fw_gatekeeper.Prelude.Table.{get_row, patch_row}
use fw_gatekeeper.Schema.{Worker, worker_row, Db}
use fw_gatekeeper.Samples.{platform, operator_account, records, ann}
use fw_gatekeeper.Roster.Sequence.{advance, take_sequence, write_worker}
use fw_gatekeeper.Workers.Photos.{unique_onto, consume_each, consume_photos}
use fw_gatekeeper.Workers.Identity.{
  admins_only, identity_conflict, collapse, read_identities, find_by_name, find_by_employee_id,
  normalize_name, normalize_department, normalize_employee_id,
}
use fw_gatekeeper.Workers.Rows.{Enrolment}
use fw_gatekeeper.Workers.Update.{
  WorkerUpdate, changes_identity, alters_identity, check_name, check_employee_id, identity_revision,
  may_update, update_after, update_worker,
}
use fw_gatekeeper.Workers.Edits.{enrollment_keeps_identity}

abbrev enrolment : Enrolment
enrolment = record {
  is_supported = λ e. true;
  is_recent = λ t now. true;
  directory = λ t. none;
  quote = λ t. 34 ∷ t ++ 34 ∷ [];
}

abbrev roster_of_one : Db
roster_of_one = record records {
  roster_counter = some (record { value = some 4; last_purge_sequence = none });
  workers = ann ∷ [];
}

abbrev same_name : WorkerUpdate
same_name = record {
  expected_identity_revision = none;
  name = some (text " Ann");
  employee_id = none;
  department = some (text "Line 1 ");
  face_encoding = none;
  photo_storage_ids = none;
  enrolled_at = none;
  consent_at = none;
}

abbrev written_again : Db
written_again = record roster_of_one {
  roster_counter = some (record { value = some 5; last_purge_sequence = none });
  workers = record ann { updated_at = some (3000 ∷ []); roster_sequence = some 5 } ∷ [];
}

edits :
    (update_worker platform enrolment 97 same_name operator_account 3000 roster_of_one
      ≡ ok written_again)
    × (update_worker platform enrolment 97
          (record same_name { name = some (text "Anna") })
          operator_account
          3000
          roster_of_one
        ≡ err admins_only)
    × (update_worker platform enrolment 97
          (record same_name { photo_storage_ids = some [] })
          operator_account
          3000
          roster_of_one
        ≡ err identity_conflict)
    × (get_row 97 roster_of_one.workers ≡ some ann)
unfolding get_row patch_row find filter text_beq trim trim_start is_space advance take_sequence
    write_worker unique_onto consume_each consume_photos collapse read_identities find_by_name
    find_by_employee_id changes_identity alters_identity check_name check_employee_id
    identity_revision may_update update_after update_worker
edits = (refl, refl, refl, refl)

enrollment_keeps_identity_example :
    (x : Worker) × (get_row 97 written_again.workers ≡ some x)
    × ((x.name ≡ ann.name) ⊎ (x.name ≡ normalize_name ann.name))
    × ((x.employee_id ≡ ann.employee_id)
        ⊎ (x.employee_id ≡ normalize_employee_id platform ann.employee_id))
    × ((x.department ≡ ann.department)
        ⊎ (x.department ≡ normalize_department (some ann.department)))
enrollment_keeps_identity_example =
    enrollment_keeps_identity platform enrolment 97 same_name operator_account 3000 ann
      roster_of_one written_again refl edits.3 edits.0
