-- ===== src/Workers/Tests.antt =====
-- Runs of the handlers of workers, and their theorems at a purge.
use fw_gatekeeper.Prelude.{true, false, none, some, [], ◌∷◌, ◌++◌, ◌≡◌, refl, arith}
use fw_gatekeeper.Prelude.Lists.{find, filter, any, All}
use fw_gatekeeper.Prelude.Text.{text, text_beq, trim, trim_start, is_space}
use fw_gatekeeper.Prelude.Decimal.{show_nat, show_onto}
use fw_gatekeeper.Prelude.Result.{ok, err}
use fw_gatekeeper.Prelude.Table.{get_row, patch_row, delete_row}
use fw_gatekeeper.Schema.{Worker, worker_row, Kiosk, admin, Db}
use fw_gatekeeper.Samples.{
  platform, session_of, operator_call, operator_account, records, ann, gate,
}
use fw_gatekeeper.Access.{
  before_bar, after_bar, has_current_session, assert_portal_member, assert_portal_role,
}
use fw_gatekeeper.Roster.Sequence.{last_purge, advance, take_sequence, write_worker, insert_worker}
use fw_gatekeeper.Roster.Receipts.{purge_pending}
use fw_gatekeeper.Roster.Invariant.{RosterIsValid}
use fw_gatekeeper.Workers.Photos.{
  has_id, unique_onto, delete_file, delete_files, consume_photo, consume_each, consume_photos,
  photos_of_others, delete_replaced,
}
use fw_gatekeeper.Workers.Identity.{
  name_taken, collapse, read_identities, find_by_name, find_by_employee_id,
}
use fw_gatekeeper.Workers.Rows.{Enrolment, WorkerArgs}
use fw_gatekeeper.Workers.Handlers.{
  restore_worker, add_worker, create_worker, create, deactivate_worker, remove_worker, remove,
  purge_worker, purge_biometrics, sequence_each, backfill,
}
use fw_gatekeeper.Workers.Erasure.{purge_biometrics_erases}
use fw_gatekeeper.Kiosks.Fleet.{fleet, list_kiosks}
use fw_gatekeeper.Workers.Shown.{ShowsPending, purge_biometrics_shown}
use fw_gatekeeper.Workers.Files.{purge_biometrics_deletes_files}

workers : Unit {0}
unfolding get_row patch_row delete_row find filter any text_beq trim trim_start is_space show_nat
    show_onto before_bar after_bar has_current_session assert_portal_member assert_portal_role
    advance take_sequence write_worker insert_worker unique_onto delete_file delete_files
    consume_photo consume_each consume_photos photos_of_others delete_replaced collapse
    read_identities find_by_name find_by_employee_id restore_worker add_worker create_worker create
    deactivate_worker remove_worker remove purge_worker purge_biometrics sequence_each backfill
    purge_pending
workers = tt

abbrev enrolment : Enrolment
enrolment = record {
  is_supported = λ e. true;
  is_recent = λ t now. true;
  directory = λ t. none;
  quote = λ t. 34 ∷ t ++ 34 ∷ [];
}

-- Ann has two photos, 71 and 72; Bob has 72 too, and no sequence yet.
abbrev site : Db
site = record records {
  next_id = 100;
  members = record operator_account { role = admin } ∷ [];
  roster_counter = some (record { value = some 4; last_purge_sequence = none });
  workers =
      record ann { photo_storage_ids = some (71 ∷ 72 ∷ []) }
      ∷ record ann {
        id = 99;
        name = text "Bob";
        employee_id = none;
        photo_storage_ids = some (72 ∷ []);
        roster_sequence = none;
      }
      ∷ [];
  kiosks = gate ∷ [];
  storage = 71 ∷ 72 ∷ [];
}

abbrev purged_site : Db
purged_site = record site {
  roster_counter = some (record { value = some 5; last_purge_sequence = some 5 });
  workers =
      record ann {
        face_encoding = none;
        photo_storage_ids = none;
        active = false;
        updated_at = some (3000 ∷ []);
        biometrics_purged_at = some (3000 ∷ []);
        roster_sequence = some 5;
      }
      ∷ record ann {
        id = 99;
        name = text "Bob";
        employee_id = none;
        photo_storage_ids = some (72 ∷ []);
        roster_sequence = none;
      }
      ∷ [];
  storage = 72 ∷ [];
  audit_log =
      record {
        actor_user_id = 66;
        action = text "workers.purgeBiometrics";
        target_table = text "workers";
        target_id = 97;
        reason = some (text "left");
        details = some (
            text
              "{\"name\":\"Ann\",\"employeeId\":\"E1\",\"hadFaceEncoding\":false,\"photosDeleted\":1,\"wasActive\":true}");
        created_at = 3000 ∷ [];
      }
      ∷ [];
}

abbrev newcomer : WorkerArgs
newcomer = record {
  name = text " Cy  Dee ";
  employee_id = some (text "E3");
  department = some (text "Line 2");
  face_encoding = [];
  photo_storage_ids = none;
  consent_at = none;
}

runs :
    (purge_biometrics platform enrolment session_of 97 (text " left ") (operator_call 3000) site
      ≡ ok (1, purged_site))
    × (create platform enrolment session_of
          (record newcomer { name = text "ann " })
          (operator_call 3000)
          (record site { workers = record ann { name = text "ann" } ∷ [] })
        ≡ err name_taken)
    × (get_row 97 site.workers ≡ some (record ann { photo_storage_ids = some (71 ∷ 72 ∷ []) }))
    × (has_id (71 ∷ 72 ∷ []) 71 ≡ true)
    × (has_id (photos_of_others 97 site.workers) 71 ≡ false)
unfolding workers
runs = (refl, refl, refl, refl, refl)

site-IsValid : RosterIsValid site
site-IsValid = record {
  workers = (omega arith, (tt, tt));
  kiosks = ((tt, tt), tt);
  receipts = tt;
  purge = tt;
}

purge_biometrics_erases_example :
    ((x : Worker) × (get_row 97 purged_site.workers ≡ some x)
      × (x.face_encoding ≡ none)
      × (x.photo_storage_ids ≡ none)
      × (x.active ≡ false))
    × All (λ (x : Kiosk). purge_pending (last_purge purged_site) x ≡ true) purged_site.kiosks
purge_biometrics_erases_example =
    purge_biometrics_erases platform enrolment session_of 97 (text " left ") (operator_call 3000)
      site 1 purged_site site-IsValid runs.0

purge_biometrics_deletes_files_example : has_id purged_site.storage 71 ≡ false
purge_biometrics_deletes_files_example =
    purge_biometrics_deletes_files platform enrolment session_of 97 (text " left ")
      (operator_call 3000) site 1 purged_site
      (record ann { photo_storage_ids = some (71 ∷ 72 ∷ []) }) 71 runs.2 runs.3 runs.4 runs.0

lists : list_kiosks platform session_of (operator_call 4000) purged_site ≡ ok (fleet purged_site)
unfolding list_kiosks workers
lists = refl

purge_biometrics_shown_example : ShowsPending purged_site.kiosks (fleet purged_site)
purge_biometrics_shown_example =
    purge_biometrics_shown platform enrolment session_of 97 (text " left ") (operator_call 3000)
      site 1 purged_site (operator_call 4000) (fleet purged_site) site-IsValid runs.0 lists
