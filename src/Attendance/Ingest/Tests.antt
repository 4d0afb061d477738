-- ===== src/Attendance/Ingest/Tests.antt =====
-- Runs of the ingestion of punches, and its theorems at concrete uploads.
use fw_gatekeeper.Prelude.{ℕ, true, false, none, some, List, [], ◌∷◌, ◌++◌, ◌≡◌, refl, arith}
use fw_gatekeeper.Prelude.Lists.{find, length, All}
use fw_gatekeeper.Prelude.Text.{text, text_beq, is_digit}
use fw_gatekeeper.Prelude.Result.{ok, err}
use fw_gatekeeper.Prelude.Table.{get_row, patch_row}
use fw_gatekeeper.Schema.{clock_in, clock_out, Db}
use fw_gatekeeper.Samples.{platform, staffed}
use fw_gatekeeper.Attendance.Ingest.{
  AttendanceEvent, key_reused, note_changed, unknown_worker, row_of, preserve_note, reuse_key,
  merge_punch, add_punch, store_punch, worker_exists, insert_event, insert_events, bulk_create,
  is_digest, validate_digests,
}
use fw_gatekeeper.Attendance.Ingest.Evidence.{AllKept}
use fw_gatekeeper.Attendance.Ingest.Retry.{insert_event_twice}
use fw_gatekeeper.Attendance.Ingest.Keys.{KeysUnique, insert_event-KeysUnique}
use fw_gatekeeper.Attendance.Ingest.Batch.{IngestIsValid, OnRecord}
use fw_gatekeeper.Attendance.Ingest.Receipts.{bulk_create_stores, bulk_create_twice}

ingest : Unit {0}
unfolding insert_event insert_events bulk_create store_punch reuse_key merge_punch add_punch
    preserve_note worker_exists get_row patch_row find text_beq validate_digests is_digest is_digit
ingest = tt

-- A keyless punch of an old client, and the same punch with a key and a note.
abbrev legacy : AttendanceEvent
legacy = record {
  worker_id = text "a";
  event_type = clock_in;
  timestamp = text "2026-03-02T07:58:00";
  kiosk_id = some (text "kiosk-entry-1");
  idempotency_key = none;
  worker_name = none;
  confidence = none;
  liveness_confirmed = none;
  note = none;
}

abbrev modern : AttendanceEvent
modern = record legacy { idempotency_key = some (text "k1"); note = some (text "badge lost") }

abbrev exit_punch : AttendanceEvent
exit_punch = record modern {
  event_type = clock_out;
  timestamp = text "2026-03-02T16:02:00";
  idempotency_key = some (text "k2");
}

abbrev after_legacy : Db
after_legacy = record staffed { next_id = 99; attendance = row_of 98 legacy ∷ [] }

abbrev after_modern : Db
after_modern = record after_legacy {
  attendance =
      record (row_of 98 legacy) {
        note = some (text "badge lost");
        idempotency_key = some (text "k1");
      }
      ∷ [];
}

-- The keyed upload of a punch that is there without a key is the same punch.
legacy_then_modern :
    (insert_event platform legacy staffed ≡ ok (record { id = 98; inserted = true }, after_legacy))
    × (insert_event platform modern after_legacy
        ≡ ok (record { id = 98; inserted = false }, after_modern))
unfolding ingest
legacy_then_modern = (refl, refl)

-- A key does not serve for other evidence, nor a retry for another note, nor a text for a worker.
rejections :
    (insert_event platform (record exit_punch { idempotency_key = some (text "k1") }) after_modern
      ≡ err key_reused)
    × (insert_event platform (record modern { note = some (text "other") }) after_modern
        ≡ err note_changed)
    × (insert_event platform (record modern { worker_id = text "zz" }) staffed ≡ err unknown_worker)
unfolding ingest
rejections = (refl, refl, refl)

valid_legacy : IngestIsValid after_legacy
unfolding find
valid_legacy = record {
  ids = record { below = (omega arith, tt); distinct = (tt, tt) };
  keys = (λ t. refl, tt);
}

insert_event_twice_example :
    insert_event platform modern after_modern
    ≡ ok (record { id = 98; inserted = false }, after_modern)
insert_event_twice_example =
    insert_event_twice platform modern after_legacy (record { id = 98; inserted = false })
      after_modern valid_legacy.ids legacy_then_modern.1

insert_event-KeysUnique_example : KeysUnique after_modern.attendance
insert_event-KeysUnique_example =
    insert_event-KeysUnique platform modern after_legacy (record { id = 98; inserted = false })
      after_modern valid_legacy.ids valid_legacy.keys legacy_then_modern.1

abbrev after_both : Db
after_both = record after_modern {
  next_id = 100;
  attendance = after_modern.attendance ++ row_of 99 exit_punch ∷ [];
}

abbrev upload : List AttendanceEvent
upload = modern ∷ exit_punch ∷ []

upload_runs :
    (insert_events platform upload after_legacy ≡ ok (1, after_both))
    × (bulk_create platform upload none after_legacy
        ≡ ok (record { synced = 1; acknowledged = 2 }, after_both))
unfolding ingest
upload_runs = (refl, refl)

bulk_create_stores_example :
    ◌≡◌ {A = ℕ} 2 (length upload)
    × All (OnRecord after_both.attendance) upload
    × AllKept after_legacy.attendance after_both.attendance
    × IngestIsValid after_both
bulk_create_stores_example =
    bulk_create_stores platform upload after_legacy (record { synced = 1; acknowledged = 2 })
      after_both valid_legacy upload_runs.1

bulk_create_twice_example :
    bulk_create platform upload none after_both
    ≡ ok (record { synced = 0; acknowledged = 2 }, after_both)
bulk_create_twice_example =
    bulk_create_twice platform upload none after_legacy (record { synced = 1; acknowledged = 2 })
      after_both valid_legacy upload_runs.1
