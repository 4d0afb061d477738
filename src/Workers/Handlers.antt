-- ===== src/Workers/Handlers.antt =====
-- convex/workers.ts: enrolment, deactivation, the purge of biometric data, and the backfill of
-- roster sequences.
use fw_gatekeeper.Prelude.{ℕ, suc, Bool, true, false, Option, none, some, List, [], ◌∷◌, ◌++◌}
use fw_gatekeeper.Prelude.Tests.{ltb, leb, if◌then◌else◌, nat_eq}
use fw_gatekeeper.Prelude.Lists.{take, filter, length}
use fw_gatekeeper.Prelude.Text.{Text, text, trim}
use fw_gatekeeper.Prelude.Decimal.{show_nat}
use fw_gatekeeper.Prelude.Result.{Result, ok, err, ◌>>=◌, ◌>>◌, require, refuse, present}
use fw_gatekeeper.Prelude.Table.{get_row}
use fw_gatekeeper.Schema.{
  Worker, worker_row, PersonKind, PortalMember, Role, admin, enrollment, Db, Platform,
}
use fw_gatekeeper.Access.{Caller, assert_portal_role}
use fw_gatekeeper.Roster.Sequence.{RosterError, write_worker, insert_worker}
use fw_gatekeeper.Roster.Sync.{is_unsequenced}
use fw_gatekeeper.Workers.Photos.{consume_photos, delete_replaced}
use fw_gatekeeper.Workers.Identity.{
  WorkerError, denied, name_required, bad_encoding, stale_consent, photo_limit, not_in_directory,
  name_taken, employee_id_taken, worker_missing, reason_required, normalize_name,
  normalize_department, normalize_employee_id, read_identities, find_by_name, find_by_employee_id,
}
use fw_gatekeeper.Workers.Rows.{
  Enrolment, WorkerAnswer, WorkerArgs, audit_worker, blank_worker, deactivated_fields,
  enrolled_fields, is_active_worker, photo_part, photos_of, purged_fields, roster_part, too_many,
}

module _ (p : Platform) (e : Enrolment) where
  abbrev quote_or_null : Option Text → Text
  quote_or_null none = text "null"
  quote_or_null (some t) = e.quote t

  abbrev show_bool : Bool → Text
  show_bool b = if b then text "true" else text "false"

  abbrev pub consent_details : Option Text → Text
  consent_details none = text "{}"
  consent_details (some t) = text "{\"consentAt\":" ++ e.quote t ++ text "}"

  -- The worker restored by a matching employee id.
  unfoldable pub restore_worker :
      Worker
      → Text
      → Option Text
      → Text
      → WorkerArgs
      → ℕ
      → Text
      → Db
      → Result WorkerError (WorkerAnswer × Db)
  restore_worker w name employee_id department a actor now db = do
    (count, db1) ← photo_part (delete_replaced w.id w.photo_storage_ids a.photo_storage_ids db)
    db2 ←
        roster_part
          (write_worker (enrolled_fields name employee_id department a actor now) w.id false db1)
    ok (
      record { id = w.id; name = name; employee_id = employee_id; department = department },
      audit_worker actor (text "workers.enroll") w.id none (consent_details a.consent_at) now db2,
    )

  -- A new worker, and the alert on it.
  unfoldable pub add_worker :
      Text → Option Text → Text → WorkerArgs → ℕ → ℕ → Db → Result WorkerError (WorkerAnswer × Db)
  add_worker name employee_id department a actor now db = do
    (id, db1) ← roster_part (
        insert_worker (enrolled_fields name employee_id department a actor (p.iso now) blank_worker)
          now db)
    let db2 =
        audit_worker actor (text "workers.enroll") id none (consent_details a.consent_at)
          (p.iso now) db1
    ok (
      record { id = id; name = name; employee_id = employee_id; department = department },
      record db2 {
        next_id = suc db2.next_id;
        alert_events =
            db2.alert_events
            ++ record {
              id = db2.next_id;
              kind = PersonKind.worker;
              target_id = id;
              label = name;
              detail = some department;
              created_at = p.iso now;
              delivered = false;
              delivered_at = none;
              claimed_until = none;
            }
              ∷ [];
      },
    )

  abbrev enrol_as :
      Option Worker
      → Text
      → Option Text
      → Text
      → WorkerArgs
      → ℕ
      → ℕ
      → Db
      → Result WorkerError (WorkerAnswer × Db)
  enrol_as none name employee_id department a actor now db =
      add_worker name employee_id department a actor now db
  enrol_as (some w) name employee_id department a actor now db =
      restore_worker w name employee_id department a actor (p.iso now) db

  -- `createWorker`; what it schedules is a run of the alerts' delivery.
  unfoldable pub create_worker : WorkerArgs → ℕ → ℕ → Db → Result WorkerError (WorkerAnswer × Db)
  create_worker a actor now db = do
    let name = normalize_name a.name
    require (ltb 0 (length name)) name_required
    require (e.is_supported a.face_encoding) bad_encoding
    require (e.is_recent a.consent_at now) stale_consent
    refuse (too_many a.photo_storage_ids) photo_limit
    let employee_id = normalize_employee_id p a.employee_id
    identities ← read_identities db
    same_id ← find_by_employee_id p employee_id true identities
    refuse (is_active_worker (find_by_name p name identities)) name_taken
    refuse (is_active_worker same_id) employee_id_taken
    db1 ← photo_part (consume_photos a.photo_storage_ids actor (photos_of same_id) now db)
    enrol_as same_id name employee_id (normalize_department a.department) a actor now db1

  unfoldable pub deactivate_worker : Worker → ℕ → ℕ → Text → Db → Result WorkerError Db
  deactivate_worker w id actor now db = do
    db1 ← roster_part (write_worker (deactivated_fields now) id false db)
    ok (
        audit_worker actor (text "workers.remove") id none
          (text "{\"name\":"
            ++ e.quote w.name
            ++ text ",\"employeeId\":"
            ++ quote_or_null w.employee_id
            ++ text "}")
          now db1)

  -- `remove` for an administrator who may.
  unfoldable pub remove_worker : ℕ → ℕ → ℕ → Db → Result WorkerError Db
  remove_worker id actor now db = do
    w ← present (get_row id db.workers) worker_missing
    (if w.active then deactivate_worker w id actor (p.iso now) db else ok db)

  abbrev purge_details : Worker → ℕ → Text
  purge_details w count =
      text "{\"name\":"
      ++ e.quote w.name
      ++ text ",\"employeeId\":"
      ++ quote_or_null w.employee_id
      ++ text ",\"hadFaceEncoding\":"
      ++ show_bool (elim w.face_encoding [ none ↦ false | some x ↦ true ])
      ++ text ",\"photosDeleted\":"
      ++ show_nat count
      ++ text ",\"wasActive\":"
      ++ show_bool w.active
      ++ text "}"

  -- `purgeBiometrics` for an administrator who may: the photos deleted, and the store.
  unfoldable pub purge_worker : ℕ → Text → ℕ → ℕ → Db → Result WorkerError (ℕ × Db)
  purge_worker id reason actor now db = do
    require (ltb 0 (length (trim reason))) reason_required
    w ← present (get_row id db.workers) worker_missing
    (count, db1) ← photo_part (delete_replaced w.id w.photo_storage_ids none db)
    db2 ← roster_part (write_worker (purged_fields (p.iso now)) id true db1)
    ok (
      count,
      audit_worker actor (text "workers.purgeBiometrics") id (some (trim reason))
          (purge_details w count) (p.iso now) db2,
    )

  module _ (session_id_of : Text → Option ℕ) where
    abbrev pub staff : List Role → Caller → Db → Result WorkerError PortalMember
    staff roles c db = elim (assert_portal_role p session_id_of roles c db) [
      | ok m ↦ ok m
      | err bad ↦ err (denied bad)
    ]

    -- `create`.
    unfoldable pub create : WorkerArgs → Caller → Db → Result WorkerError (WorkerAnswer × Db)
    create a c db = do m ← staff (admin ∷ []) c db; create_worker a m.user_id c.now db

    -- `createFromRoster`; `a` gives all but the name and the department, which the directory has.
    unfoldable pub create_from_roster :
        Text → WorkerArgs → Caller → Db → Result WorkerError (WorkerAnswer × Db)
    create_from_roster employee_id a c db = do
      m ← staff (admin ∷ enrollment ∷ []) c db
      entry ← present (e.directory employee_id) not_in_directory
      create_worker
          (record a {
            name = entry.name;
            employee_id = some entry.employee_id;
            department = some entry.department;
          })
          m.user_id c.now db

    unfoldable pub remove : ℕ → Caller → Db → Result WorkerError Db
    remove id c db = do m ← staff (admin ∷ []) c db; remove_worker id m.user_id c.now db

    unfoldable pub purge_biometrics : ℕ → Text → Caller → Db → Result WorkerError (ℕ × Db)
    purge_biometrics id reason c db = do
      m ← staff (admin ∷ []) c db
      purge_worker id reason m.user_id c.now db

abbrev pub batch_size : ℕ
batch_size = 100

abbrev unchanged_fields : Worker → Worker
unchanged_fields w = w

-- The loop of `backfillRosterSequences`.
unfoldable pub sequence_each : List Worker → Db → Result RosterError Db
sequence_each [] db = ok db
sequence_each (w ∷ ws) db = do
  db1 ← write_worker unchanged_fields w.id false db
  sequence_each ws db1

-- `backfillRosterSequences`: the number migrated, and whether no more are left.
unfoldable pub backfill : Db → Result RosterError ((ℕ × Bool) × Db)
backfill db = do
  let workers = take (suc batch_size) (filter is_unsequenced db.workers)
  db1 ← sequence_each (take batch_size workers) db
  ok ((length (take batch_size workers), leb (length workers) batch_size), db1)
