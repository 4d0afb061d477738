-- ===== src/Workers/Update.antt =====
-- convex/workers.ts: the update of an active worker. src/lib/worker-revision.ts: the revision of an
-- identity, by which two edits at once are told.
use fw_gatekeeper.Prelude.{
  ℕ, Bool, true, false, not, ◌&&◌, ◌||◌, Option, none, some, List, [], ◌∷◌, ◌++◌,
}
use fw_gatekeeper.Prelude.Tests.{ltb, if◌then◌else◌, ◌==◌, ◌!=◌, nat_eq, option_eq}
use fw_gatekeeper.Prelude.Lists.{length}
use fw_gatekeeper.Prelude.Text.{Text, text, text_eq, trim}
use fw_gatekeeper.Prelude.Number.{JsNumber}
use fw_gatekeeper.Prelude.Result.{Result, ok, ◌>>=◌, ◌>>◌, require, refuse, present}
use fw_gatekeeper.Prelude.Table.{get_row}
use fw_gatekeeper.Schema.{
  Worker, worker_row, PortalMember, role_eq, admin, enrollment, Db, Platform,
}
use fw_gatekeeper.Access.{Caller}
use fw_gatekeeper.Roster.Sequence.{write_worker}
use fw_gatekeeper.Workers.Photos.{consume_photos, delete_replaced}
use fw_gatekeeper.Workers.Identity.{
  WorkerError, name_required, bad_encoding, stale_consent, photo_limit, name_taken, inactive_worker,
  admins_only, identity_conflict, employee_id_of_another, normalize_name, normalize_department,
  normalize_employee_id, read_identities, find_by_name, find_by_employee_id,
}
use fw_gatekeeper.Workers.Rows.{Enrolment, roster_part, photo_part, too_many, audit_worker}
use fw_gatekeeper.Workers.Handlers.{consent_details, staff}

pub record WorkerUpdate : Type 0 where
  pub expected_identity_revision : Option Text
  pub name : Option Text
  pub employee_id : Option Text
  pub department : Option Text
  pub face_encoding : Option (List JsNumber)
  pub photo_storage_ids : Option (List ℕ)
  pub enrolled_at : Option Text
  pub consent_at : Option Text

abbrev pub given : {A : Type 0} → Option A → Bool
given none = false
given (some a) = true

-- `writesBiometrics`.
abbrev pub writes_biometrics : WorkerUpdate → Bool
writes_biometrics u = given u.face_encoding || given u.photo_storage_ids

abbrev or_empty : Option Text → Text
or_empty none = []
or_empty (some t) = t

module _ (p : Platform) where
  -- `identityChanges`.
  unfoldable pub changes_identity : WorkerUpdate → Worker → Bool
  changes_identity u w =
      elim u.name [ none ↦ false | some n ↦ normalize_name n != normalize_name w.name ]
      || (given u.employee_id
          && normalize_employee_id p u.employee_id != normalize_employee_id p w.employee_id)
      || (given u.department
          && normalize_department u.department != normalize_department (some w.department))

  -- `identityChanged`: a field that is written has another value than before.
  unfoldable pub alters_identity : WorkerUpdate → Worker → Bool
  alters_identity u w =
      elim u.name [ none ↦ false | some n ↦ normalize_name n != w.name ]
      || (given u.employee_id && normalize_employee_id p u.employee_id != w.employee_id)
      || (given u.department && normalize_department u.department != w.department)

  abbrev pub next_name : WorkerUpdate → Worker → Text
  next_name u w = elim u.name [ none ↦ w.name | some n ↦ normalize_name n ]

  abbrev pub next_employee_id : WorkerUpdate → Worker → Option Text
  next_employee_id u w =
      if given u.employee_id then normalize_employee_id p u.employee_id else w.employee_id

  abbrev pub next_department : WorkerUpdate → Worker → Text
  next_department u w =
      if given u.department then normalize_department u.department else w.department

  -- `updates`, as they are patched into the row.
  abbrev pub updated_fields : WorkerUpdate → ℕ → Text → Worker → Worker
  updated_fields u actor now w = record w {
    name = next_name u w;
    employee_id = next_employee_id u w;
    department = next_department u w;
    face_encoding = if given u.face_encoding then u.face_encoding else w.face_encoding;
    photo_storage_ids = if writes_biometrics u then u.photo_storage_ids else w.photo_storage_ids;
    enrolled_at = if given u.face_encoding then now else w.enrolled_at;
    updated_at = some now;
    consent_at = if writes_biometrics u then u.consent_at else w.consent_at;
    consent_recorded_by = if writes_biometrics u then some actor else w.consent_recorded_by;
    biometrics_purged_at = if given u.face_encoding then none else w.biometrics_purged_at;
  }

  -- There is another worker of the name, and it is active.
  abbrev taken_by_another : ℕ → Option Worker → Bool
  taken_by_another id none = false
  taken_by_another id (some w) = w.id != id && w.active

  abbrev is_another : ℕ → Option Worker → Bool
  is_another id none = false
  is_another id (some w) = w.id != id

  unfoldable pub check_name : ℕ → Option Text → List Worker → Result WorkerError (Unit {0})
  check_name id none identities = ok tt
  check_name id (some name) identities = do
    require (ltb 0 (length (normalize_name name))) name_required
    refuse (taken_by_another id (find_by_name p (normalize_name name) identities)) name_taken

  unfoldable pub check_employee_id : ℕ → Option Text → List Worker → Result WorkerError (Unit {0})
  check_employee_id id none identities = ok tt
  check_employee_id id (some employee_id) identities = do
    existing ← find_by_employee_id p (normalize_employee_id p (some employee_id)) true identities
    refuse (is_another id existing) employee_id_of_another

module _ (p : Platform) (e : Enrolment) where
  -- `workerIdentityRevision`.
  unfoldable pub identity_revision : Worker → Text
  identity_revision w =
      text "["
      ++ e.quote (normalize_name w.name)
      ++ text ","
      ++ e.quote (or_empty (normalize_employee_id p w.employee_id))
      ++ text ","
      ++ e.quote (trim w.department)
      ++ text "]"

  abbrev employee_part : Option Text → Text
  employee_part none = []
  employee_part (some t) = text ",\"employeeId\":" ++ e.quote t

  abbrev identity_text : Text → Option Text → Text → Text
  identity_text name employee_id department =
      text "{\"name\":"
      ++ e.quote name
      ++ employee_part employee_id
      ++ text ",\"department\":"
      ++ e.quote department
      ++ text "}"

  abbrev change_details : WorkerUpdate → Worker → Text
  change_details u w =
      text "{\"before\":"
      ++ identity_text w.name w.employee_id w.department
      ++ text ",\"after\":"
      ++ identity_text (next_name p u w) (next_employee_id p u w) (next_department p u w)
      ++ text "}"

  abbrev pub audit_identity : WorkerUpdate → Worker → ℕ → Text → Db → Db
  audit_identity u w actor now db =
      if alters_identity p u w
      then audit_worker actor (text "workers.updateIdentity") w.id none (change_details u w) now db
      else db

  abbrev pub audit_enrolment : WorkerUpdate → Worker → ℕ → Text → Db → Db
  audit_enrolment u w actor now db =
      if writes_biometrics u
      then audit_worker actor (text "workers.enroll") w.id none (consent_details p e u.consent_at)
          now db
      else db

  -- The checks that read only the worker and the arguments.
  unfoldable pub may_update :
      WorkerUpdate → Worker → PortalMember → ℕ → Result WorkerError (Unit {0})
  may_update u w m now = do
    require w.active inactive_worker
    refuse (m.role == enrollment && changes_identity p u w) admins_only
    refuse
        ((changes_identity p u w || writes_biometrics u || given u.expected_identity_revision)
          && u.expected_identity_revision != some (identity_revision w))
        identity_conflict
    require (not (writes_biometrics u) || e.is_recent u.consent_at now) stale_consent
    refuse (too_many u.photo_storage_ids) photo_limit

  -- The identities are read when the name or the employee id is given.
  abbrev pub identities_for : WorkerUpdate → Db → Result WorkerError (List Worker)
  identities_for u db = if given u.name || given u.employee_id then read_identities db else ok []

  abbrev pub delete_if : Bool → Worker → Option (List ℕ) → Db → Result WorkerError Db
  delete_if false w next db = ok db
  delete_if true w next db =
      photo_part (delete_replaced w.id w.photo_storage_ids next db) >>= λ (count, db1). ok db1

  -- `update` once the photos are taken: the identities, the old photos, the row, and the audit log.
  unfoldable pub update_after :
      ℕ → WorkerUpdate → PortalMember → ℕ → Worker → Db → Result WorkerError Db
  update_after id u m now w db = do
    identities ← identities_for u db
    check_name p id u.name identities
    check_employee_id p id u.employee_id identities
    db1 ← delete_if (writes_biometrics u) w u.photo_storage_ids db
    db2 ← roster_part (write_worker (updated_fields p u m.user_id (p.iso now)) id false db1)
    ok (audit_enrolment u w m.user_id (p.iso now) (audit_identity u w m.user_id (p.iso now) db2))

  -- `update` for a member who may.
  unfoldable pub update_worker : ℕ → WorkerUpdate → PortalMember → ℕ → Db → Result WorkerError Db
  update_worker id u m now db = do
    w ← present (get_row id db.workers) inactive_worker
    may_update u w m now
    db1 ← photo_part (consume_photos u.photo_storage_ids m.user_id w.photo_storage_ids now db)
    require (elim u.face_encoding [ none ↦ true | some x ↦ e.is_supported x ]) bad_encoding
    update_after id u m now w db1

  -- `update`.
  unfoldable pub update : (Text → Option ℕ) → ℕ → WorkerUpdate → Caller → Db → Result WorkerError Db
  update session_id_of id u c db = do
    m ← staff p e session_id_of (admin ∷ enrollment ∷ []) c db
    update_worker id u m c.now db
