-- ===== src/Workers/Rows.antt =====
-- convex/workers.ts: the arguments and answers of its handlers, and what they write to the row of a
-- worker and to the audit log.
use fw_gatekeeper.Prelude.{ℕ, Bool, true, false, Option, none, some, List, [], ◌∷◌, ◌++◌}
use fw_gatekeeper.Prelude.Tests.{ltb, nat_eq}
use fw_gatekeeper.Prelude.Lists.{length}
use fw_gatekeeper.Prelude.Text.{Text, text}
use fw_gatekeeper.Prelude.Number.{JsNumber}
use fw_gatekeeper.Prelude.Result.{Result, ok, err}
use fw_gatekeeper.Schema.{Worker, worker_row, Db}
use fw_gatekeeper.Roster.Sequence.{RosterError}
use fw_gatekeeper.Workers.Photos.{PhotoError}
use fw_gatekeeper.Workers.Identity.{WorkerError, roster, photos}

pub record DirectoryEntry : Type 0 where
  pub name : Text
  pub employee_id : Text
  pub department : Text

-- The parts of src/lib that enrolment consults, and `JSON.stringify` of a text.
pub record Enrolment : Type 0 where
  -- `isSupportedEncoding` of src/lib/encoding.ts.
  pub is_supported : List JsNumber → Bool
  -- `isRecentBiometricConsent(consentAt, now)` of src/lib/biometric-consent.ts.
  pub is_recent : Option Text → ℕ → Bool
  -- `findEmployeeDirectoryById` of src/lib/employee-directory.ts.
  pub directory : Text → Option DirectoryEntry
  pub quote : Text → Text

pub record WorkerArgs : Type 0 where
  pub name : Text
  pub employee_id : Option Text
  pub department : Option Text
  pub face_encoding : List JsNumber
  pub photo_storage_ids : Option (List ℕ)
  pub consent_at : Option Text

pub record WorkerAnswer : Type 0 where
  pub id : ℕ
  pub name : Text
  pub employee_id : Option Text
  pub department : Text

-- An error of a part, as one of the handler.
abbrev pub roster_part : {A : Type 0} → Result RosterError A → Result WorkerError A
roster_part (ok a) = ok a
roster_part (err e) = err (roster e)

abbrev pub photo_part : {A : Type 0} → Result PhotoError A → Result WorkerError A
photo_part (ok a) = ok a
photo_part (err e) = err (photos e)

abbrev pub too_many : Option (List ℕ) → Bool
too_many none = false
too_many (some ids) = ltb 6 (length ids)

abbrev pub is_active_worker : Option Worker → Bool
is_active_worker none = false
is_active_worker (some w) = w.active

abbrev pub photos_of : Option Worker → Option (List ℕ)
photos_of none = none
photos_of (some w) = w.photo_storage_ids

abbrev pub audit_worker : ℕ → Text → ℕ → Option Text → Text → Text → Db → Db
audit_worker actor action id reason details now db = record db {
  audit_log =
      db.audit_log
      ++ record {
        actor_user_id = actor;
        action = action;
        target_table = text "workers";
        target_id = id;
        reason = reason;
        details = some details;
        created_at = now;
      }
        ∷ [];
}

-- What an enrolment writes; a fresh one supersedes a purge.
abbrev pub enrolled_fields : Text → Option Text → Text → WorkerArgs → ℕ → Text → Worker → Worker
enrolled_fields name employee_id department a actor now w = record w {
  name = name;
  employee_id = employee_id;
  department = department;
  face_encoding = some a.face_encoding;
  photo_storage_ids = a.photo_storage_ids;
  enrolled_at = now;
  updated_at = some now;
  active = true;
  consent_at = a.consent_at;
  consent_recorded_by = some actor;
  biometrics_purged_at = none;
}

abbrev pub blank_worker : Worker
blank_worker = record {
  id = 0;
  creation_time = 0;
  name = [];
  employee_id = none;
  department = [];
  photo_storage_ids = none;
  face_encoding = none;
  enrolled_at = [];
  updated_at = none;
  roster_sequence = none;
  active = false;
  consent_at = none;
  consent_recorded_by = none;
  biometrics_purged_at = none;
}

-- What a purge writes.
abbrev pub purged_fields : Text → Worker → Worker
purged_fields now w = record w {
  face_encoding = none;
  photo_storage_ids = none;
  active = false;
  updated_at = some now;
  biometrics_purged_at = some now;
}

abbrev pub deactivated_fields : Text → Worker → Worker
deactivated_fields now w = record w { active = false; updated_at = some now }
