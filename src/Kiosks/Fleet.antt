-- ===== src/Kiosks/Fleet.antt =====
-- convex/kiosks.ts: what is shown of the fleet.
use fw_gatekeeper.Prelude.{ℕ, Bool, ◌&&◌, Option, none, some, List, [], ◌∷◌, map}
use fw_gatekeeper.Prelude.Tests.{if◌then◌else◌, ◌==◌}
use fw_gatekeeper.Prelude.Lists.{filter, any, take}
use fw_gatekeeper.Prelude.Text.{Text, text, text_eq}
use fw_gatekeeper.Prelude.Result.{Result, ok, ◌>>=◌}
use fw_gatekeeper.Schema.{Health, Kiosk, AuditLogRow, admin, enrollment, viewer, Db, Platform}
use fw_gatekeeper.Access.{AccessError, Caller, assert_portal_role}
use fw_gatekeeper.Roster.Receipts.{certified_by, purge_pending}
use fw_gatekeeper.Kiosks.Queue.{Observation, observe}
use fw_gatekeeper.Kiosks.Lookup.{is_active}
use fw_gatekeeper.Kiosks.Credentials.{is_set}

-- `value || null`.
abbrev filled : Option Text → Option Text
filled none = none
filled (some []) = none
filled (some (c ∷ t)) = some (c ∷ t)

pub data CredentialStatus : Type 0 where
  device revoked_access legacy : CredentialStatus

pub record KioskView : Type 0 where
  pub id : ℕ
  pub name : Text
  pub kiosk_id : Option Text
  pub type : Text
  pub location : Text
  pub last_sync : Option Text
  pub roster_applied_at : Option Text
  pub purge_pending : Bool
  pub health : Option Health
  pub attendance_queue : Observation
  pub credential_status : CredentialStatus
  pub active : ℕ

-- `serializeHealth`; an absent field is `none` before and `none`, for null, after.
abbrev serialize_health : Option Health → Option Health
serialize_health none = none
serialize_health (some h) = some (record {
  camera_ok = h.camera_ok;
  model_ok = h.model_ok;
  liveness_available = h.liveness_available;
  known_workers = h.known_workers;
  queued_logs = h.queued_logs;
  queued_attempts = h.queued_attempts;
  rejected_attempts = h.rejected_attempts;
  degraded_reason = h.degraded_reason;
  last_scan_at = h.last_scan_at;
  reported_at = h.reported_at;
})

-- `serializeKiosk`.
unfoldable pub serialize_kiosk : Option ℕ → Kiosk → KioskView
serialize_kiosk last k = record {
  id = k.id;
  name = k.name;
  kiosk_id = filled k.kiosk_id;
  type = k.type;
  location = k.location;
  last_sync = filled k.last_sync;
  roster_applied_at = filled k.roster_applied_at;
  purge_pending = purge_pending last k;
  health = serialize_health k.health;
  attendance_queue = observe k.attendance_queue k.health;
  credential_status =
      if is_set k.credential_hash
      then device
      else if is_set k.legacy_disabled_at
      then revoked_access
      else legacy;
  active = 1;
}

-- There is an audit row of a purge.
abbrev pub legacy_purge : Db → Bool
legacy_purge db =
    any
      (λ (r : AuditLogRow).
        r.target_table == text "workers" && r.action == text "workers.purgeBiometrics")
      db.audit_log

abbrev pub fleet : Db → List KioskView
fleet db = map (serialize_kiosk (certified_by (legacy_purge db) db)) (filter is_active db.kiosks)

-- `list`.
unfoldable pub list_kiosks :
    Platform → (Text → Option ℕ) → Caller → Db → Result AccessError (List KioskView)
list_kiosks p session_id_of c db =
    assert_portal_role p session_id_of (admin ∷ enrollment ∷ viewer ∷ []) c db >>= λ m.
    ok (fleet db)

pub record HealthSnapshot : Type 0 where
  pub last_sync : Option Text
  pub health : Option Health

-- `internalHealthSnapshot`.
unfoldable pub health_snapshot : Db → List HealthSnapshot
health_snapshot db =
    map (λ (k : Kiosk). record { last_sync = k.last_sync; health = serialize_health k.health })
      (take 101 (filter is_active db.kiosks))
