-- ===== src/Kiosks/Credentials.antt =====
-- convex/kiosks.ts: device credentials, and the check of a device's or an old client's identity.
use fw_gatekeeper.Prelude.{ℕ, Bool, true, false, not, ◌&&◌, Option, none, some, List, [], ◌∷◌, ◌++◌}
use fw_gatekeeper.Prelude.Tests.{if◌then◌else◌, ◌==◌, ◌!=◌, nat_eq, option_eq}
use fw_gatekeeper.Prelude.Lists.{filter, sole}
use fw_gatekeeper.Prelude.Text.{Text, text, text_eq}
use fw_gatekeeper.Prelude.Result.{Result, ok, ◌>>=◌, ◌>>◌, require, refuse, present}
use fw_gatekeeper.Prelude.Table.{get_row, patch_row}
use fw_gatekeeper.Schema.{Kiosk, kiosk_row, AuditLogRow, Db, Platform}
use fw_gatekeeper.Access.{Caller}
use fw_gatekeeper.Attendance.Ingest.{is_digest}
use fw_gatekeeper.Kiosks.Lookup.{find_active_kiosk}
use fw_gatekeeper.Kiosks.Registry.{
  KioskError, kiosk_missing, invalid_credential, ambiguous_credential, confirmation_required,
  administrator,
}

-- `a || b` on a text that may be missing or empty.
abbrev pub text_or : Option Text → Text → Text
text_or none b = b
text_or (some []) b = b
text_or (some (c ∷ t)) b = c ∷ t

abbrev pub is_set : Option Text → Bool
is_set none = false
is_set (some []) = false
is_set (some (c ∷ t)) = true

pub record Identity : Type 0 where
  pub document_id : ℕ
  pub kiosk_id : Text
  pub aliases : List Text

abbrev pub with_hash : Text → Db → List Kiosk
with_hash hash db = filter (λ (k : Kiosk). k.credential_hash == some hash) db.kiosks

module _ (p : Platform) where
  abbrev pub identity_for : Kiosk → Identity
  identity_for k = record {
    document_id = k.id;
    kiosk_id = text_or k.kiosk_id (p.id_text k.id);
    aliases =
        p.id_text k.id ∷ k.name ∷ (if is_set k.kiosk_id then text_or k.kiosk_id [] ∷ [] else []);
  }

  abbrev pub active_identity : Option Kiosk → Option Identity
  active_identity none = none
  active_identity (some k) = if k.active then some (identity_for k) else none

  unfoldable pub authenticate_device : Text → Db → Result KioskError (Option Identity)
  authenticate_device hash db =
      present (sole (with_hash hash db)) ambiguous_credential >>= λ k. ok (active_identity k)

  unfoldable pub authenticate_legacy : Text → Db → Option Identity
  authenticate_legacy identifier db = elim (find_active_kiosk p identifier db) [
    | none ↦ none
    | some k ↦ if is_set k.legacy_disabled_at then none else some (identity_for k)
  ]

  -- `duplicate && duplicate._id !== args.id`.
  abbrev pub is_other : ℕ → Option Kiosk → Bool
  is_other id none = false
  is_other id (some k) = k.id != id

  abbrev pub rotated : Text → Text → Kiosk → Kiosk → Kiosk
  rotated hash now read k = record k {
    credential_hash = some hash;
    credential_issued_at = some now;
    credential_revoked_at = none;
    legacy_disabled_at = some (text_or read.legacy_disabled_at now);
  }

  abbrev pub revoked : Text → Kiosk → Kiosk → Kiosk
  revoked now read k = record k {
    credential_hash = none;
    credential_revoked_at = some now;
    legacy_disabled_at = some (text_or read.legacy_disabled_at now);
  }

  abbrev audit : ℕ → Text → ℕ → Option Text → Text → AuditLogRow
  audit actor action id details now = record {
    actor_user_id = actor;
    action = action;
    target_table = text "kiosks";
    target_id = id;
    reason = none;
    details = details;
    created_at = now;
  }

  unfoldable pub rotate : ℕ → Text → ℕ → ℕ → Db → Result KioskError (Text × Db)
  rotate id hash actor now db = do
    k ← present (get_row id db.kiosks) kiosk_missing
    require k.active kiosk_missing
    require (is_digest hash) invalid_credential
    duplicate ← present (sole (with_hash hash db)) ambiguous_credential
    refuse (is_other id duplicate) invalid_credential
    ok (
      text_or k.kiosk_id (p.id_text k.id),
      record db {
        kiosks = patch_row id (rotated hash (p.iso now) k) db.kiosks;
        audit_log =
            db.audit_log
            ++ audit actor
                (if is_set k.credential_issued_at
                  then text "kiosk_credential_rotated"
                  else text "kiosk_credential_issued")
                id none (p.iso now)
              ∷ [];
      },
    )

  -- `JSON.stringify({ legacyOnly: … })`.
  abbrev legacy_only : Kiosk → Text
  legacy_only k =
      if not (is_set k.credential_hash) && not (is_set k.legacy_disabled_at)
      then text "{\"legacyOnly\":true}"
      else text "{\"legacyOnly\":false}"

  unfoldable pub revoke : ℕ → Bool → ℕ → ℕ → Db → Result KioskError Db
  revoke id confirmed actor now db = do
    k ← present (get_row id db.kiosks) kiosk_missing
    require k.active kiosk_missing
    require confirmed confirmation_required
    ok (record db {
      kiosks = patch_row id (revoked (p.iso now) k) db.kiosks;
      audit_log =
          db.audit_log
          ++ audit actor (text "kiosk_credential_revoked") id (some (legacy_only k)) (p.iso now)
            ∷ [];
    })

  module _ (session_id_of : Text → Option ℕ) where
    unfoldable pub rotate_credential : ℕ → Text → Caller → Db → Result KioskError (Text × Db)
    rotate_credential id hash c db =
        administrator p session_id_of c db >>= λ actor. rotate id hash actor.user_id c.now db

    unfoldable pub revoke_credential : ℕ → Bool → Caller → Db → Result KioskError Db
    revoke_credential id confirmed c db =
        administrator p session_id_of c db >>= λ actor. revoke id confirmed actor.user_id c.now db
