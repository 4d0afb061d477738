-- ===== src/Kiosks/Registry.antt =====
-- convex/kiosks.ts: `create`, the registration of a kiosk.
use fw_gatekeeper.Prelude.{ℕ, suc, Bool, true, false, ◌||◌, Option, none, some, List, [], ◌∷◌, ◌++◌}
use fw_gatekeeper.Prelude.Tests.{ltb, leb, ◌==◌}
use fw_gatekeeper.Prelude.Lists.{take, filter, any, length}
use fw_gatekeeper.Prelude.Text.{Text, text_eq, trim}
use fw_gatekeeper.Prelude.Result.{Result, ok, err, ◌>>=◌, ◌>>◌, require, refuse}
use fw_gatekeeper.Schema.{Kiosk, admin, PortalMember, Db, Platform}
use fw_gatekeeper.Access.{AccessError, Caller, assert_portal_role}
use fw_gatekeeper.Kiosks.Lookup.{is_active, or_empty}

pub data KioskError : Type 0 where
  denied : AccessError → KioskError
  name_required fleet_limit identifier_conflict : KioskError
  invalid_sync_time : KioskError
  kiosk_missing invalid_credential ambiguous_credential confirmation_required : KioskError

-- `normalizeOptionalText`.
abbrev pub normalize_optional : Option Text → Option Text
normalize_optional none = none
normalize_optional (some t) = elim (trim t) [ [] ↦ none | c ∷ s ↦ some (c ∷ s) ]

pub record KioskArgs : Type 0 where
  pub name : Text
  pub kiosk_id : Option Text
  pub type : Text
  pub location : Option Text

pub record KioskAnswer : Type 0 where
  pub id : ℕ
  pub name : Text
  pub type : Text

abbrev pub new_kiosk : ℕ → KioskArgs → Kiosk
new_kiosk id a = record {
  id = id;
  name = trim a.name;
  kiosk_id = normalize_optional a.kiosk_id;
  type = trim a.type;
  location = or_empty (normalize_optional a.location);
  last_sync = none;
  roster_applied_at = none;
  roster_applied_sequence = none;
  legacy_roster_cursors = none;
  last_roster_receipt_id = none;
  health = none;
  attendance_queue = none;
  credential_hash = none;
  credential_issued_at = none;
  credential_revoked_at = none;
  legacy_disabled_at = none;
  active = true;
}

module _ (p : Platform) where
  -- The aliases that a registration would take, in lower case.
  abbrev pub taken_aliases : Text → Option Text → List Text
  taken_aliases name none = p.lower name ∷ []
  taken_aliases name (some i) = p.lower name ∷ p.lower i ∷ []

  -- `value && aliases.has(value.trim().toLowerCase())`.
  abbrev pub is_taken : List Text → Text → Bool
  is_taken aliases [] = false
  is_taken aliases (c ∷ t) = any (λ a. a == p.lower (trim (c ∷ t))) aliases

  abbrev pub conflicts : List Text → Kiosk → Bool
  conflicts aliases k =
      is_taken aliases k.name
      || is_taken aliases (or_empty k.kiosk_id)
      || is_taken aliases (p.id_text k.id)

  unfoldable pub register : KioskArgs → Db → Result KioskError (KioskAnswer × Db)
  register a db = do
    require (ltb 0 (length (trim a.name))) name_required
    refuse (leb 1000 (length (take 1001 (filter is_active db.kiosks)))) fleet_limit
    refuse
        (any (conflicts (taken_aliases (trim a.name) (normalize_optional a.kiosk_id)))
          (take 1001 (filter is_active db.kiosks)))
        identifier_conflict
    ok (
      record { id = db.next_id; name = trim a.name; type = trim a.type },
      record db { next_id = suc db.next_id; kiosks = db.kiosks ++ new_kiosk db.next_id a ∷ [] },
    )

  module _ (session_id_of : Text → Option ℕ) where
    abbrev pub administrator : Caller → Db → Result KioskError PortalMember
    administrator c db = elim (assert_portal_role p session_id_of (admin ∷ []) c db) [
      | ok m ↦ ok m
      | err bad ↦ err (denied bad)
    ]

    unfoldable pub create : KioskArgs → Caller → Db → Result KioskError (KioskAnswer × Db)
    create a c db = administrator c db >>= λ _. register a db
