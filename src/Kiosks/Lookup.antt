-- ===== src/Kiosks/Lookup.antt =====
-- convex/kioskLookup.ts: the active kiosk that an identifier names.
use fw_gatekeeper.Prelude.{ℕ, ◌+◌, Bool, ◌||◌, Option, none, some, List, [], ◌∷◌}
use fw_gatekeeper.Prelude.Tests.{ltb, if◌then◌else◌, ◌==◌}
use fw_gatekeeper.Prelude.Lists.{take, filter, length}
use fw_gatekeeper.Prelude.Text.{Text, text_eq, trim}
use fw_gatekeeper.Prelude.Table.{get_row}
use fw_gatekeeper.Schema.{Kiosk, kiosk_row, Db, Platform}

abbrev pub max_active_kiosks : ℕ
max_active_kiosks = 1000

abbrev pub is_active : Kiosk → Bool
is_active k = k.active

abbrev pub or_empty : Option Text → Text
or_empty none = []
or_empty (some t) = t

-- `matches.length === 1 ? matches[0] : null`.
abbrev pub only_match : List Kiosk → Option Kiosk
only_match [] = none
only_match (k ∷ []) = some k
only_match (k ∷ l ∷ ks) = none

module _ (p : Platform) where
  -- The name or the configured id of the kiosk is the text, without regard to case and space.
  abbrev pub has_alias : Text → Kiosk → Bool
  has_alias normalized k =
      p.lower (trim k.name) == normalized || p.lower (trim (or_empty k.kiosk_id)) == normalized

  abbrev pub by_alias : Text → Db → Option Kiosk
  by_alias lookup db =
      let fleet = take (max_active_kiosks + 1) (filter is_active db.kiosks) in
      if ltb max_active_kiosks (length fleet)
      then none
      else only_match (filter (has_alias (p.lower lookup)) fleet)

  -- `resolve`: a document id of an active kiosk, or else an alias of exactly one.
  unfoldable pub resolve : Text → Db → Option Kiosk
  resolve lookup db = elim (p.kiosk_id_of lookup) [
    | none ↦ by_alias lookup db
    | some i ↦ elim (get_row i db.kiosks) [
      | none ↦ by_alias lookup db
      | some k ↦ if k.active then some k else by_alias lookup db
    ]
  ]

  -- `findActiveKioskByIdentifier`.
  unfoldable pub find_active_kiosk : Text → Db → Option Kiosk
  find_active_kiosk identifier db = elim (trim identifier) [
    | [] ↦ none
    | c ∷ t ↦ resolve (c ∷ t) db
  ]
