-- ===== src/Kiosks/Contact.antt =====
-- convex/kiosks.ts: `updateLastSyncFromHttp`, a kiosk's report of contact.
use fw_gatekeeper.Prelude.{ℕ, ◌+◌, Bool, true, false, ◌&&◌, Option, none, some, [], ◌∷◌}
use fw_gatekeeper.Prelude.Tests.{ltb, leb, if◌then◌else◌}
use fw_gatekeeper.Prelude.Text.{Text}
use fw_gatekeeper.Prelude.Number.{JsNumber, safe_count}
use fw_gatekeeper.Prelude.Result.{Result, ok, ◌>>=◌, ◌>>◌, refuse, present}
use fw_gatekeeper.Prelude.Table.{patch_row}
use fw_gatekeeper.Schema.{Health, Kiosk, kiosk_row, Db, Platform}
use fw_gatekeeper.Kiosks.Queue.{Reported, number, other, parse_queue_count, next_queue}
use fw_gatekeeper.Kiosks.Lookup.{find_active_kiosk}
use fw_gatekeeper.Kiosks.Registry.{KioskError, invalid_sync_time}

-- A count of the report, dropped where it is no count.
abbrev pub valid_count : Option JsNumber → Option JsNumber
valid_count none = none
valid_count (some x) = elim (safe_count x) [ none ↦ none | some n ↦ some x ]

abbrev pub checked_health : Health → Health
checked_health h = record h {
  queued_logs = valid_count h.queued_logs;
  queued_attempts = valid_count h.queued_attempts;
}

abbrev checked : Option Health → Option Health
checked none = none
checked (some h) = some (checked_health h)

-- `args.health?.queuedLogs`.
abbrev reported_logs : Option Health → Reported
reported_logs none = other
reported_logs (some h) = elim h.queued_logs [ none ↦ other | some x ↦ number x ]

-- A field that a patch sets where it has a value, and leaves where it has none.
abbrev pub or_kept {ℓ} : {A : Type ℓ} → Option A → Option A → Option A
or_kept none old = old
or_kept (some a) old = some a

abbrev pub contact_patch : Text → Option Health → Kiosk → Kiosk → Kiosk
contact_patch at health read k = record k {
  last_sync = some at;
  health = or_kept (checked health) k.health;
  attendance_queue =
      or_kept
        (next_queue read.attendance_queue read.health (parse_queue_count (reported_logs health)) at)
        k.attendance_queue;
}

module _ (p : Platform) where
  -- `kiosk.lastSync ? Date.parse(kiosk.lastSync) : NaN`.
  abbrev pub instant_of : Option Text → Option ℕ
  instant_of none = none
  instant_of (some []) = none
  instant_of (some (c ∷ t)) = p.parse_date (c ∷ t)

  -- The report is no later than the contact on record, which is itself not from the future.
  abbrev pub is_stale : Option ℕ → ℕ → ℕ → Bool
  is_stale none now incoming = false
  is_stale (some at) now incoming = leb at (now + 60000) && leb incoming at

  unfoldable pub accept_contact : Kiosk → Text → ℕ → Option Health → ℕ → Db → Bool × Db
  accept_contact k at incoming health now db =
      if is_stale (instant_of k.last_sync) now incoming
      then (true, db)
      else (true, record db { kiosks = patch_row k.id (contact_patch at health k) db.kiosks })

  unfoldable pub update_last_sync :
      Text → Text → Option Health → ℕ → Db → Result KioskError (Bool × Db)
  update_last_sync identifier at health now db = elim (find_active_kiosk p identifier db) [
    | none ↦ ok (false, db)
    | some k ↦ do
      incoming ← present (p.parse_date at) invalid_sync_time
      refuse (ltb (now + 60000) incoming) invalid_sync_time
      ok (accept_contact k at incoming health now db)
  ]
