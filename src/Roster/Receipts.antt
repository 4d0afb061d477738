-- ===== src/Roster/Receipts.antt =====
-- convex/kiosks.ts: roster receipts for devices, timestamp cursors for old clients, and whether a
-- kiosk has yet to confirm a purge.
use fw_gatekeeper.Prelude.{
  ℕ, suc, ◌+◌, Bool, true, false, not, ◌&&◌, Option, none, some, List, [], ◌∷◌, ◌++◌,
}
use fw_gatekeeper.Prelude.Tests.{ltb, if◌then◌else◌, ◌==◌, nat_eq, option_eq}
use fw_gatekeeper.Prelude.Lists.{find, take}
use fw_gatekeeper.Prelude.Text.{Text, text_eq, text_ltb}
use fw_gatekeeper.Prelude.Result.{Result, ok, err}
use fw_gatekeeper.Prelude.Table.{get_row, patch_row, delete_row}
use fw_gatekeeper.Schema.{Kiosk, kiosk_row, RosterReceipt, receipt_row, LegacyCursor, Db, Platform}
use fw_gatekeeper.Roster.Sequence.{current, last_purge}
use fw_gatekeeper.Roster.Cursor.{cursor_of}

-- A text that JavaScript reads as true.
abbrev pub truthy : Option Text → Bool
truthy none = false
truthy (some []) = false
truthy (some (c ∷ s)) = true

-- `!kiosk?.active || !kiosk.credentialHash` fails.
abbrev pub is_device : Kiosk → Bool
is_device k = k.active && truthy k.credential_hash

pub record ReceiptIssue : Type 0 where
  pub receipt : ℕ
  pub issued_at : Text
  pub since : Option Text

abbrev pub pending_receipt : ℕ → Db → Option RosterReceipt
pending_receipt kiosk db = find (λ (r : RosterReceipt). r.kiosk_id == kiosk) db.roster_receipts

-- `pending !== null && pending.rosterSequence === undefined`.
abbrev unsequenced : Option RosterReceipt → Bool
unsequenced none = false
unsequenced (some r) = elim r.roster_sequence [ none ↦ true | some s ↦ false ]

abbrev pub device_since : Kiosk → Option RosterReceipt → Option Text
device_since k pending = elim k.roster_applied_sequence [
  | none ↦ none
  | some s ↦ if unsequenced pending then none else some (cursor_of s)
]

-- The row that `issueRosterReceiptFromHttp` inserts.
abbrev pub new_receipt : ℕ → Text → Db → RosterReceipt
new_receipt kiosk issued_at db = record {
  id = db.next_id;
  kiosk_id = kiosk;
  issued_at = issued_at;
  roster_sequence = some (current db);
}

abbrev issue_for : Kiosk → Text → Db → Option ReceiptIssue × Db
issue_for k now db = elim (pending_receipt k.id db) [
  | some r ↦ (
    some (record { receipt = r.id; issued_at = r.issued_at; since = device_since k (some r) }),
    db,
  )
  | none ↦ (
    some (record { receipt = db.next_id; issued_at = now; since = device_since k none }),
    record db {
      next_id = suc db.next_id;
      roster_receipts = db.roster_receipts ++ new_receipt k.id now db ∷ [];
    },
  )
]

-- `issueRosterReceiptFromHttp`; `now` is the server's ISO time.
unfoldable pub issue_receipt : ℕ → Text → Db → Option ReceiptIssue × Db
issue_receipt document now db = elim (get_row document db.kiosks) [
  | none ↦ (none, db)
  | some k ↦ if is_device k then issue_for k now db else (none, db)
]

pub record AckAnswer : Type 0 where
  pub acknowledged : Bool
  pub applied_at : Option Text

abbrev pub refused : AckAnswer
refused = record { acknowledged = false; applied_at = none }

-- `!kiosk.rosterAppliedAt || pending.issuedAt > kiosk.rosterAppliedAt ? … : …`.
abbrev pub later_time : Option Text → Text → Text
later_time none issued = issued
later_time (some []) issued = issued
later_time (some (c ∷ t)) issued = if text_ltb (c ∷ t) issued then issued else c ∷ t

-- `Math.max(kiosk.rosterAppliedSequence ?? 0, pending.rosterSequence)`, where that is set.
abbrev pub raise : Option ℕ → Option ℕ → Option ℕ
raise applied none = applied
raise none (some s) = some s
raise (some a) (some s) = some (if ltb a s then s else a)

-- The patch of the kiosk's row.
abbrev pub applied : RosterReceipt → Kiosk → Kiosk
applied r k = record k {
  roster_applied_at = some (later_time k.roster_applied_at r.issued_at);
  last_roster_receipt_id = some r.id;
  roster_applied_sequence = raise k.roster_applied_sequence r.roster_sequence;
}

-- A receipt of another kiosk, or an unsequenced one from the future, is not taken.
abbrev pub acceptable : Kiosk → RosterReceipt → Text → Bool
acceptable k r now =
    r.kiosk_id == k.id
    && not (elim r.roster_sequence [ none ↦ text_ltb now r.issued_at | some s ↦ false ])

abbrev acknowledge_for : Kiosk → ℕ → Text → Db → AckAnswer × Db
acknowledge_for k receipt now db =
    if k.last_roster_receipt_id == some receipt
    then (record { acknowledged = true; applied_at = k.roster_applied_at }, db)
    else elim (get_row receipt db.roster_receipts) [
      | none ↦ (refused, db)
      | some r ↦
          if acceptable k r now
          then (
            record {
              acknowledged = true;
              applied_at = some (later_time k.roster_applied_at r.issued_at);
            },
            record db {
              kiosks = patch_row k.id (applied r) db.kiosks;
              roster_receipts = delete_row r.id db.roster_receipts;
            },
          )
          else (refused, db)
    ]

-- `acknowledgeRosterReceiptFromHttp`.
unfoldable pub acknowledge_receipt : ℕ → ℕ → Text → Db → AckAnswer × Db
acknowledge_receipt document receipt now db = elim (get_row document db.kiosks) [
  | none ↦ (refused, db)
  | some k ↦ if is_device k then acknowledge_for k receipt now db else (refused, db)
]

-- `purge_pending` of `serializeKiosk`.
unfoldable pub purge_pending : Option ℕ → Kiosk → Bool
purge_pending none k = false
purge_pending (some last) k = elim k.roster_applied_sequence [ none ↦ true | some s ↦ ltb s last ]

-- The index by_target_table_and_action_and_created_at at purges of workers is not empty.
abbrev pub LegacyPurge : Type 0
LegacyPurge = Bool

-- `counter?.lastPurgeSequence ?? (legacyPurge ? 0 : null)` of `kiosks.list`.
unfoldable pub certified_by : LegacyPurge → Db → Option ℕ
certified_by legacy db = elim (last_purge db) [
  | some s ↦ some s
  | none ↦ if legacy then some 0 else none
]

pub record LegacyIssue : Type 0 where
  pub issued_at : Text
  pub since : Option Text

pub data LegacyError : Type 0 where
  -- `new Date(NaN).toISOString()` throws.
  invalid_time : LegacyError

module _ (p : Platform) where
  -- `Math.max(Date.now(), ...history.map(cursor => Date.parse(cursor.issuedAt) + 1))`.
  unfoldable pub issue_ms : ℕ → List LegacyCursor → Option ℕ
  issue_ms now [] = some now
  issue_ms now (c ∷ cs) = elim (p.parse_date c.issued_at) [
    | none ↦ none
    | some t ↦ issue_ms (if ltb now (t + 1) then t + 1 else now) cs
  ]

  abbrev legacy_history : Kiosk → List LegacyCursor
  legacy_history k = elim k.legacy_roster_cursors [ none ↦ [] | some h ↦ h ]

  abbrev pub recognised : Option Text → List LegacyCursor → Option LegacyCursor
  recognised none history = none
  recognised (some since) history = find (λ (c : LegacyCursor). c.issued_at == since) history

  -- A candidate that the caller has already is moved by one millisecond.
  abbrev pub fresh_time : Option Text → ℕ → Text
  fresh_time none ms = p.iso ms
  fresh_time (some since) ms = if p.iso ms == since then p.iso (ms + 1) else p.iso ms

  -- `issueLegacyRosterCursorFromHttp`.
  unfoldable pub issue_legacy :
      ℕ → Option Text → ℕ → Db → Result LegacyError (Option LegacyIssue × Db)
  issue_legacy document since now db = elim (get_row document db.kiosks) [
    | none ↦ ok (none, db)
    | some k ↦
        if k.active
        then elim (issue_ms now (legacy_history k)) [
          | none ↦ err invalid_time
          | some ms ↦
              let issued = fresh_time since ms in
              let cursor : LegacyCursor = record {
                issued_at = issued;
                roster_sequence = current db;
              } in
              ok (
                some (record {
                  issued_at = issued;
                  since = elim (recognised since (legacy_history k)) [
                    | none ↦ none
                    | some c ↦ some (cursor_of c.roster_sequence)
                  ];
                }),
                record db {
                  kiosks =
                      patch_row k.id
                        (λ (x : Kiosk). record x {
                          legacy_roster_cursors = some (take 2 (cursor ∷ legacy_history k));
                        })
                        db.kiosks;
                },
              )
        ]
        else ok (none, db)
  ]
