-- ===== src/Roster/Sequence.antt =====
-- convex/rosterSequence.ts: the counter, and the one way in which a worker's row is written.
use fw_gatekeeper.Prelude.{ℕ, suc, ◌+◌, Bool, false, Option, none, some, [], ◌∷◌, ◌++◌}
use fw_gatekeeper.Prelude.Tests.{leb, if◌then◌else◌}
use fw_gatekeeper.Prelude.Number.{max_safe_integer}
use fw_gatekeeper.Prelude.Result.{Result, ok, ◌>>=◌, ◌>>◌, require, present}
use fw_gatekeeper.Prelude.Table.{get_row, patch_row}
use fw_gatekeeper.Schema.{Worker, worker_row, RosterCounter, Db}

pub data RosterError : Type 0 where
  -- "Roster sequence exhausted".
  exhausted : RosterError
  -- A patch of an id that names no row is refused by the platform.
  missing : RosterError

-- `counter?.value ?? 0`.
abbrev pub current : Db → ℕ
current db = elim db.roster_counter [
  | none ↦ 0
  | some counter ↦ elim counter.value [ none ↦ 0 | some v ↦ v ]
]

-- `counter?.lastPurgeSequence`.
abbrev pub last_purge : Db → Option ℕ
last_purge db = elim db.roster_counter [ none ↦ none | some counter ↦ counter.last_purge_sequence ]

-- The counter row after a write: patched if there is one, inserted if not.
unfoldable pub advance : Bool → ℕ → Option RosterCounter → RosterCounter
advance purge sequence none = record {
  value = some sequence;
  last_purge_sequence = if purge then some sequence else none;
}
advance purge sequence (some counter) = record {
  value = some sequence;
  last_purge_sequence = if purge then some sequence else counter.last_purge_sequence;
}

-- The first half of `writeRosterWorker`: the sequence of the write, and the counter that holds it.
unfoldable pub take_sequence : Bool → Db → Result RosterError (ℕ × Db)
take_sequence purge db = do
  let sequence = current db + 1
  require (leb sequence max_safe_integer) exhausted
  ok (sequence, record db { roster_counter = some (advance purge sequence db.roster_counter) })

-- The fields that the patch gives, then the sequence; the id is not a field.
abbrev pub stamp : (Worker → Worker) → ℕ → Worker → Worker
stamp fields sequence w = record (fields w) {
  id = w.id;
  creation_time = w.creation_time;
  roster_sequence = some sequence;
}

-- `writeRosterWorker(ctx, fields, id, purge)`.
unfoldable pub write_worker : (Worker → Worker) → ℕ → Bool → Db → Result RosterError Db
write_worker fields id purge db = do
  (sequence, db1) ← take_sequence purge db
  _ ← present (get_row id db1.workers) missing
  ok (record db1 { workers = patch_row id (stamp fields sequence) db1.workers })

-- `writeRosterWorker(ctx, fields)`: a new worker. `fields` gives the row but for its id, its
-- instant of creation and its sequence.
unfoldable pub insert_worker : Worker → ℕ → Db → Result RosterError (ℕ × Db)
insert_worker fields now db = do
  (sequence, db1) ← take_sequence false db
  ok (
    db1.next_id,
    record db1 {
      next_id = suc db1.next_id;
      workers =
          db1.workers
          ++ record fields {
            id = db1.next_id;
            creation_time = now;
            roster_sequence = some sequence;
          }
            ∷ [];
    },
  )
