-- ===== src/Attendance/Ingest/Stored.antt =====
-- What one accepted event of convex/attendance.ts does to the table of punches.
use fw_gatekeeper.Prelude.{
  Bool, true, false, none, some, List, ◌≡◌, ◌⊎◌, refl, sym, ◌∙◌, inl, inr, arith,
}
use fw_gatekeeper.Prelude.Tests.{Option-cases, Bool-cases, option_eq, if◌then◌else◌}
use fw_gatekeeper.Prelude.Lists.{find, find_satisfies}
use fw_gatekeeper.Prelude.Text.{text_eq, text_beq_iff}
use fw_gatekeeper.Prelude.Result.{ok, Result-cases}
use fw_gatekeeper.Prelude.Table.{
  patch_row, update_first, update_first-same, update_first-ext, update_first-twice,
  find-update_first,
}
use fw_gatekeeper.Prelude.Ids.{DistinctIds, DistinctIds-update_first, patch_row-found}
use fw_gatekeeper.Schema.{AttendanceRow, attendance_row, Db, Platform, event_type_eq}
use fw_gatekeeper.Attendance.Ingest.{
  AttendanceEvent, Inserted, truthy, preserve_note, has_key, same_punch, reuse_key, merge_punch,
  add_punch, store_punch, insert_event, worker_exists,
}

-- The note that a row has after a retry: its own, or else the event's.
abbrev pub noted : AttendanceEvent → AttendanceRow → AttendanceRow
noted event a = record a { note = elim a.note [ none ↦ event.note | some m ↦ some m ] }

-- An event's note does not contradict the row's.
abbrev pub NoteAgrees : AttendanceEvent → AttendanceRow → Type 0
NoteAgrees event a = (event.note ≡ none) ⊎ ((noted event a).note ≡ event.note)

abbrev pub keyed : AttendanceEvent → AttendanceRow → AttendanceRow
keyed event a =
    if truthy event.idempotency_key then record a { idempotency_key = event.idempotency_key } else a

abbrev with_rows : Db → List AttendanceRow → Db
with_rows db rows = record db { attendance = rows }

abbrev SameEvidence : AttendanceEvent → AttendanceRow → Type 0
SameEvidence event a =
    (a.worker_id ≡ event.worker_id)
    × (a.event_type ≡ event.event_type)
    × (a.timestamp ≡ event.timestamp)

-- The three ways in which an event is accepted.
pub data Stored (event : AttendanceEvent) (db : Db) (r : Inserted) (db' : Db) : Type 0 where
  -- The key is there, with the same evidence.
  retried :
      (a : AttendanceRow)
      → truthy event.idempotency_key ≡ true
      → find (has_key event.kiosk_id event.idempotency_key) db.attendance ≡ some a
      → SameEvidence event a
      → NoteAgrees event a
      → r ≡ record { id = a.id; inserted = false }
      → db' ≡ record db {
        attendance =
            update_first (has_key event.kiosk_id event.idempotency_key) (noted event) db.attendance;
      }
      → Stored event db r db'
  -- The exact punch is there, and one of the two has no key.
  merged :
      (a : AttendanceRow)
      → (truthy event.idempotency_key ≡ false)
        ⊎ ((truthy a.idempotency_key ≡ false)
            × (find (has_key event.kiosk_id event.idempotency_key) db.attendance ≡ none))
      → find (same_punch event) db.attendance ≡ some a
      → NoteAgrees event a
      → r ≡ record { id = a.id; inserted = false }
      → db' ≡ record db {
        attendance =
            update_first (same_punch event) (λ b. keyed event (noted event b)) db.attendance;
      }
      → Stored event db r db'
  -- A new row, at the end.
  added :
      ((truthy event.idempotency_key ≡ false)
        ⊎ (find (has_key event.kiosk_id event.idempotency_key) db.attendance ≡ none))
      → ((find (same_punch event) db.attendance ≡ none) ⊎ (truthy event.idempotency_key ≡ true))
      → (r, db') ≡ add_punch event db
      → Stored event db r db'

noted_same :
    (event : AttendanceEvent) (a : AttendanceRow)
    → (noted event a).note ≡ a.note
    → noted event a ≡ a
noted_same event a p = λ i. record a { note = p i }

noted_blank :
    (event : AttendanceEvent) (a : AttendanceRow)
    → a.note ≡ none
    → event.note ≡ (noted event a).note
noted_blank event a p = rw p

module _ (event : AttendanceEvent) (db : Db) (ids : DistinctIds db.attendance) where
  unchanged :
      (q : AttendanceRow → Bool) (a : AttendanceRow) (db' : Db)
      → find q db.attendance ≡ some a
      → (noted event a).note ≡ a.note
      → db ≡ db'
      → db' ≡ record db { attendance = update_first q (noted event) db.attendance }
  unchanged q a db' e same h =
      rw (update_first-same q (noted event) db.attendance e (noted_same event a same)) (sym h)

  preserve_note_lem :
      (q : AttendanceRow → Bool) (a : AttendanceRow) (db' : Db)
      → find q db.attendance ≡ some a
      → preserve_note a event db ≡ ok db'
      → NoteAgrees event a
        × (db' ≡ record db { attendance = update_first q (noted event) db.attendance })
  unfolding preserve_note
  preserve_note_lem q a db' e h = elim (Option-cases event.note) [
    | inl e1 ↦ (inl e1, unchanged q a db' e (ground arith) (ground arith))
    | inr (n, e1) ↦ elim (Option-cases a.note) [
      | inl e2 ↦ (
        inr (ground arith),
        ground (
          arith,
          patch_row-found q (λ (b : AttendanceRow). record b { note = event.note }) db.attendance
              ids e,
          update_first-ext q (λ (b : AttendanceRow). record b { note = event.note }) (noted event)
              db.attendance e (λ i. record a { note = noted_blank event a e2 i }),
        ),
      )
      | inr (m, e2) ↦ (
        inr (ground (arith, text_beq_iff m n)),
        unchanged q a db' e (ground arith) (ground (arith, text_beq_iff m n)),
      )
    ]
  ]

  reuse_key_lem :
      (a : AttendanceRow) (r : Inserted) (db' : Db)
      → truthy event.idempotency_key ≡ true
      → find (has_key event.kiosk_id event.idempotency_key) db.attendance ≡ some a
      → reuse_key a event db ≡ ok (r, db')
      → Stored event db r db'
  unfolding reuse_key
  reuse_key_lem a r db' t e h = elim (Result-cases (preserve_note a event db)) [
    | inr (_, failed) ↦ absurd (ground arith)
    | inl (db1, done) ↦
        let (agrees, same) =
          preserve_note_lem (has_key event.kiosk_id event.idempotency_key) a db1 e done in
        retried a t e
          (
            ground (arith, text_beq_iff a.worker_id event.worker_id),
            ground arith,
            ground (arith, text_beq_iff a.timestamp event.timestamp),
          )
          agrees (ground arith) (ground arith)
  ]

  merged_rows :
      (a : AttendanceRow)
      → find (same_punch event) db.attendance ≡ some a
      → patch_row a.id
          (λ (b : AttendanceRow). record b { idempotency_key = event.idempotency_key })
          (update_first (same_punch event) (noted event) db.attendance)
        ≡ update_first
            (same_punch event)
            (λ b. record (noted event b) { idempotency_key = event.idempotency_key })
            db.attendance
  merged_rows a e =
      let q = same_punch event in
      let hit : q (noted event a) ≡ true = find_satisfies q db.attendance e in
      let found = find-update_first q (noted event) db.attendance e hit in
      patch_row-found q
        (λ (b : AttendanceRow). record b { idempotency_key = event.idempotency_key })
        (update_first q (noted event) db.attendance)
        (DistinctIds-update_first q (noted event) db.attendance (λ b. refl) ids) found
      ∙ update_first-twice q (noted event)
          (λ (b : AttendanceRow). record b { idempotency_key = event.idempotency_key })
          db.attendance e hit

  merge_punch_lem :
      (a : AttendanceRow) (r : Inserted) (db' : Db)
      → (truthy event.idempotency_key ≡ false)
        ⊎ ((truthy a.idempotency_key ≡ false)
            × (find (has_key event.kiosk_id event.idempotency_key) db.attendance ≡ none))
      → find (same_punch event) db.attendance ≡ some a
      → merge_punch a event db ≡ ok (r, db')
      → Stored event db r db'
  unfolding merge_punch
  merge_punch_lem a r db' t e h = elim (Result-cases (preserve_note a event db)) [
    | inr (_, failed) ↦ absurd (ground arith)
    | inl (db1, done) ↦
        let (agrees, same) = preserve_note_lem (same_punch event) a db1 e done in
        elim (Bool-cases (truthy event.idempotency_key)) [
          | inl keyed_event ↦
              merged a t e agrees (ground arith) (rw keyed_event (ground (arith, merged_rows a e)))
          | inr keyless ↦ merged a t e agrees (ground arith) (rw keyless (ground arith))
        ]
  ]

  store_punch_lem :
      (r : Inserted) (db' : Db)
      → (truthy event.idempotency_key ≡ false)
        ⊎ (find (has_key event.kiosk_id event.idempotency_key) db.attendance ≡ none)
      → store_punch event db ≡ ok (r, db')
      → Stored event db r db'
  unfolding store_punch
  store_punch_lem r db' t h = elim (Option-cases (find (same_punch event) db.attendance)) [
    | inl e ↦ added t (inl e) (ground arith)
    | inr (a, e) ↦ elim (Bool-cases (truthy event.idempotency_key)) [
      | inl k ↦ elim (Bool-cases (truthy a.idempotency_key)) [
        | inl j ↦ added t (inr k) (ground arith)
        | inr j ↦ merge_punch_lem a r db' (inr (j, ground arith)) e (ground arith)
      ]
      | inr k ↦ merge_punch_lem a r db' (inl k) e (ground arith)
    ]
  ]

-- An accepted event was a retry, a merge or a new row.
pub insert_event_lem :
    (p : Platform) (event : AttendanceEvent) (db : Db) (r : Inserted) (db' : Db)
    → DistinctIds db.attendance
    → insert_event p event db ≡ ok (r, db')
    → Stored event db r db'
unfolding insert_event
insert_event_lem p event db r db' ids h = elim (Bool-cases (truthy event.idempotency_key)) [
  | inl k ↦
      elim (Option-cases (find (has_key event.kiosk_id event.idempotency_key) db.attendance)) [
        | inl e ↦ store_punch_lem event db ids r db' (inr e) (ground arith)
        | inr (a, e) ↦ reuse_key_lem event db ids a r db' k e (ground arith)
      ]
  | inr k ↦ store_punch_lem event db ids r db' (inl k) (ground arith)
]

pub worker-insert_event :
    (p : Platform) (event : AttendanceEvent) (db : Db) (r : Inserted) (db' : Db)
    → insert_event p event db ≡ ok (r, db')
    → worker_exists p event.worker_id db ≡ true
unfolding insert_event
worker-insert_event p event db r db' h = ground arith
