-- ===== src/Attendance/Ingest/Retry.antt =====
-- convex/attendance.ts: an upload that is sent again stores nothing more.
use fw_gatekeeper.Prelude.{
  ℕ, true, false, none, some, List, [], ◌∷◌, ◌++◌, ◌≡◌, ◌⊎◌, refl, ap, ◌∙◌, inl, inr, arith,
}
use fw_gatekeeper.Prelude.Tests.{Bool-cases, Option-cases, eq_refl, option_eq}
use fw_gatekeeper.Prelude.Lists.{find, find-append, find_head, find_satisfies}
use fw_gatekeeper.Prelude.Text.{Text, text_eq, text_beq_iff}
use fw_gatekeeper.Prelude.Result.{ok}
use fw_gatekeeper.Prelude.Table.{update_first, find-update_first, find-update_first_new}
use fw_gatekeeper.Prelude.Ids.{HasIds}
use fw_gatekeeper.Schema.{AttendanceRow, attendance_row, Db, Platform, event_type_eq}
use fw_gatekeeper.Attendance.Ingest.{
  AttendanceEvent, Inserted, truthy, has_key, same_punch, row_of, add_punch, preserve_note,
  reuse_key, merge_punch, store_punch, insert_event, worker_exists,
}
use fw_gatekeeper.Attendance.Ingest.Stored.{
  noted, keyed, NoteAgrees, Stored, retried, merged, added, insert_event_lem, worker-insert_event,
}

-- A row that answers a repeated event: the row that is found, with the evidence of the event.
pub record Answers (event : AttendanceEvent) (rows : List AttendanceRow) (id : ℕ) : Type 0 where
  pub row : AttendanceRow
  pub same_id : row.id ≡ id
  pub note : (event.note ≡ none) ⊎ (row.note ≡ event.note)
  pub worker : row.worker_id ≡ event.worker_id
  pub event_type : row.event_type ≡ event.event_type
  pub timestamp : row.timestamp ≡ event.timestamp
  pub found :
      ((truthy event.idempotency_key ≡ true)
        × (find (has_key event.kiosk_id event.idempotency_key) rows ≡ some row))
      ⊎ ((truthy event.idempotency_key ≡ false) × (find (same_punch event) rows ≡ some row))

preserve_note_again :
    (a : AttendanceRow) (event : AttendanceEvent) (db : Db)
    → (event.note ≡ none) ⊎ (a.note ≡ event.note)
    → preserve_note a event db ≡ ok db
unfolding preserve_note
preserve_note_again a event db (inl h) = rw h refl
preserve_note_again a event db (inr h) = elim (Option-cases event.note) [
  | inl e ↦ rw e refl
  | inr (n, e) ↦ ground (arith, text_beq_iff n n)
]

again-reuse_key :
    (a : AttendanceRow) (event : AttendanceEvent) (db : Db)
    → (event.note ≡ none) ⊎ (a.note ≡ event.note)
    → a.worker_id ≡ event.worker_id
    → a.event_type ≡ event.event_type
    → a.timestamp ≡ event.timestamp
    → reuse_key a event db ≡ ok (record { id = a.id; inserted = false }, db)
unfolding reuse_key
again-reuse_key a event db n w t s = ground (
  arith,
  preserve_note_again a event db n,
  text_beq_iff a.worker_id event.worker_id,
  text_beq_iff a.timestamp event.timestamp,
)

again-store_punch :
    (a : AttendanceRow) (event : AttendanceEvent) (db : Db)
    → (event.note ≡ none) ⊎ (a.note ≡ event.note)
    → truthy event.idempotency_key ≡ false
    → find (same_punch event) db.attendance ≡ some a
    → store_punch event db ≡ ok (record { id = a.id; inserted = false }, db)
unfolding store_punch merge_punch
again-store_punch a event db n k e = ground (arith, preserve_note_again a event db n)

pub Answers-insert_event :
    (p : Platform) (event : AttendanceEvent) (db : Db) (id : ℕ)
    → worker_exists p event.worker_id db ≡ true
    → Answers event db.attendance id
    → insert_event p event db ≡ ok (record { id = id; inserted = false }, db)
unfolding insert_event
Answers-insert_event p event db id w s = elim s.found [
  | inl (k, e) ↦
      ground (arith, again-reuse_key s.row event db s.note s.worker s.event_type s.timestamp)
  | inr (k, e) ↦ ground (arith, again-store_punch s.row event db s.note k e)
]

same_punch-keyed :
    (event : AttendanceEvent) (a : AttendanceRow)
    → same_punch event a ≡ true
    → same_punch event (keyed event (noted event a)) ≡ true
same_punch-keyed event a h = ground arith

has_key-keyed :
    (event : AttendanceEvent) (a : AttendanceRow)
    → truthy event.idempotency_key ≡ true
    → same_punch event a ≡ true
    → has_key event.kiosk_id event.idempotency_key (keyed event (noted event a)) ≡ true
has_key-keyed event a k h = rw k (ground (arith, eq_refl event.idempotency_key))

has_key-row_of :
    (event : AttendanceEvent) (id : ℕ)
    → has_key event.kiosk_id event.idempotency_key (row_of id event) ≡ true
has_key-row_of event id = ground (arith, eq_refl event.kiosk_id, eq_refl event.idempotency_key)

same_punch-row_of : (event : AttendanceEvent) (id : ℕ) → same_punch event (row_of id event) ≡ true
same_punch-row_of event id = ground (
  arith,
  eq_refl event.worker_id,
  eq_refl event.timestamp,
  eq_refl event.event_type,
  eq_refl event.kiosk_id,
)

same_punch_lem :
    (event : AttendanceEvent) (a : AttendanceRow)
    → same_punch event a ≡ true
    → (a.worker_id ≡ event.worker_id)
      × (a.event_type ≡ event.event_type)
      × (a.timestamp ≡ event.timestamp)
same_punch_lem event a h = (
  ground (arith, text_beq_iff a.worker_id event.worker_id),
  ground arith,
  ground (arith, text_beq_iff a.timestamp event.timestamp),
)

module _ (event : AttendanceEvent) (rows : List AttendanceRow) (a : AttendanceRow) where
  abbrev merge : AttendanceRow → AttendanceRow
  merge b = keyed event (noted event b)

  merge_found :
      find (same_punch event) rows ≡ some a
      → (truthy event.idempotency_key ≡ false)
        ⊎ ((truthy a.idempotency_key ≡ false)
            × (find (has_key event.kiosk_id event.idempotency_key) rows ≡ none))
      → ((truthy event.idempotency_key ≡ true)
          × (find
                (has_key event.kiosk_id event.idempotency_key)
                (update_first (same_punch event) merge rows)
              ≡ some (merge a)))
        ⊎ ((truthy event.idempotency_key ≡ false)
            × (find (same_punch event) (update_first (same_punch event) merge rows)
                ≡ some (merge a)))
  merge_found e t =
      let q = same_punch event in
      let hit : q a ≡ true = find_satisfies q rows e in
      elim (Bool-cases (truthy event.idempotency_key)) [
        | inl k ↦ inl (
          k,
          find-update_first_new q (has_key event.kiosk_id event.idempotency_key) merge rows e
              (ground arith) (has_key-keyed event a k hit),
        )
        | inr k ↦ inr (k, find-update_first q merge rows e (same_punch-keyed event a hit))
      ]

  Answers-merge :
      find (same_punch event) rows ≡ some a
      → (truthy event.idempotency_key ≡ false)
        ⊎ ((truthy a.idempotency_key ≡ false)
            × (find (has_key event.kiosk_id event.idempotency_key) rows ≡ none))
      → NoteAgrees event a
      → Answers event (update_first (same_punch event) merge rows) a.id
  Answers-merge e t agrees =
      let (w, y, s) = same_punch_lem event a (find_satisfies (same_punch event) rows e) in
      record {
        row = merge a;
        same_id = ground arith;
        note = ground (arith, agrees);
        worker = ground (arith, w);
        event_type = ground (arith, y);
        timestamp = ground (arith, s);
        found = merge_found e t;
      }

added_found :
    (event : AttendanceEvent) (rows : List AttendanceRow) (id : ℕ)
    → (truthy event.idempotency_key ≡ false)
      ⊎ (find (has_key event.kiosk_id event.idempotency_key) rows ≡ none)
    → (find (same_punch event) rows ≡ none) ⊎ (truthy event.idempotency_key ≡ true)
    → ((truthy event.idempotency_key ≡ true)
        × (find (has_key event.kiosk_id event.idempotency_key) (rows ++ row_of id event ∷ [])
            ≡ some (row_of id event)))
      ⊎ ((truthy event.idempotency_key ≡ false)
          × (find (same_punch event) (rows ++ row_of id event ∷ []) ≡ some (row_of id event)))
added_found event rows id t u = elim (Bool-cases (truthy event.idempotency_key)) [
  | inl k ↦
      let q = has_key event.kiosk_id event.idempotency_key in
      let nokey : find q rows ≡ none = ground arith in
      inl (
        k,
        find-append q rows _
            ∙ rw nokey (find_head q (row_of id event) [] (has_key-row_of event id)),
      )
  | inr k ↦
      let q = same_punch event in
      let nopunch : find q rows ≡ none = ground arith in
      inr (
        k,
        find-append q rows _
            ∙ rw nopunch (find_head q (row_of id event) [] (same_punch-row_of event id)),
      )
]

pub Stored-Answers :
    (event : AttendanceEvent) (db : Db) (r : Inserted) (db' : Db)
    → Stored event db r db'
    → Answers event db'.attendance r.id
unfolding add_punch
Stored-Answers event db r db' (retried a t e same agrees er ed) =
    let q = has_key event.kiosk_id event.idempotency_key in
    rw (er, ed)
      (record {
        row = noted event a;
        same_id = refl;
        note = agrees;
        worker = same.0;
        event_type = same.1;
        timestamp = same.2;
        found = inl (
          t,
          find-update_first q (noted event) db.attendance e (find_satisfies q db.attendance e),
        );
      })
Stored-Answers event db r db' (merged a t e agrees er ed) =
    rw (er, ed) (Answers-merge event db.attendance a e t agrees)
Stored-Answers event db r db' (added t u e) =
    rw (ap (λ (s : Inserted × Db). s.0) e, ap (λ (s : Inserted × Db). s.1) e)
      (record {
        row = row_of db.next_id event;
        same_id = refl;
        note = inr refl;
        worker = refl;
        event_type = refl;
        timestamp = refl;
        found = added_found event db.attendance db.next_id t u;
      })

pub Stored-workers :
    (event : AttendanceEvent) (db : Db) (r : Inserted) (db' : Db)
    → Stored event db r db'
    → db'.workers ≡ db.workers
unfolding add_punch
Stored-workers event db r db' (retried a t e same agrees er ed) = rw ed refl
Stored-workers event db r db' (merged a t e agrees er ed) = rw ed refl
Stored-workers event db r db' (added t u e) = rw (ap (λ (s : Inserted × Db). s.1) e) refl

pub Stored-receipts :
    (event : AttendanceEvent) (db : Db) (r : Inserted) (db' : Db)
    → Stored event db r db'
    → db'.ingest_receipts ≡ db.ingest_receipts
unfolding add_punch
Stored-receipts event db r db' (retried a t e same agrees er ed) = rw ed refl
Stored-receipts event db r db' (merged a t e agrees er ed) = rw ed refl
Stored-receipts event db r db' (added t u e) = rw (ap (λ (s : Inserted × Db). s.1) e) refl

pub worker_exists-workers :
    (p : Platform) (id : Text) (a b : Db)
    → b.workers ≡ a.workers
    → worker_exists p id b ≡ worker_exists p id a
unfolding worker_exists
worker_exists-workers p id a b h = rw h refl

-- An event that was accepted is accepted again with the same id, is not counted as new, and
-- leaves the store as it is. (The ids of the table are distinct, as the platform makes them.)
pub insert_event_twice :
    (p : Platform) (event : AttendanceEvent) (db : Db) (r : Inserted) (db' : Db)
    → HasIds db.next_id db.attendance
    → insert_event p event db ≡ ok (r, db')
    → insert_event p event db' ≡ ok (record { id = r.id; inserted = false }, db')
insert_event_twice p event db r db' ids h =
    let stored = insert_event_lem p event db r db' ids.distinct h in
    Answers-insert_event p event db' r.id
      (worker_exists-workers p event.worker_id db db' (Stored-workers event db r db' stored)
        ∙ worker-insert_event p event db r db' h)
      (Stored-Answers event db r db' stored)
