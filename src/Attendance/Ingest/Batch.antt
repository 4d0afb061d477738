-- ===== src/Attendance/Ingest/Batch.antt =====
-- convex/attendance.ts: `bulkCreateFromHttp`. A batch is stored whole, and can be sent again.
use fw_gatekeeper.Prelude.{
  ℕ, suc, Bool, true, some, List, [], ◌∷◌, ◌≡◌, refl, ap, ◌∙◌, inl, inr, arith,
}
use fw_gatekeeper.Prelude.Tests.{Bool-cases, if◌then◌else◌, option_eq}
use fw_gatekeeper.Prelude.Lists.{find, find_satisfies, All}
use fw_gatekeeper.Prelude.Text.{text_eq, text_beq_iff}
use fw_gatekeeper.Prelude.Result.{ok, Result-cases}
use fw_gatekeeper.Prelude.Ids.{HasIds}
use fw_gatekeeper.Schema.{
  AttendanceRow, attendance_row, Db, Platform, event_type_eq, event_type_beq_iff,
}
use fw_gatekeeper.Attendance.Ingest.{
  AttendanceEvent, Inserted, has_key, same_punch, insert_event, insert_events, worker_exists,
}
use fw_gatekeeper.Attendance.Ingest.Stored.{insert_event_lem, worker-insert_event}
use fw_gatekeeper.Attendance.Ingest.Evidence.{
  AllKept, AllKept-refl, AllKept-trans, insert_event-AllKept, insert_event-HasIds,
}
use fw_gatekeeper.Attendance.Ingest.Keys.{KeysUnique, insert_event-KeysUnique}
use fw_gatekeeper.Attendance.Ingest.Retry.{
  Answers, Answers-insert_event, Stored-Answers, Stored-workers, Stored-receipts,
  worker_exists-workers,
}
use fw_gatekeeper.Attendance.Ingest.Standing.{Answers-Stored}

-- The parts of a successful loop of one event and the rest.
record Steps (p : Platform) (event : AttendanceEvent) (events : List AttendanceEvent) (db : Db)
    (n : ℕ) (db' : Db) : Type 0 where
  one : Inserted
  middle : Db
  synced : ℕ
  first : insert_event p event db ≡ ok (one, middle)
  rest : insert_events p events middle ≡ ok (synced, db')
  count : n ≡ (if one.inserted then suc synced else synced)

insert_events-Steps :
    (p : Platform) (event : AttendanceEvent) (events : List AttendanceEvent) (db : Db) (n : ℕ)
    (db' : Db)
    → insert_events p (event ∷ events) db ≡ ok (n, db')
    → Steps p event events db n db'
unfolding insert_events
insert_events-Steps p event events db n db' h = elim (Result-cases (insert_event p event db)) [
  | inr (_, failed) ↦ absurd (ground arith)
  | inl ((one, middle), first) ↦ elim (Result-cases (insert_events p events middle)) [
    | inr (_, failed) ↦ absurd (ground arith)
    | inl ((synced, last), rest) ↦ record {
      one = one;
      middle = middle;
      synced = synced;
      first = first;
      rest = rest ∙ ground arith;
      count = ground arith;
    }
  ]
]

-- The table of punches as the handlers keep it.
pub record IngestIsValid (db : Db) : Type 0 where
  pub ids : HasIds db.next_id db.attendance
  pub keys : KeysUnique db.attendance

insert_event-IsValid :
    (p : Platform) (event : AttendanceEvent) (db : Db) (r : Inserted) (db' : Db)
    → IngestIsValid db
    → insert_event p event db ≡ ok (r, db')
    → IngestIsValid db'
insert_event-IsValid p event db r db' v h = record {
  ids = insert_event-HasIds p event db r db' v.ids h;
  keys = insert_event-KeysUnique p event db r db' v.ids v.keys h;
}

insert_events_done :
    (p : Platform) (db : Db) (n : ℕ) (db' : Db)
    → insert_events p [] db ≡ ok (n, db')
    → (n ≡ 0) × (db' ≡ db)
unfolding insert_events
insert_events_done p db n db' h = ground arith

-- A batch keeps the ids and the keys in order, and every row that was there.
pub insert_events_keeps :
    (p : Platform) (events : List AttendanceEvent) (db : Db) (n : ℕ) (db' : Db)
    → IngestIsValid db
    → insert_events p events db ≡ ok (n, db')
    → IngestIsValid db' × AllKept db.attendance db'.attendance
insert_events_keeps p [] db n db' v h =
    let (_, same) = insert_events_done p db n db' h in rw same (v, AllKept-refl db.attendance)
insert_events_keeps p (event ∷ events) db n db' v h =
    let s = insert_events-Steps p event events db n db' h in
    let v1 = insert_event-IsValid p event db s.one s.middle v s.first in
    let (v2, kept) = insert_events_keeps p events s.middle s.synced db' v1 s.rest in
    (
      v2,
      AllKept-trans db.attendance s.middle.attendance db'.attendance
          (insert_event-AllKept p event db s.one s.middle v.ids s.first) kept,
    )

-- Each event of the batch is answered by a row, and its worker exists.
abbrev AllAnswered : Platform → List AttendanceEvent → Db → Type 0
AllAnswered p events db =
    All
      (λ (event : AttendanceEvent).
        (worker_exists p event.worker_id db ≡ true) × ((id : ℕ) × Answers event db.attendance id))
      events

workers-insert_events :
    (p : Platform) (events : List AttendanceEvent) (db : Db) (n : ℕ) (db' : Db)
    → IngestIsValid db
    → insert_events p events db ≡ ok (n, db')
    → db'.workers ≡ db.workers
workers-insert_events p [] db n db' v h =
    ap (λ (d : Db). d.workers) (insert_events_done p db n db' h).1
workers-insert_events p (event ∷ events) db n db' v h =
    let s = insert_events-Steps p event events db n db' h in
    let v1 = insert_event-IsValid p event db s.one s.middle v s.first in
    workers-insert_events p events s.middle s.synced db' v1 s.rest
    ∙ Stored-workers event db s.one s.middle
        (insert_event_lem p event db s.one s.middle v.ids.distinct s.first)

pub receipts-insert_events :
    (p : Platform) (events : List AttendanceEvent) (db : Db) (n : ℕ) (db' : Db)
    → IngestIsValid db
    → insert_events p events db ≡ ok (n, db')
    → db'.ingest_receipts ≡ db.ingest_receipts
receipts-insert_events p [] db n db' v h =
    ap (λ (d : Db). d.ingest_receipts) (insert_events_done p db n db' h).1
receipts-insert_events p (event ∷ events) db n db' v h =
    let s = insert_events-Steps p event events db n db' h in
    let v1 = insert_event-IsValid p event db s.one s.middle v s.first in
    receipts-insert_events p events s.middle s.synced db' v1 s.rest
    ∙ Stored-receipts event db s.one s.middle
        (insert_event_lem p event db s.one s.middle v.ids.distinct s.first)

Answers-insert_events :
    (p : Platform) (event : AttendanceEvent) (id : ℕ) (events : List AttendanceEvent) (db : Db)
    (n : ℕ) (db' : Db)
    → IngestIsValid db
    → insert_events p events db ≡ ok (n, db')
    → Answers event db.attendance id
    → Answers event db'.attendance id
Answers-insert_events p event id [] db n db' v h a = rw ((insert_events_done p db n db' h).1) a
Answers-insert_events p event id (other ∷ events) db n db' v h a =
    let s = insert_events-Steps p other events db n db' h in
    let v1 = insert_event-IsValid p other db s.one s.middle v s.first in
    let stored = insert_event_lem p other db s.one s.middle v.ids.distinct s.first in
    Answers-insert_events p event id events s.middle s.synced db' v1 s.rest
      (Answers-Stored event other db s.one s.middle id stored a)

insert_events-AllAnswered :
    (p : Platform) (events : List AttendanceEvent) (db : Db) (n : ℕ) (db' : Db)
    → IngestIsValid db
    → insert_events p events db ≡ ok (n, db')
    → AllAnswered p events db'
insert_events-AllAnswered p [] db n db' v h = tt
insert_events-AllAnswered p (event ∷ events) db n db' v h =
    let s = insert_events-Steps p event events db n db' h in
    let v1 = insert_event-IsValid p event db s.one s.middle v s.first in
    let stored = insert_event_lem p event db s.one s.middle v.ids.distinct s.first in
    (
      (
        worker_exists-workers p event.worker_id db db'
              (workers-insert_events p (event ∷ events) db n db' v h)
            ∙ worker-insert_event p event db s.one s.middle s.first,
        (
          s.one.id,
          Answers-insert_events p event s.one.id events s.middle s.synced db' v1 s.rest
              (Stored-Answers event db s.one s.middle stored),
        ),
      ),
      insert_events-AllAnswered p events s.middle s.synced db' v1 s.rest,
    )

AllAnswered-insert_events :
    (p : Platform) (events : List AttendanceEvent) (db : Db)
    → AllAnswered p events db
    → insert_events p events db ≡ ok (0, db)
unfolding insert_events
AllAnswered-insert_events p [] db h = refl
AllAnswered-insert_events p (event ∷ events) db ((w, (id, a)), h) =
    rw (Answers-insert_event p event db id w a, AllAnswered-insert_events p events db h) refl

-- A batch that was accepted can be sent again: nothing is stored and nothing changes.
pub insert_events_twice :
    (p : Platform) (events : List AttendanceEvent) (db : Db) (n : ℕ) (db' : Db)
    → IngestIsValid db
    → insert_events p events db ≡ ok (n, db')
    → insert_events p events db' ≡ ok (0, db')
insert_events_twice p events db n db' v h =
    AllAnswered-insert_events p events db' (insert_events-AllAnswered p events db n db' v h)

-- A punch with the event's worker, time, kind and kiosk.
abbrev pub OnRecord : List AttendanceRow → AttendanceEvent → Type 0
OnRecord rows event = (a : AttendanceRow) × (find (same_punch event) rows ≡ some a)

find_weaker :
    (q r : AttendanceRow → Bool) (rows : List AttendanceRow) {b : AttendanceRow}
    → find q rows ≡ some b
    → r b ≡ true
    → (a : AttendanceRow) × (find r rows ≡ some a)
unfolding find
find_weaker q r [] e k = cc
find_weaker q r (x ∷ rows) {b} e k = elim (Bool-cases (r x)) [
  | inl good ↦ (x, rw good refl)
  | inr bad ↦ let (a, found) = find_weaker q r rows {b = b} (ground arith) k in (a, rw bad found)
]

Answers-OnRecord :
    (event : AttendanceEvent) (rows : List AttendanceRow) (id : ℕ)
    → Answers event rows id
    → OnRecord rows event
Answers-OnRecord event rows id s = elim s.found [
  | inr (k, e) ↦ (s.row, e)
  | inl (k, e) ↦
      let kiosk = find_satisfies (has_key event.kiosk_id event.idempotency_key) rows e in
      find_weaker (has_key event.kiosk_id event.idempotency_key) (same_punch event) rows e (
        ground (
          arith,
          text_beq_iff s.row.worker_id event.worker_id,
          text_beq_iff s.row.timestamp event.timestamp,
          event_type_beq_iff s.row.event_type event.event_type,
          s.worker,
          s.timestamp,
          s.event_type,
          kiosk,
        ))
]

AllAnswered-OnRecord :
    (p : Platform) (events : List AttendanceEvent) (db : Db)
    → AllAnswered p events db
    → All (OnRecord db.attendance) events
AllAnswered-OnRecord p [] db h = tt
AllAnswered-OnRecord p (event ∷ events) db ((w, (id, a)), h) =
    (Answers-OnRecord event db.attendance id a, AllAnswered-OnRecord p events db h)

-- Every event of an accepted batch is on record.
pub insert_events-OnRecord :
    (p : Platform) (events : List AttendanceEvent) (db : Db) (n : ℕ) (db' : Db)
    → IngestIsValid db
    → insert_events p events db ≡ ok (n, db')
    → All (OnRecord db'.attendance) events
insert_events-OnRecord p events db n db' v h =
    AllAnswered-OnRecord p events db' (insert_events-AllAnswered p events db n db' v h)
