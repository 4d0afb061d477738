-- ===== src/Attendance/Ingest/Standing.antt =====
-- convex/attendance.ts: a row that answers a repeated event stays its answer after other events.
use fw_gatekeeper.Prelude.{
  ℕ, Bool, true, false, Option, none, some, List, ◌++◌, ◌≡◌, ◌⊎◌, refl, sym, ap, ◌∙◌, subst, inl,
  inr, arith,
}
use fw_gatekeeper.Prelude.Tests.{Bool-cases, option_eq, option_beq_iff}
use fw_gatekeeper.Prelude.Lists.{find, find-append, find_satisfies}
use fw_gatekeeper.Prelude.Text.{Text, text_eq}
use fw_gatekeeper.Prelude.Table.{update_first, find-update_first_other}
use fw_gatekeeper.Schema.{AttendanceRow, attendance_row, Db, event_type_eq}
use fw_gatekeeper.Attendance.Ingest.{
  AttendanceEvent, Inserted, truthy, has_key, same_punch, add_punch,
}
use fw_gatekeeper.Attendance.Ingest.Stored.{noted, keyed, Stored, retried, merged, added}
use fw_gatekeeper.Attendance.Ingest.Evidence.{Kept, Kept-refl, Kept-noted, Kept-merged}
use fw_gatekeeper.Attendance.Ingest.Retry.{Answers}

key_apart_of_blank :
    (kiosk key : Option Text) (a : AttendanceRow)
    → truthy key ≡ true
    → truthy a.idempotency_key ≡ false
    → has_key kiosk key a ≡ false
key_apart_of_blank kiosk key a k n = elim (Bool-cases (has_key kiosk key a)) [
  | inl e ↦ absurd (ground (arith, option_beq_iff a.idempotency_key key))
  | inr e ↦ e
]

same_key_absurd :
    (other : AttendanceEvent) (rows : List AttendanceRow) (a b : AttendanceRow)
    (kiosk key : Option Text)
    → find (has_key kiosk key) rows ≡ some b
    → find (has_key other.kiosk_id other.idempotency_key) rows ≡ none
    → a.kiosk_id ≡ other.kiosk_id
    → truthy other.idempotency_key ≡ true
    → has_key kiosk key (keyed other (noted other a)) ≡ true
    → ⊥
same_key_absurd other rows a b kiosk key fb none_ here k e =
    let same_kiosk : kiosk ≡ other.kiosk_id = ground (arith, option_beq_iff a.kiosk_id kiosk) in
    let same_key : key ≡ other.idempotency_key =
      ground (arith, option_beq_iff other.idempotency_key key) in
    cc (fb, none_, same_kiosk, same_key)

-- The row that a key finds stays in place when another event is merged.
has_key-merge :
    (other : AttendanceEvent) (rows : List AttendanceRow) (a b : AttendanceRow)
    (kiosk key : Option Text)
    → truthy key ≡ true
    → find (has_key kiosk key) rows ≡ some b
    → find (same_punch other) rows ≡ some a
    → (truthy other.idempotency_key ≡ false)
      ⊎ ((truthy a.idempotency_key ≡ false)
          × (find (has_key other.kiosk_id other.idempotency_key) rows ≡ none))
    → has_key kiosk key (keyed other (noted other a)) ≡ has_key kiosk key a
has_key-merge other rows a b kiosk key k fb fa (inl t) = ground arith
has_key-merge other rows a b kiosk key k fb fa (inr t) =
    elim (Bool-cases (truthy other.idempotency_key)) [
      | inr keyless ↦ ground arith
      | inl with_key ↦
          let hit : same_punch other a ≡ true = find_satisfies (same_punch other) rows fa in
          let here : a.kiosk_id ≡ other.kiosk_id =
            ground (arith, option_beq_iff a.kiosk_id other.kiosk_id) in
          let apart : has_key kiosk key a ≡ false = key_apart_of_blank kiosk key a k t.0 in
          elim (Bool-cases (has_key kiosk key (keyed other (noted other a)))) [
            | inr e ↦ e ∙ sym apart
            | inl e ↦ absurd (same_key_absurd other rows a b kiosk key fb t.1 here with_key e)
          ]
    ]

-- What finds the row of a repeated event finds it after another event too.
record FoundAfter (q : AttendanceRow → Bool) (rows : List AttendanceRow) (b : AttendanceRow)
    : Type 0 where
  row : AttendanceRow
  found : find q rows ≡ some row
  kept : Kept b row

FoundAfter-update :
    (q r : AttendanceRow → Bool) (f : AttendanceRow → AttendanceRow) (rows : List AttendanceRow)
    (a b : AttendanceRow)
    → find r rows ≡ some a
    → find q rows ≡ some b
    → q (f a) ≡ q a
    → Kept a (f a)
    → FoundAfter q (update_first r f rows) b
FoundAfter-update q r f rows a b fa fb same kept =
    let (row, found, which) = find-update_first_other r q f rows fa fb same in
    record {
      row = row;
      found = found;
      kept = elim which [
        | inl e ↦ rw e (Kept-refl b)
        | inr e ↦ rw e.0 (subst (λ x. Kept x (f x)) e.1 kept)
      ];
    }

FoundAfter-append :
    (q : AttendanceRow → Bool) (rows more : List AttendanceRow) (b : AttendanceRow)
    → find q rows ≡ some b
    → FoundAfter q (rows ++ more) b
FoundAfter-append q rows more b e = record {
  row = b;
  found = find-append q rows more ∙ rw e refl;
  kept = Kept-refl b;
}

same_punch-merge :
    (event other : AttendanceEvent) (a : AttendanceRow)
    → same_punch event (keyed other (noted other a)) ≡ same_punch event a
same_punch-merge event other a = ground arith

FoundAfter-same_punch :
    (event other : AttendanceEvent) (db : Db) (r : Inserted) (db' : Db) (b : AttendanceRow)
    → Stored other db r db'
    → find (same_punch event) db.attendance ≡ some b
    → FoundAfter (same_punch event) db'.attendance b
unfolding add_punch
FoundAfter-same_punch event other db r db' b (retried a t e same agrees er ed) h = rw ed (
    FoundAfter-update (same_punch event) _ (noted other) db.attendance a b e h refl
      (Kept-noted other a))
FoundAfter-same_punch event other db r db' b (merged a t e agrees er ed) h = rw ed (
    FoundAfter-update (same_punch event) (same_punch other) (λ x. keyed other (noted other x))
      db.attendance a b e h (same_punch-merge event other a) (Kept-merged other a t))
FoundAfter-same_punch event other db r db' b (added t u e) h =
    rw (ap (λ (s : Inserted × Db). s.1) e)
      (FoundAfter-append (same_punch event) db.attendance _ b h)

FoundAfter-has_key :
    (kiosk key : Option Text) (other : AttendanceEvent) (db : Db) (r : Inserted) (db' : Db)
    (b : AttendanceRow)
    → truthy key ≡ true
    → Stored other db r db'
    → find (has_key kiosk key) db.attendance ≡ some b
    → FoundAfter (has_key kiosk key) db'.attendance b
unfolding add_punch
FoundAfter-has_key kiosk key other db r db' b k (retried a t e same agrees er ed) h = rw ed (
    FoundAfter-update (has_key kiosk key) _ (noted other) db.attendance a b e h refl
      (Kept-noted other a))
FoundAfter-has_key kiosk key other db r db' b k (merged a t e agrees er ed) h = rw ed (
    FoundAfter-update (has_key kiosk key) (same_punch other) (λ x. keyed other (noted other x))
      db.attendance a b e h (has_key-merge other db.attendance a b kiosk key k h e t)
      (Kept-merged other a t))
FoundAfter-has_key kiosk key other db r db' b k (added t u e) h =
    rw (ap (λ (s : Inserted × Db). s.1) e)
      (FoundAfter-append (has_key kiosk key) db.attendance _ b h)

Answers-Kept :
    (event : AttendanceEvent) (rows rows' : List AttendanceRow) (id : ℕ) (s : Answers event rows id)
    (c : AttendanceRow)
    → Kept s.row c
    → ((truthy event.idempotency_key ≡ true)
        × (find (has_key event.kiosk_id event.idempotency_key) rows' ≡ some c))
      ⊎ ((truthy event.idempotency_key ≡ false) × (find (same_punch event) rows' ≡ some c))
    → Answers event rows' id
Answers-Kept event rows rows' id s c kept found = record {
  row = c;
  same_id = kept.id ∙ s.same_id;
  note = ground (arith, kept.note, s.note);
  worker = kept.worker_id ∙ s.worker;
  event_type = kept.event_type ∙ s.event_type;
  timestamp = kept.timestamp ∙ s.timestamp;
  found = found;
}

-- What answers an event goes on answering it after another one.
pub Answers-Stored :
    (event other : AttendanceEvent) (db : Db) (r : Inserted) (db' : Db) (id : ℕ)
    → Stored other db r db'
    → Answers event db.attendance id
    → Answers event db'.attendance id
Answers-Stored event other db r db' id stored s = elim s.found [
  | inl (k, e) ↦
      let after =
        FoundAfter-has_key event.kiosk_id event.idempotency_key other db r db' s.row k stored e in
      Answers-Kept event db.attendance db'.attendance id s after.row after.kept
        (inl (k, after.found))
  | inr (k, e) ↦
      let after = FoundAfter-same_punch event other db r db' s.row stored e in
      Answers-Kept event db.attendance db'.attendance id s after.row after.kept
        (inr (k, after.found))
]
