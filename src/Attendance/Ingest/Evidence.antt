-- ===== src/Attendance/Ingest/Evidence.antt =====
-- convex/attendance.ts: an accepted upload loses and rewrites no evidence.
use fw_gatekeeper.Prelude.{
  Bool, false, none, some, List, [], ◌∷◌, ◌++◌, ◌≡◌, ◌⊎◌, refl, ap, subst, inl, inr, arith,
}
use fw_gatekeeper.Prelude.Tests.{Bool-cases, option_eq}
use fw_gatekeeper.Prelude.Lists.{find}
use fw_gatekeeper.Prelude.Text.{text_eq}
use fw_gatekeeper.Prelude.Result.{ok}
use fw_gatekeeper.Prelude.Table.{update_first}
use fw_gatekeeper.Prelude.Ids.{HasIds, HasIds-append, HasIds-update_first}
use fw_gatekeeper.Schema.{AttendanceRow, attendance_row, Db, Platform, event_type_eq}
use fw_gatekeeper.Attendance.Ingest.{
  AttendanceEvent, Inserted, truthy, has_key, same_punch, row_of, add_punch, insert_event,
}
use fw_gatekeeper.Attendance.Ingest.Stored.{
  noted, keyed, Stored, retried, merged, added, insert_event_lem,
}

-- What a later state of the table keeps of a row. A note that is there stays as it is, and so does
-- a key; all else never changes.
pub record Kept (a b : AttendanceRow) : Type 0 where
  pub id : b.id ≡ a.id
  pub worker_id : b.worker_id ≡ a.worker_id
  pub event_type : b.event_type ≡ a.event_type
  pub kiosk_id : b.kiosk_id ≡ a.kiosk_id
  pub timestamp : b.timestamp ≡ a.timestamp
  pub synced : b.synced ≡ a.synced
  pub worker_name : b.worker_name ≡ a.worker_name
  pub confidence : b.confidence ≡ a.confidence
  pub liveness : b.liveness_confirmed ≡ a.liveness_confirmed
  pub note : (a.note ≡ none) ⊎ (b.note ≡ a.note)
  pub key : (truthy a.idempotency_key ≡ false) ⊎ (b.idempotency_key ≡ a.idempotency_key)

pub Kept-refl : (a : AttendanceRow) → Kept a a
Kept-refl a = ground arith

Kept-trans : (a b c : AttendanceRow) → Kept a b → Kept b c → Kept a c
Kept-trans a b c h k = ground arith

-- Every row of the first table is kept at its place in the second.
abbrev pub AllKept : List AttendanceRow → List AttendanceRow → Type 0
AllKept [] ys = Unit
AllKept (x ∷ xs) [] = ⊥
AllKept (x ∷ xs) (y ∷ ys) = Kept x y × AllKept xs ys

pub AllKept-refl : (xs : List AttendanceRow) → AllKept xs xs
AllKept-refl [] = tt
AllKept-refl (x ∷ xs) = (Kept-refl x, AllKept-refl xs)

pub AllKept-trans : (xs ys zs : List AttendanceRow) → AllKept xs ys → AllKept ys zs → AllKept xs zs
AllKept-trans [] ys zs h k = tt
AllKept-trans (x ∷ xs) [] zs h k = absurd h
AllKept-trans (x ∷ xs) (y ∷ ys) [] h k = absurd k
AllKept-trans (x ∷ xs) (y ∷ ys) (z ∷ zs) (p, h) (q, k) =
    (Kept-trans x y z p q, AllKept-trans xs ys zs h k)

AllKept-append : (xs ys : List AttendanceRow) → AllKept xs (xs ++ ys)
AllKept-append [] ys = tt
AllKept-append (x ∷ xs) ys = (Kept-refl x, AllKept-append xs ys)

AllKept-update_first :
    (q : AttendanceRow → Bool) (f : AttendanceRow → AttendanceRow) (xs : List AttendanceRow)
    {a : AttendanceRow}
    → find q xs ≡ some a
    → Kept a (f a)
    → AllKept xs (update_first q f xs)
unfolding find update_first
AllKept-update_first q f [] e k = tt
AllKept-update_first q f (x ∷ xs) {a} e k = elim (Bool-cases (q x)) [
  | inl hit ↦
      let same : a ≡ x = ground arith in rw hit (subst (λ b. Kept b (f b)) same k, AllKept-refl xs)
  | inr miss ↦ rw miss (Kept-refl x, AllKept-update_first q f xs (ground arith) k)
]

pub Kept-noted : (event : AttendanceEvent) (a : AttendanceRow) → Kept a (noted event a)
Kept-noted event a = ground arith

Kept-keyed :
    (event : AttendanceEvent) (a : AttendanceRow)
    → (truthy event.idempotency_key ≡ false) ⊎ (truthy a.idempotency_key ≡ false)
    → Kept a (keyed event a)
Kept-keyed event a h = ground arith

pub Kept-merged :
    {P : Type 0} (event : AttendanceEvent) (a : AttendanceRow)
    → (truthy event.idempotency_key ≡ false) ⊎ ((truthy a.idempotency_key ≡ false) × P)
    → Kept a (keyed event (noted event a))
Kept-merged event a (inl h) =
    Kept-trans a (noted event a) (keyed event (noted event a)) (Kept-noted event a)
      (Kept-keyed event (noted event a) (inl h))
Kept-merged event a (inr h) =
    Kept-trans a (noted event a) (keyed event (noted event a)) (Kept-noted event a)
      (Kept-keyed event (noted event a) (inr h.0))

Stored-AllKept :
    (event : AttendanceEvent) (db : Db) (r : Inserted) (db' : Db)
    → Stored event db r db'
    → AllKept db.attendance db'.attendance
unfolding add_punch
Stored-AllKept event db r db' (retried a t e same agrees er ed) = rw ed (
    AllKept-update_first (has_key event.kiosk_id event.idempotency_key) (noted event) db.attendance
      e (Kept-noted event a))
Stored-AllKept event db r db' (merged a t e agrees er ed) = rw ed (
    AllKept-update_first (same_punch event) (λ b. keyed event (noted event b)) db.attendance e
      (Kept-merged event a t))
Stored-AllKept event db r db' (added t u e) =
    rw (ap (λ (s : Inserted × Db). s.1) e) (AllKept-append db.attendance _)

-- An accepted event keeps every row that was there.
pub insert_event-AllKept :
    (p : Platform) (event : AttendanceEvent) (db : Db) (r : Inserted) (db' : Db)
    → HasIds db.next_id db.attendance
    → insert_event p event db ≡ ok (r, db')
    → AllKept db.attendance db'.attendance
insert_event-AllKept p event db r db' ids h =
    Stored-AllKept event db r db' (insert_event_lem p event db r db' ids.distinct h)

Stored-HasIds :
    (event : AttendanceEvent) (db : Db) (r : Inserted) (db' : Db)
    → HasIds db.next_id db.attendance
    → Stored event db r db'
    → HasIds db'.next_id db'.attendance
unfolding add_punch
Stored-HasIds event db r db' ids (retried a t e same agrees er ed) =
    rw ed (HasIds-update_first db.next_id _ (noted event) db.attendance (λ b. refl) ids)
Stored-HasIds event db r db' ids (merged a t e agrees er ed) = rw ed (
    HasIds-update_first db.next_id _ (λ b. keyed event (noted event b)) db.attendance
      (λ b. ground arith) ids)
Stored-HasIds event db r db' ids (added t u e) =
    rw (ap (λ (s : Inserted × Db). s.1) e)
      (HasIds-append db.next_id db.attendance (row_of db.next_id event) refl ids)

-- The ids stay distinct and below the counter.
pub insert_event-HasIds :
    (p : Platform) (event : AttendanceEvent) (db : Db) (r : Inserted) (db' : Db)
    → HasIds db.next_id db.attendance
    → insert_event p event db ≡ ok (r, db')
    → HasIds db'.next_id db'.attendance
insert_event-HasIds p event db r db' ids h =
    Stored-HasIds event db r db' ids (insert_event_lem p event db r db' ids.distinct h)
