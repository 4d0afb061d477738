-- ===== src/Attendance/Ingest/Keys.antt =====
-- convex/attendance.ts: one idempotency key of a kiosk names one punch.
use fw_gatekeeper.Prelude.{
  Bool, true, false, none, some, List, [], ◌∷◌, ◌++◌, ◌≡◌, ◌⊎◌, refl, ap, inl, inr, arith,
}
use fw_gatekeeper.Prelude.Tests.{Bool-cases, option_eq, option_beq_iff}
use fw_gatekeeper.Prelude.Lists.{find, find_satisfies}
use fw_gatekeeper.Prelude.Text.{text_eq}
use fw_gatekeeper.Prelude.Result.{ok}
use fw_gatekeeper.Prelude.Table.{update_first, find-update_first-none}
use fw_gatekeeper.Prelude.Ids.{HasIds}
use fw_gatekeeper.Schema.{AttendanceRow, attendance_row, Db, Platform, event_type_eq}
use fw_gatekeeper.Attendance.Ingest.{
  AttendanceEvent, Inserted, truthy, has_key, same_punch, row_of, add_punch, insert_event,
}
use fw_gatekeeper.Attendance.Ingest.Stored.{
  noted, keyed, Stored, retried, merged, added, insert_event_lem,
}

-- No key of a row names a later row too. (A key that is missing or empty names nothing.)
abbrev pub KeysUnique : List AttendanceRow → Type 0
KeysUnique [] = Unit
KeysUnique (x ∷ xs) =
    (truthy x.idempotency_key ≡ true → find (has_key x.kiosk_id x.idempotency_key) xs ≡ none)
    × KeysUnique xs

has_key_sym :
    (a b : AttendanceRow)
    → has_key a.kiosk_id a.idempotency_key b ≡ true
    → has_key b.kiosk_id b.idempotency_key a ≡ true
has_key_sym a b h = ground (
  arith,
  option_beq_iff a.kiosk_id b.kiosk_id,
  option_beq_iff b.kiosk_id a.kiosk_id,
  option_beq_iff a.idempotency_key b.idempotency_key,
  option_beq_iff b.idempotency_key a.idempotency_key,
)

find-none :
    (q : AttendanceRow → Bool) (x : AttendanceRow) (xs : List AttendanceRow)
    → find q (x ∷ xs) ≡ none
    → (q x ≡ false) × (find q xs ≡ none)
unfolding find
find-none q x xs h = ground arith

find_found :
    (q : AttendanceRow → Bool) (x : AttendanceRow) (xs : List AttendanceRow) {a : AttendanceRow}
    → find q (x ∷ xs) ≡ some a
    → ((q x ≡ true) × (a ≡ x)) ⊎ ((q x ≡ false) × (find q xs ≡ some a))
unfolding find
find_found q x xs h = ground arith

pub find-none_at :
    (q r : AttendanceRow → Bool) (xs : List AttendanceRow) {a : AttendanceRow}
    → find q xs ≡ some a
    → find r xs ≡ none
    → r a ≡ false
unfolding find
find-none_at q r [] e n = cc
find-none_at q r (x ∷ xs) {a} e n = ground (arith, find-none_at q r xs {a = a})

module _ (q : AttendanceRow → Bool) (f : AttendanceRow → AttendanceRow) (a : AttendanceRow)
    (same_kiosk : (f a).kiosk_id ≡ a.kiosk_id) where
  has_key_other :
      (x : AttendanceRow)
      → has_key (f a).kiosk_id (f a).idempotency_key x ≡ false
      → has_key x.kiosk_id x.idempotency_key (f a) ≡ false
  has_key_other x h = elim (Bool-cases (has_key x.kiosk_id x.idempotency_key (f a))) [
    | inl e ↦ absurd (cc (h, has_key_sym x (f a) e))
    | inr e ↦ e
  ]

  -- The row that is written takes a key that no row has.
  KeysUnique-new_key :
      (xs : List AttendanceRow)
      → find q xs ≡ some a
      → find (has_key (f a).kiosk_id (f a).idempotency_key) xs ≡ none
      → KeysUnique xs
      → KeysUnique (update_first q f xs)
  unfolding update_first
  KeysUnique-new_key [] e n h = tt
  KeysUnique-new_key (x ∷ xs) e n (h, hs) =
      let (head, rest) = find-none (has_key (f a).kiosk_id (f a).idempotency_key) x xs n in
      elim (find_found q x xs e) [
        | inl (hit, same) ↦ rw hit (λ t. rw (← same) rest, hs)
        | inr (miss, later) ↦ rw miss (
          λ t.
              find-update_first-none q (has_key x.kiosk_id x.idempotency_key) f xs later (h t)
                (has_key_other x head),
          KeysUnique-new_key xs later rest hs,
        )
      ]

  -- The row that is written keeps its key.
  KeysUnique-same_key :
      (xs : List AttendanceRow)
      → find q xs ≡ some a
      → (f a).idempotency_key ≡ a.idempotency_key
      → KeysUnique xs
      → KeysUnique (update_first q f xs)
  unfolding update_first
  KeysUnique-same_key [] e k h = tt
  KeysUnique-same_key (x ∷ xs) e k (h, hs) = elim (find_found q x xs e) [
    | inl (hit, same) ↦ rw hit (rw (← same) (rw (same_kiosk, k) (rw same h)), hs)
    | inr (miss, later) ↦ rw miss (
      λ t. find-update_first-none q (has_key x.kiosk_id x.idempotency_key) f xs later (h t) (
          rw (same_kiosk, k)
            (find-none_at q (has_key x.kiosk_id x.idempotency_key) xs later (h t))),
      KeysUnique-same_key xs later k hs,
    )
  ]

find-none_last :
    (q : AttendanceRow → Bool) (xs : List AttendanceRow) (b : AttendanceRow)
    → find q xs ≡ none
    → q b ≡ false
    → find q (xs ++ b ∷ []) ≡ none
unfolding find
find-none_last q [] b n m = rw m refl
find-none_last q (x ∷ xs) b n m = ground (arith, find-none_last q xs b)

key_apart :
    (x b : AttendanceRow)
    → truthy x.idempotency_key ≡ true
    → (truthy b.idempotency_key ≡ false) ⊎ (has_key b.kiosk_id b.idempotency_key x ≡ false)
    → has_key x.kiosk_id x.idempotency_key b ≡ false
key_apart x b t n = elim (Bool-cases (has_key x.kiosk_id x.idempotency_key b)) [
  | inl e ↦
      absurd
        (ground (arith, n, has_key_sym x b e, option_beq_iff b.idempotency_key x.idempotency_key))
  | inr e ↦ e
]

KeysUnique-append :
    (xs : List AttendanceRow) (b : AttendanceRow)
    → (truthy b.idempotency_key ≡ false) ⊎ (find (has_key b.kiosk_id b.idempotency_key) xs ≡ none)
    → KeysUnique xs
    → KeysUnique (xs ++ b ∷ [])
KeysUnique-append [] b n h = (λ t. unfold find in refl, tt)
KeysUnique-append (x ∷ xs) b (inl n) (h, hs) = (
  λ t. find-none_last (has_key x.kiosk_id x.idempotency_key) xs b (h t) (key_apart x b t (inl n)),
  KeysUnique-append xs b (inl n) hs,
)
KeysUnique-append (x ∷ xs) b (inr n) (h, hs) =
    let (head, rest) = find-none (has_key b.kiosk_id b.idempotency_key) x xs n in
    (
      λ t.
          find-none_last (has_key x.kiosk_id x.idempotency_key) xs b (h t)
            (key_apart x b t (inr head)),
      KeysUnique-append xs b (inr rest) hs,
    )

keyed_fields :
    (event : AttendanceEvent) (a : AttendanceRow)
    → ((keyed event (noted event a)).kiosk_id ≡ a.kiosk_id)
      × ((truthy event.idempotency_key ≡ false
            → (keyed event (noted event a)).idempotency_key ≡ a.idempotency_key)
          × (truthy event.idempotency_key ≡ true
              → (keyed event (noted event a)).idempotency_key ≡ event.idempotency_key))
keyed_fields event a = (ground arith, (λ k. rw k refl, λ k. rw k refl))

KeysUnique-merged :
    (event : AttendanceEvent) (rows : List AttendanceRow) (a : AttendanceRow)
    → (truthy event.idempotency_key ≡ false)
      ⊎ ((truthy a.idempotency_key ≡ false)
          × (find (has_key event.kiosk_id event.idempotency_key) rows ≡ none))
    → find (same_punch event) rows ≡ some a
    → KeysUnique rows
    → KeysUnique (update_first (same_punch event) (λ b. keyed event (noted event b)) rows)
KeysUnique-merged event rows a t e h =
    let f = λ (b : AttendanceRow). keyed event (noted event b) in
    let (kiosk, (keyless, with_key)) = keyed_fields event a in
    let hit : same_punch event a ≡ true = find_satisfies (same_punch event) rows e in
    elim (Bool-cases (truthy event.idempotency_key)) [
      | inr k ↦ KeysUnique-same_key (same_punch event) f a kiosk rows e (keyless k) h
      | inl k ↦
          let same_kiosk : a.kiosk_id ≡ event.kiosk_id =
            ground (arith, option_beq_iff a.kiosk_id event.kiosk_id) in
          let fresh : find (has_key event.kiosk_id event.idempotency_key) rows ≡ none =
            ground arith in
          KeysUnique-new_key (same_punch event) f a kiosk rows e
            (rw (kiosk, with_key k, same_kiosk) fresh) h
    ]

Stored-KeysUnique :
    (event : AttendanceEvent) (db : Db) (r : Inserted) (db' : Db)
    → KeysUnique db.attendance
    → Stored event db r db'
    → KeysUnique db'.attendance
unfolding add_punch
Stored-KeysUnique event db r db' keys (retried a t e same agrees er ed) = rw ed (
    KeysUnique-same_key (has_key event.kiosk_id event.idempotency_key) (noted event) a refl
      db.attendance e refl keys)
Stored-KeysUnique event db r db' keys (merged a t e agrees er ed) =
    rw ed (KeysUnique-merged event db.attendance a t e keys)
Stored-KeysUnique event db r db' keys (added t u e) =
    rw (ap (λ (s : Inserted × Db). s.1) e)
      (KeysUnique-append db.attendance (row_of db.next_id event) t keys)

-- An accepted event leaves each idempotency key of a kiosk with one punch at most.
pub insert_event-KeysUnique :
    (p : Platform) (event : AttendanceEvent) (db : Db) (r : Inserted) (db' : Db)
    → HasIds db.next_id db.attendance
    → KeysUnique db.attendance
    → insert_event p event db ≡ ok (r, db')
    → KeysUnique db'.attendance
insert_event-KeysUnique p event db r db' ids keys h =
    Stored-KeysUnique event db r db' keys (insert_event_lem p event db r db' ids.distinct h)
