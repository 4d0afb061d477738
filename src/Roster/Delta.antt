-- ===== src/Roster/Delta.antt =====
-- convex/workers.ts: a roster delta leaves out nothing that changed after its cursor was issued.
use fw_gatekeeper.Prelude.{
  ℕ, ◌+◌, ◌≤◌, Bool, true, false, List, [], ◌∷◌, ◌≡◌, ◌⊎◌, refl, ap, ◌∙◌, inl, inr, arith,
}
use fw_gatekeeper.Prelude.Tests.{Bool-cases, leb}
use fw_gatekeeper.Prelude.Lists.{All, All-append, filter}
use fw_gatekeeper.Prelude.Result.{ok}
use fw_gatekeeper.Prelude.Table.{All-patch_row}
use fw_gatekeeper.Schema.{Worker, worker_row, Db, Platform}
use fw_gatekeeper.Roster.Sequence.{current, stamp, write_worker, insert_worker}
use fw_gatekeeper.Roster.Outcomes.{
  write_worker_lem, insert_worker_lem, unchanged, fresh, issue_receipt_lem, same, taken,
  acknowledge_receipt_lem,
}
use fw_gatekeeper.Roster.Invariant.{current-advance}
use fw_gatekeeper.Roster.Reach.{
  Step, wrote, enrolled, receipt_issued, acknowledged, cursor_issued, Reach, here, next, nothing,
  issued, issue_legacy_lem,
}
use fw_gatekeeper.Roster.Sync.{is_updated, sequence_of, insert_sorted, by_sequence, updated_rows}

-- The row is in the list.
abbrev pub Among : Worker → List Worker → Type 0
Among w [] = ⊥
Among w (x ∷ xs) = (x ≡ w) ⊎ Among w xs

weaken_all :
    (P Q : Worker → Type 0) (xs : List Worker) → ((w : Worker) → P w → Q w) → All P xs → All Q xs
weaken_all P Q [] f h = tt
weaken_all P Q (x ∷ xs) f (p, h) = (f x p, weaken_all P Q xs f h)

All-Among : (xs : List Worker) → All (λ w. Among w xs) xs
All-Among [] = tt
All-Among (x ∷ xs) = (
  inl refl,
  weaken_all (λ w. Among w xs) (λ w. Among w (x ∷ xs)) xs (λ w h. inr h) (All-Among xs),
)

-- A row is as it was at `from`, or its sequence is later than `s`.
record Covered (s : ℕ) (from : List Worker) (db : Db) : Type 0 where
  reached : s ≤ current db
  rows : All (λ w. (is_updated s w ≡ true) ⊎ Among w from) db.workers

module _ (s : ℕ) (from : List Worker) where
  Covered-write :
      (fields : Worker → Worker) (id : ℕ) (purge : Bool) (db db' : Db)
      → Covered s from db
      → write_worker fields id purge db ≡ ok db'
      → Covered s from db'
  Covered-write fields id purge db db' c h =
      let m = c.reached in
      rw (write_worker_lem fields id purge db db' h) (record {
        reached = rw (current-advance purge (current db + 1) db.roster_counter db) (omega arith);
        rows =
            All-patch_row (λ w. (is_updated s w ≡ true) ⊎ Among w from) id
              (stamp fields (current db + 1)) db.workers (λ w q. inl (ground arith)) c.rows;
      })

  Covered-enrol :
      (fields : Worker) (now : ℕ) (db : Db) (id : ℕ) (db' : Db)
      → Covered s from db
      → insert_worker fields now db ≡ ok (id, db')
      → Covered s from db'
  Covered-enrol fields now db id db' c h =
      let m = c.reached in
      rw (insert_worker_lem fields now db id db' h) (record {
        reached = rw (current-advance false (current db + 1) db.roster_counter db) (omega arith);
        rows =
            All-append (λ w. (is_updated s w ≡ true) ⊎ Among w from) db.workers _ c.rows
              (inl (ground arith), tt);
      })

  Covered-Step :
      (p : Platform) {db db' : Db} → Step p db db' → Covered s from db → Covered s from db'
  Covered-Step p {db} {db'} (wrote fields id purge h) c = Covered-write fields id purge db db' c h
  Covered-Step p {db} {db'} (enrolled fields now id h) c = Covered-enrol fields now db id db' c h
  Covered-Step p {db} {db'} (receipt_issued document now h) c =
      elim (issue_receipt_lem document now db) [
        | unchanged e ↦ rw (← h) (rw e c)
        | fresh x found new e ↦ rw (← h) (rw e (record { reached = c.reached; rows = c.rows }))
      ]
  Covered-Step p {db} {db'} (acknowledged document receipt now h) c =
      elim (acknowledge_receipt_lem document receipt now db) [
        | same e ↦ rw (← h) (rw e c)
        | taken x r found waiting mine e ↦
            rw (← h) (rw e (record { reached = c.reached; rows = c.rows }))
      ]
  Covered-Step p {db} {db'} (cursor_issued document since now r h) c =
      elim (issue_legacy_lem p document since now db r db' h) [
        | nothing e ↦ rw e c
        | issued x cursor found at e ↦ rw e (record { reached = c.reached; rows = c.rows })
      ]

  Covered-Reach :
      (p : Platform) {db db' : Db} → Reach p db db' → Covered s from db → Covered s from db'
  Covered-Reach p here c = c
  Covered-Reach p (next r st) c = Covered-Step p st (Covered-Reach p r c)

Among-filter :
    (t : Worker → Bool) (w : Worker) (ws : List Worker)
    → Among w ws
    → t w ≡ true
    → Among w (filter t ws)
unfolding filter
Among-filter t w [] a h = elim a [ ]
Among-filter t w (x ∷ ws) (inl e) h = rw (ap t e ∙ h) (inl e)
Among-filter t w (x ∷ ws) (inr a) h = elim (Bool-cases (t x)) [
  | inl b ↦ rw b (inr (Among-filter t w ws a h))
  | inr b ↦ rw b (Among-filter t w ws a h)
]

Among-insert_sorted :
    (w x : Worker) (ws : List Worker) → Among w (x ∷ ws) → Among w (insert_sorted x ws)
unfolding insert_sorted
Among-insert_sorted w x [] a = a
Among-insert_sorted w x (y ∷ ws) a = elim (Bool-cases (leb (sequence_of x) (sequence_of y))) [
  | inl b ↦ rw b a
  | inr b ↦ rw b (elim a [
    | inl e ↦ inr (Among-insert_sorted w x ws (inl e))
    | inr (inl e) ↦ inl e
    | inr (inr k) ↦ inr (Among-insert_sorted w x ws (inr k))
  ])
]

Among-by_sequence : (w : Worker) (ws : List Worker) → Among w ws → Among w (by_sequence ws)
unfolding by_sequence
Among-by_sequence w [] a = elim a [ ]
Among-by_sequence w (x ∷ ws) (inl e) = Among-insert_sorted w x (by_sequence ws) (inl e)
Among-by_sequence w (x ∷ ws) (inr a) =
    Among-insert_sorted w x (by_sequence ws) (inr (Among-by_sequence w ws a))

Among-updated_rows :
    (s : ℕ) (w : Worker) (ws : List Worker)
    → Among w ws
    → is_updated s w ≡ true
    → Among w (updated_rows s ws)
unfolding updated_rows
Among-updated_rows s w ws a h =
    Among-by_sequence w (filter (is_updated s) ws) (Among-filter (is_updated s) w ws a h)

in_delta :
    (s : ℕ) (from all xs : List Worker)
    → All (λ w. Among w all) xs
    → All (λ w. (is_updated s w ≡ true) ⊎ Among w from) xs
    → All (λ w. Among w (updated_rows s all) ⊎ Among w from) xs
in_delta s from all [] a h = tt
in_delta s from all (x ∷ xs) (p, a) (inl e, h) =
    (inl (Among-updated_rows s x all p e), in_delta s from all xs a h)
in_delta s from all (x ∷ xs) (p, a) (inr k, h) = (inr k, in_delta s from all xs a h)

-- After any run of the protocol's handlers, the rows that are listed for a cursor taken at its
-- start, together with the rows of that time, are all that there is: a worker's row that is not
-- among the updates is exactly one that was there when the cursor was taken.
pub updated_rows_miss_nothing :
    (p : Platform) (db last : Db)
    → Reach p db last
    → All (λ w. Among w (updated_rows (current db) last.workers) ⊎ Among w db.workers) last.workers
updated_rows_miss_nothing p db last r =
    let c = Covered-Reach (current db) db.workers p r (record {
      reached = omega arith;
      rows =
          weaken_all (λ w. Among w db.workers)
            (λ w. (is_updated (current db) w ≡ true) ⊎ Among w db.workers) db.workers (λ w a. inr a)
            (All-Among db.workers);
    }) in
    in_delta (current db) db.workers last.workers last.workers (All-Among last.workers) c.rows
