-- ===== src/Roster/Outcomes.antt =====
-- convex/rosterSequence.ts and convex/kiosks.ts: what each handler of the protocol does to the store.
use fw_gatekeeper.Prelude.{
  ℕ, suc, ◌+◌, Bool, false, none, some, [], ◌∷◌, ◌++◌, ◌≡◌, inl, inr, arith,
}
use fw_gatekeeper.Prelude.Tests.{Bool-cases, Option-cases, leb, ◌==◌, nat_eq, option_eq}
use fw_gatekeeper.Prelude.Text.{Text}
use fw_gatekeeper.Prelude.Number.{max_safe_integer}
use fw_gatekeeper.Prelude.Result.{ok}
use fw_gatekeeper.Prelude.Table.{get_row, patch_row, delete_row}
use fw_gatekeeper.Schema.{Worker, worker_row, Kiosk, kiosk_row, RosterReceipt, receipt_row, Db}
use fw_gatekeeper.Roster.Sequence.{
  current, advance, take_sequence, stamp, write_worker, insert_worker,
}
use fw_gatekeeper.Roster.Receipts.{
  is_device, new_receipt, issue_receipt, acknowledge_receipt, applied, pending_receipt, acceptable,
}

-- What an accepted write does.
pub write_worker_lem :
    (fields : Worker → Worker) (id : ℕ) (purge : Bool) (db db' : Db)
    → write_worker fields id purge db ≡ ok db'
    → db' ≡ record db {
      roster_counter = some (advance purge (current db + 1) db.roster_counter);
      workers = patch_row id (stamp fields (current db + 1)) db.workers;
    }
unfolding write_worker take_sequence
write_worker_lem fields id purge db db' h =
    elim (Bool-cases (leb (current db + 1) max_safe_integer)) [
      | inl e ↦ elim (Option-cases (get_row id db.workers)) [
        | inl none_ ↦ absurd (ground arith)
        | inr (w, found) ↦ ground arith
      ]
      | inr e ↦ absurd (ground arith)
    ]

pub insert_worker_lem :
    (fields : Worker) (now : ℕ) (db : Db) (id : ℕ) (db' : Db)
    → insert_worker fields now db ≡ ok (id, db')
    → db' ≡ record db {
      next_id = suc db.next_id;
      roster_counter = some (advance false (current db + 1) db.roster_counter);
      workers =
          db.workers
          ++ record fields {
            id = db.next_id;
            creation_time = now;
            roster_sequence = some (current db + 1);
          }
            ∷ [];
    }
unfolding insert_worker take_sequence
insert_worker_lem fields now db id db' h =
    elim (Bool-cases (leb (current db + 1) max_safe_integer)) [
      | inl e ↦ ground arith
      | inr e ↦ absurd (ground arith)
    ]

-- The outcomes of `issueRosterReceiptFromHttp`.
pub data Issued (document : ℕ) (now : Text) (db db' : Db) : Type 0 where
  unchanged : db' ≡ db → Issued document now db db'
  fresh :
      (k : Kiosk)
      → get_row document db.kiosks ≡ some k
      → pending_receipt k.id db ≡ none
      → db' ≡ record db {
        next_id = suc db.next_id;
        roster_receipts = db.roster_receipts ++ new_receipt k.id now db ∷ [];
      }
      → Issued document now db db'

pub issue_receipt_lem :
    (document : ℕ) (now : Text) (db : Db) → Issued document now db (issue_receipt document now db).1
unfolding issue_receipt
issue_receipt_lem document now db = elim (Option-cases (get_row document db.kiosks)) [
  | inl none_ ↦ unchanged (ground arith)
  | inr (k, found) ↦ elim (Bool-cases (is_device k)) [
    | inr off ↦ unchanged (ground arith)
    | inl on ↦ elim (Option-cases (pending_receipt k.id db)) [
      | inr (r, waiting) ↦ unchanged (ground arith)
      | inl new ↦ fresh k found new (ground arith)
    ]
  ]
]

-- The outcomes of `acknowledgeRosterReceiptFromHttp`.
pub data Acknowledged (document receipt : ℕ) (db db' : Db) : Type 0 where
  same : db' ≡ db → Acknowledged document receipt db db'
  taken :
      (k : Kiosk) (r : RosterReceipt)
      → get_row document db.kiosks ≡ some k
      → get_row receipt db.roster_receipts ≡ some r
      → r.kiosk_id ≡ k.id
      → db' ≡ record db {
        kiosks = patch_row k.id (applied r) db.kiosks;
        roster_receipts = delete_row r.id db.roster_receipts;
      }
      → Acknowledged document receipt db db'

pub acknowledge_receipt_lem :
    (document receipt : ℕ) (now : Text) (db : Db)
    → Acknowledged document receipt db (acknowledge_receipt document receipt now db).1
unfolding acknowledge_receipt
acknowledge_receipt_lem document receipt now db = elim (Option-cases (get_row document db.kiosks)) [
  | inl none_ ↦ same (ground arith)
  | inr (k, found) ↦ elim (Bool-cases (is_device k)) [
    | inr off ↦ same (ground arith)
    | inl on ↦ elim (Bool-cases (k.last_roster_receipt_id == some receipt)) [
      | inl again ↦ same (ground arith)
      | inr first ↦ elim (Option-cases (get_row receipt db.roster_receipts)) [
        | inl gone ↦ same (ground arith)
        | inr (r, waiting) ↦ elim (Bool-cases (acceptable k r now)) [
          | inr bad ↦ same (ground arith)
          | inl good ↦ taken k r found waiting (ground arith) (ground arith)
        ]
      ]
    ]
  ]
]
