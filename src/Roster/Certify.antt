-- ===== src/Roster/Certify.antt =====
-- convex/kiosks.ts: an acknowledged receipt is acknowledged once, and certifies what came before it.
use fw_gatekeeper.Prelude.{
  ℕ, suc, true, false, Option, none, some, List, [], ◌∷◌, ◌++◌, ◌≡◌, ◌≢◌, refl, ap, ◌∙◌, inl, inr,
  arith,
}
use fw_gatekeeper.Prelude.Tests.{
  Bool-cases, Option-cases, nat_beq, nat_beq_iff, ◌==◌, nat_eq, option_eq, eq_iff, eq_refl,
}
use fw_gatekeeper.Prelude.Lists.{find, find_head}
use fw_gatekeeper.Prelude.Text.{Text}
use fw_gatekeeper.Prelude.Table.{
  get_row, patch_row, delete_row, All-get_row, get_row-patch_row, get_row-append, get_row_fresh,
  row_id-get_row,
}
use fw_gatekeeper.Prelude.Ids.{HasIds}
use fw_gatekeeper.Schema.{Kiosk, kiosk_row, RosterReceipt, receipt_row, Db}
use fw_gatekeeper.Roster.Sequence.{current, last_purge}
use fw_gatekeeper.Roster.Receipts.{
  is_device, new_receipt, issue_receipt, acknowledge_receipt, applied, raise, pending_receipt,
  acceptable, purge_pending, later_time,
}
use fw_gatekeeper.Roster.Invariant.{RosterIsValid, Within, KioskWithin}

-- The kiosk's row after its receipt is taken.
get_row-applied :
    (document : ℕ) (k : Kiosk) (r : RosterReceipt) (ks : List Kiosk)
    → get_row document ks ≡ some k
    → get_row document (patch_row k.id (applied r) ks) ≡ some (applied r k)
get_row-applied document k r ks found =
    let at : k.id ≡ document = row_id-get_row document ks k found in
    get_row-patch_row k.id document (applied r) ks (λ x. refl)
    ∙ rw ((nat_beq_iff k.id document).1 at) (rw found refl)

-- What the handler does for a receipt that is taken.
take_receipt :
    (document receipt : ℕ) (now : Text) (db : Db) (k : Kiosk) (r : RosterReceipt)
    → get_row document db.kiosks ≡ some k
    → is_device k ≡ true
    → (k.last_roster_receipt_id == some receipt) ≡ false
    → get_row receipt db.roster_receipts ≡ some r
    → acceptable k r now ≡ true
    → acknowledge_receipt document receipt now db ≡ (
      record {
        acknowledged = true;
        applied_at = some (later_time k.roster_applied_at r.issued_at);
      },
      record db {
        kiosks = patch_row k.id (applied r) db.kiosks;
        roster_receipts = delete_row r.id db.roster_receipts;
      },
    )
unfolding acknowledge_receipt
take_receipt document receipt now db k r found on first waiting good = ground arith

-- An answer for the receipt that was taken last.
again :
    (document receipt : ℕ) (now : Text) (db : Db) (k : Kiosk)
    → get_row document db.kiosks ≡ some k
    → is_device k ≡ true
    → k.last_roster_receipt_id ≡ some receipt
    → acknowledge_receipt document receipt now db
      ≡ (record { acknowledged = true; applied_at = k.roster_applied_at }, db)
unfolding acknowledge_receipt
again document receipt now db k found on last = ground (arith, eq_refl (some receipt))

-- What it takes to be acknowledged.
data Taken (document receipt : ℕ) (now : Text) (db : Db) : Type 0 where
  before :
      (k : Kiosk)
      → get_row document db.kiosks ≡ some k
      → is_device k ≡ true
      → k.last_roster_receipt_id ≡ some receipt
      → Taken document receipt now db
  first :
      (k : Kiosk) (r : RosterReceipt)
      → get_row document db.kiosks ≡ some k
      → is_device k ≡ true
      → (k.last_roster_receipt_id == some receipt) ≡ false
      → get_row receipt db.roster_receipts ≡ some r
      → acceptable k r now ≡ true
      → Taken document receipt now db

acknowledged_cases :
    (document receipt : ℕ) (now : Text) (db : Db)
    → (acknowledge_receipt document receipt now db).0.acknowledged ≡ true
    → Taken document receipt now db
unfolding acknowledge_receipt
acknowledged_cases document receipt now db h = elim (Option-cases (get_row document db.kiosks)) [
  | inl none_ ↦ absurd (ground arith)
  | inr (k, found) ↦ elim (Bool-cases (is_device k)) [
    | inr off ↦ absurd (ground arith)
    | inl on ↦ elim (Bool-cases (k.last_roster_receipt_id == some receipt)) [
      | inl last ↦ before k found on ((eq_iff k.last_roster_receipt_id (some receipt)).0 last)
      | inr new ↦ elim (Option-cases (get_row receipt db.roster_receipts)) [
        | inl gone ↦ absurd (ground arith)
        | inr (r, waiting) ↦ elim (Bool-cases (acceptable k r now)) [
          | inr bad ↦ absurd (ground arith)
          | inl good ↦ first k r found on new waiting good
        ]
      ]
    ]
  ]
]

-- A receipt that has been acknowledged is acknowledged again with the same answer, at any later
-- time, and nothing is written.
pub acknowledge_twice :
    (document receipt : ℕ) (now later : Text) (db : Db)
    → (acknowledge_receipt document receipt now db).0.acknowledged ≡ true
    → acknowledge_receipt document receipt later (acknowledge_receipt document receipt now db).1
      ≡ acknowledge_receipt document receipt now db
acknowledge_twice document receipt now later db h =
    elim (acknowledged_cases document receipt now db h) [
      | before k found on last ↦
          rw (again document receipt now db k found on last)
            (again document receipt later db k found on last)
      | first k r found on new waiting good ↦
          rw (take_receipt document receipt now db k r found on new waiting good) (
            again document receipt later _ (applied r k)
              (get_row-applied document k r db.kiosks found) on
              (ap some (row_id-get_row receipt db.roster_receipts r waiting)))
    ]

abbrev with_receipt : ℕ → Text → Db → Db
with_receipt k now db = record db {
  next_id = suc db.next_id;
  roster_receipts = db.roster_receipts ++ new_receipt k now db ∷ [];
}

issue_new :
    (document : ℕ) (now : Text) (db : Db) (k : Kiosk)
    → get_row document db.kiosks ≡ some k
    → is_device k ≡ true
    → pending_receipt k.id db ≡ none
    → (issue_receipt document now db).1 ≡ with_receipt k.id now db
unfolding issue_receipt
issue_new document now db k found on new = ground arith

get_row-new :
    (k : ℕ) (now : Text) (db : Db)
    → HasIds db.next_id db.roster_receipts
    → get_row db.next_id (db.roster_receipts ++ new_receipt k now db ∷ [])
      ≡ some (new_receipt k now db)
unfolding get_row find
get_row-new k now db ids =
    get_row-append db.next_id db.roster_receipts (new_receipt k now db ∷ [])
    ∙ rw (get_row_fresh db.next_id db.roster_receipts ids.below) (
        find_head (λ (r : RosterReceipt). nat_beq r.id db.next_id) (new_receipt k now db) []
          (eq_refl db.next_id))

not_last : (o : Option ℕ) (n : ℕ) → o ≢ some n → (o == some n) ≡ false
not_last o n h = elim (Bool-cases (o == some n)) [
  | inl e ↦ absurd (h ((eq_iff o (some n)).0 e))
  | inr e ↦ e
]

new_receipt-acceptable :
    (k : Kiosk) (now later : Text) (db : Db) → acceptable k (new_receipt k.id now db) later ≡ true
new_receipt-acceptable k now later db = ground (arith, eq_refl k.id)

raised : (a : Option ℕ) (n : ℕ) → Within n a → raise a (some n) ≡ some n
raised none n h = refl
raised (some a) n h = ground arith

certified :
    (last : Option ℕ) (n : ℕ) (x : Kiosk)
    → Within n last
    → x.roster_applied_sequence ≡ some n
    → purge_pending last x ≡ false
unfolding purge_pending
certified none n x h e = refl
certified (some l) n x h e = ground arith

-- When a device with no receipt under way is issued one and acknowledges it, it is no longer shown
-- as pending for any purge that came before: its applied sequence is then the counter's.
pub acknowledgement_certifies :
    (document : ℕ) (now later : Text) (db : Db) (k : Kiosk)
    → RosterIsValid db
    → HasIds db.next_id db.roster_receipts
    → get_row document db.kiosks ≡ some k
    → is_device k ≡ true
    → pending_receipt k.id db ≡ none
    → k.last_roster_receipt_id ≢ some db.next_id
    → (x : Kiosk) × (get_row document
          (acknowledge_receipt document db.next_id later (issue_receipt document now db).1).1.kiosks
        ≡ some x)
      × (x.roster_applied_sequence ≡ some (current db))
      × (purge_pending (last_purge db) x ≡ false)
acknowledgement_certifies document now later db k v ids found on new fresh =
    let r = new_receipt k.id now db in
    let bound = All-get_row (KioskWithin (current db)) document db.kiosks k v.kiosks found in
    let unseen = not_last k.last_roster_receipt_id db.next_id fresh in
    let good = new_receipt-acceptable k now later db in
    let e = raised k.roster_applied_sequence (current db) bound.0 in
    (
      applied r k,
      rw (issue_new document now db k found on new) (
          rw
            (take_receipt document db.next_id later (with_receipt k.id now db) k r found on unseen
              (get_row-new k.id now db ids) good)
            (get_row-applied document k r db.kiosks found)),
      e,
      certified (last_purge db) (current db) (applied r k) v.purge e,
    )
