-- ===== src/Attendance/Reversals/Outcomes.antt =====
-- convex/attendanceCorrections.ts: what an accepted `reverse` did.
use fw_gatekeeper.Prelude.{
  ℕ, suc, true, false, ◌&&◌, Option, none, some, [], ◌∷◌, ◌++◌, ◌≡◌, inl, inr, arith,
}
use fw_gatekeeper.Prelude.Tests.{Bool-cases, Option-cases, ◌==◌, nat_eq}
use fw_gatekeeper.Prelude.Lists.{filter, sole}
use fw_gatekeeper.Prelude.Text.{Text, text_eq}
use fw_gatekeeper.Prelude.Result.{ok, Result-cases}
use fw_gatekeeper.Prelude.Table.{get_row}
use fw_gatekeeper.Schema.{Correction, correction_row, Reversal, action_eq, Db, Platform}
use fw_gatekeeper.Access.{Caller}
use fw_gatekeeper.Attendance.Corrections.{bad_request_text, Evidences, CorrectionAnswer, operator}
use fw_gatekeeper.Attendance.Reversals.{
  ReversalArgs, reversal_reason, reversal_row_of, commit_reversal, reverse_for, reverse,
}

-- An accepted `reverse` replayed a request, or committed a row.
pub data Reversed (p : Platform) (a : ReversalArgs) (now : ℕ) (db : Db) (r : CorrectionAnswer)
    (db' : Db) : Type 0 where
  replayed :
      (x : Reversal) (reason : Text)
      → reversal_reason a.reason ≡ ok reason
      → bad_request_text a.request_id ≡ false
      → sole (filter (λ (y : Reversal). y.request_id == a.request_id) db.reversals) ≡ some (some x)
      → (x.correction_id == a.correction_id && x.reason == reason) ≡ true
      → r ≡ record { id = x.id; created_at = x.created_at }
      → db' ≡ db
      → Reversed p a now db r db'
  committed :
      (c : Correction) (actor : ℕ) (reason : Text)
      → reversal_reason a.reason ≡ ok reason
      → bad_request_text a.request_id ≡ false
      → sole (filter (λ (y : Reversal). y.request_id == a.request_id) db.reversals) ≡ some none
      → get_row a.correction_id db.corrections ≡ some c
      → sole (filter (λ (y : Reversal). y.correction_id == a.correction_id) db.reversals)
        ≡ some none
      → r ≡ record { id = db.next_id; created_at = p.iso now }
      → db' ≡ record db {
        next_id = suc db.next_id;
        reversals =
            db.reversals ++ reversal_row_of db.next_id (p.iso now) actor reason a.request_id c ∷ [];
      }
      → Reversed p a now db r db'

module _ (p : Platform) where
  commit_lem :
      (a : ReversalArgs) (reason : Text) (actor now : ℕ) (db : Db) (r : CorrectionAnswer) (db' : Db)
      → reversal_reason a.reason ≡ ok reason
      → bad_request_text a.request_id ≡ false
      → sole (filter (λ (y : Reversal). y.request_id == a.request_id) db.reversals) ≡ some none
      → commit_reversal p a reason actor now db ≡ ok (r, db')
      → Reversed p a now db r db'
  unfolding commit_reversal
  commit_lem a reason actor now db r db' h1 h2 h3 h =
      elim (Option-cases (get_row a.correction_id db.corrections)) [
        | inl gone ↦ absurd (ground arith)
        | inr (c, found) ↦
            elim (Option-cases
              (sole (filter (λ (y : Reversal). y.correction_id == a.correction_id) db.reversals))) [
                | inl many ↦ absurd (ground arith)
                | inr (some x, e) ↦ absurd (ground arith)
                | inr (none, e) ↦
                    committed c actor reason h1 h2 h3 found e (ground arith) (ground arith)
              ]
      ]

  reverse_for_lem :
      (a : ReversalArgs) (actor now : ℕ) (db : Db) (r : CorrectionAnswer) (db' : Db)
      → reverse_for p a actor now db ≡ ok (r, db')
      → Reversed p a now db r db'
  unfolding reverse_for
  reverse_for_lem a actor now db r db' h = elim (Result-cases (reversal_reason a.reason)) [
    | inr (bad, e1) ↦ absurd (ground arith)
    | inl (reason, e1) ↦ elim (Bool-cases (bad_request_text a.request_id)) [
      | inl bad ↦ absurd (ground arith)
      | inr good ↦
          elim (Option-cases
            (sole (filter (λ (y : Reversal). y.request_id == a.request_id) db.reversals))) [
              | inl many ↦ absurd (ground arith)
              | inr (none, e2) ↦ commit_lem a reason actor now db r db' e1 good e2 (ground arith)
              | inr (some x, e2) ↦
                  elim (Bool-cases (x.correction_id == a.correction_id && x.reason == reason)) [
                    | inl same ↦ replayed x reason e1 good e2 same (ground arith) (ground arith)
                    | inr other ↦ absurd (ground arith)
                  ]
            ]
    ]
  ]

  module _ (e : Evidences) (session_id_of : Text → Option ℕ) where
    pub reverse_lem :
        (a : ReversalArgs) (c : Caller) (db : Db) (r : CorrectionAnswer) (db' : Db)
        → reverse p e session_id_of a c db ≡ ok (r, db')
        → Reversed p a c.now db r db'
    unfolding reverse
    reverse_lem a c db r db' h = elim (Result-cases (operator p e session_id_of c db)) [
      | inr (bad, e1) ↦ absurd (ground arith)
      | inl (m, e1) ↦ reverse_for_lem a m.user_id c.now db r db' (ground arith)
    ]
