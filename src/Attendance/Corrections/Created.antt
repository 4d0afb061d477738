-- ===== src/Attendance/Corrections/Created.antt =====
-- convex/attendanceCorrections.ts: what an accepted `create` did.
use fw_gatekeeper.Prelude.{
  ℕ, suc, true, false, Option, none, some, [], ◌∷◌, ◌++◌, ◌≡◌, ◌⊎◌, inl, inr, arith,
}
use fw_gatekeeper.Prelude.Tests.{Bool-cases, Option-cases, ◌==◌, nat_eq, option_eq}
use fw_gatekeeper.Prelude.Text.{Text, text_eq}
use fw_gatekeeper.Prelude.Result.{ok, Result-cases}
use fw_gatekeeper.Prelude.Table.{get_row}
use fw_gatekeeper.Schema.{
  worker_row, attendance_row, void_event, action_eq, Correction, Db, Platform,
}
use fw_gatekeeper.Access.{Caller}
use fw_gatekeeper.Attendance.Corrections.{
  Evidences, CorrectionArgs, CorrectionAnswer, normalize_text, bad_request_id_of, correction_row_of,
  same_evidence, check_source, check_void, check_addition, commit_correction, requested, create_for,
  operator, create,
}

module _ (p : Platform) (e : Evidences) where
  -- An accepted `create` replayed a request, or committed a row after its checks.
  pub data Created (a : CorrectionArgs) (now : ℕ) (db : Db) (r : CorrectionAnswer) (db' : Db)
      : Type 0 where
    replayed :
        (c : Correction) (actor : ℕ) (reason : Text)
        → normalize_text (some a.reason) ≡ some reason
        → bad_request_id_of a.request_id ≡ false
        → requested p e a.request_id db ≡ ok (some c)
        → same_evidence p e c (correction_row_of p e c.id c.created_at actor reason a) ≡ true
        → r ≡ record { id = c.id; created_at = c.created_at }
        → db' ≡ db
        → Created a now db r db'
    committed :
        (actor : ℕ) (reason : Text)
        → normalize_text (some a.reason) ≡ some reason
        → bad_request_id_of a.request_id ≡ false
        → requested p e a.request_id db ≡ ok none
        → (a.action == void_event) ≡ false ⊎ (check_void p e a db ≡ ok tt)
        → (a.action == void_event) ≡ true ⊎ (check_addition p e a now ≡ ok tt)
        → r ≡ record { id = db.next_id; created_at = p.iso now }
        → db' ≡ record db {
          next_id = suc db.next_id;
          corrections =
              db.corrections ++ correction_row_of p e db.next_id (p.iso now) actor reason a ∷ [];
        }
        → Created a now db r db'

  commit_lem :
      (a : CorrectionArgs) (reason : Text) (actor now : ℕ) (db : Db) (r : CorrectionAnswer)
      (db' : Db)
      → normalize_text (some a.reason) ≡ some reason
      → bad_request_id_of a.request_id ≡ false
      → requested p e a.request_id db ≡ ok none
      → commit_correction p e a reason actor now db ≡ ok (r, db')
      → Created a now db r db'
  unfolding commit_correction
  commit_lem a reason actor now db r db' h1 h2 h3 h =
      elim (Option-cases (get_row a.worker_id db.workers)) [
        | inl gone ↦ absurd (ground arith)
        | inr (w, found) ↦ elim (Result-cases (check_source p e a db)) [
          | inr (bad, e1) ↦ absurd (ground arith)
          | inl (tt, e1) ↦ elim (Bool-cases (a.action == void_event)) [
            | inl v ↦ elim (Result-cases (check_void p e a db)) [
              | inr (bad, e2) ↦ absurd (ground arith)
              | inl (tt, e2) ↦
                  committed actor reason h1 h2 h3 (inr e2) (inl v) (ground arith) (ground arith)
            ]
            | inr v ↦ elim (Result-cases (check_addition p e a now)) [
              | inr (bad, e2) ↦ absurd (ground arith)
              | inl (tt, e2) ↦
                  committed actor reason h1 h2 h3 (inl v) (inr e2) (ground arith) (ground arith)
            ]
          ]
        ]
      ]

  pub create_for_lem :
      (a : CorrectionArgs) (actor now : ℕ) (db : Db) (r : CorrectionAnswer) (db' : Db)
      → create_for p e a actor now db ≡ ok (r, db')
      → Created a now db r db'
  unfolding create_for
  create_for_lem a actor now db r db' h = elim (Option-cases (normalize_text (some a.reason))) [
    | inl empty ↦ absurd (ground arith)
    | inr (reason, e1) ↦ elim (Bool-cases (bad_request_id_of a.request_id)) [
      | inl bad ↦ absurd (ground arith)
      | inr good ↦ elim (Result-cases (requested p e a.request_id db)) [
        | inr (bad, e2) ↦ absurd (ground arith)
        | inl (none, e2) ↦ commit_lem a reason actor now db r db' e1 good e2 (ground arith)
        | inl (some c, e2) ↦
            elim (Bool-cases
              (same_evidence p e c (correction_row_of p e c.id c.created_at actor reason a))) [
                | inl same ↦ replayed c actor reason e1 good e2 same (ground arith) (ground arith)
                | inr other ↦ absurd (ground arith)
              ]
      ]
    ]
  ]

  module _ (session_id_of : Text → Option ℕ) where
    pub create_lem :
        (a : CorrectionArgs) (c : Caller) (db : Db) (r : CorrectionAnswer) (db' : Db)
        → create p e session_id_of a c db ≡ ok (r, db')
        → Created a c.now db r db'
    unfolding create
    create_lem a c db r db' h = elim (Result-cases (operator p e session_id_of c db)) [
      | inr (bad, e1) ↦ absurd (ground arith)
      | inl (m, e1) ↦ create_for_lem a m.user_id c.now db r db' (ground arith)
    ]
