-- ===== src/Attendance/Reversals.antt =====
-- convex/attendanceCorrections.ts: `reverse`, and runs of both handlers.
pub mod Outcomes
pub mod Single
pub mod Again
mod Tests
use fw_gatekeeper.Prelude.{
  ℕ, suc, Bool, true, false, Option, none, some, List, [], ◌∷◌, ◌++◌, ◌&&◌, ◌≡◌,
}
use fw_gatekeeper.Prelude.Tests.{ltb, if◌then◌else◌, ◌==◌, nat_eq}
use fw_gatekeeper.Prelude.Lists.{filter, length, sole}
use fw_gatekeeper.Prelude.Text.{Text, text_eq}
use fw_gatekeeper.Prelude.Result.{Result, ok, err, ◌>>=◌, ◌>>◌, require, refuse, present}
use fw_gatekeeper.Prelude.Table.{get_row}
use fw_gatekeeper.Schema.{Correction, correction_row, Reversal, Db, Platform}
use fw_gatekeeper.Access.{Caller}
use fw_gatekeeper.Attendance.Corrections.{
  CorrectionError, no_reason, bad_request_id, request_id_reused, ambiguous_request,
  ambiguous_reversal, correction_missing, already_reversed, normalize_text, bad_request_text,
  Evidences, CorrectionArgs, CorrectionAnswer, operator, create,
}

pub record ReversalArgs : Type 0 where
  pub correction_id : ℕ
  pub request_id : Text
  pub reason : Text

-- "Reversal reason must be 1 to 1,000 characters."
abbrev pub reversal_reason : Text → Result CorrectionError Text
reversal_reason t = do
  reason ← present (normalize_text (some t)) no_reason
  refuse (ltb 1000 (length reason)) no_reason
  ok reason

abbrev pub reversal_row_of : ℕ → Text → ℕ → Text → Text → Correction → Reversal
reversal_row_of id now actor reason request c = record {
  id = id;
  correction_id = c.id;
  request_id = request;
  date = c.date;
  worker_id = c.worker_id;
  reason = reason;
  actor_user_id = actor;
  created_at = now;
}

abbrev is_none : Option Reversal → Bool
is_none none = true
is_none (some r) = false

module _ (p : Platform) where
  unfoldable pub commit_reversal :
      ReversalArgs → Text → ℕ → ℕ → Db → Result CorrectionError (CorrectionAnswer × Db)
  commit_reversal a reason actor now db = do
    correction ← present (get_row a.correction_id db.corrections) correction_missing
    existing ←
        present (sole (filter (λ (r : Reversal). r.correction_id == a.correction_id) db.reversals))
          ambiguous_reversal
    require (is_none existing) already_reversed
    ok (
      record { id = db.next_id; created_at = p.iso now },
      record db {
        next_id = suc db.next_id;
        reversals =
            db.reversals
            ++ reversal_row_of db.next_id (p.iso now) actor reason a.request_id correction ∷ [];
      },
    )

  abbrev pub replay_or_reverse :
      ReversalArgs
      → Text
      → ℕ
      → ℕ
      → Db
      → Option Reversal
      → Result CorrectionError (CorrectionAnswer × Db)
  replay_or_reverse a reason actor now db none = commit_reversal a reason actor now db
  replay_or_reverse a reason actor now db (some r) =
      if r.correction_id == a.correction_id && r.reason == reason
      then ok (record { id = r.id; created_at = r.created_at }, db)
      else err request_id_reused

  unfoldable pub reverse_for :
      ReversalArgs → ℕ → ℕ → Db → Result CorrectionError (CorrectionAnswer × Db)
  reverse_for a actor now db = do
    reason ← reversal_reason a.reason
    refuse (bad_request_text a.request_id) bad_request_id
    existing ←
        present (sole (filter (λ (r : Reversal). r.request_id == a.request_id) db.reversals))
          ambiguous_request
    replay_or_reverse a reason actor now db existing

  module _ (e : Evidences) (session_id_of : Text → Option ℕ) where
    unfoldable pub reverse :
        ReversalArgs → Caller → Db → Result CorrectionError (CorrectionAnswer × Db)
    reverse a c db = do
      actor ← operator p e session_id_of c db
      reverse_for a actor.user_id c.now db

    -- One run of a handler that is accepted.
    pub data Change (db : Db) : Db → Type 0 where
      created :
          {db' : Db} (a : CorrectionArgs) (c : Caller) (r : CorrectionAnswer)
          → create p e session_id_of a c db ≡ ok (r, db')
          → Change db db'
      reversed :
          {db' : Db} (a : ReversalArgs) (c : Caller) (r : CorrectionAnswer)
          → reverse a c db ≡ ok (r, db')
          → Change db db'

    pub data Changes (db : Db) : Db → Type 0 where
      unchanged : Changes db db
      more : {d d' : Db} → Changes db d → Change d d' → Changes db d'
