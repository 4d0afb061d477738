-- ===== src/Attendance/Reversals/Again.antt =====
-- convex/attendanceCorrections.ts: a reversal that is requested again gets the first answer.
use fw_gatekeeper.Prelude.{ℕ, suc, true, false, ◌&&◌, Option, some, [], ◌∷◌, ◌++◌, ◌≡◌, refl, arith}
use fw_gatekeeper.Prelude.Tests.{◌==◌, nat_eq, eq_refl, eq_iff}
use fw_gatekeeper.Prelude.Lists.{filter, sole, sole-filter-append}
use fw_gatekeeper.Prelude.Text.{Text, text_eq}
use fw_gatekeeper.Prelude.Result.{ok}
use fw_gatekeeper.Prelude.Table.{row_id-get_row}
use fw_gatekeeper.Schema.{Reversal, correction_row, PortalMember, Db, Platform}
use fw_gatekeeper.Access.{Caller}
use fw_gatekeeper.Attendance.Corrections.{Evidences, bad_request_text, CorrectionAnswer, operator}
use fw_gatekeeper.Attendance.Reversals.{
  ReversalArgs, reversal_reason, reversal_row_of, reverse_for, reverse,
}
use fw_gatekeeper.Attendance.Reversals.Outcomes.{replayed, committed, reverse_lem}

module _ (p : Platform) where
  replay_for :
      (a : ReversalArgs) (actor now : ℕ) (reason : Text) (x : Reversal) (db : Db)
      → reversal_reason a.reason ≡ ok reason
      → bad_request_text a.request_id ≡ false
      → sole (filter (λ (y : Reversal). y.request_id == a.request_id) db.reversals) ≡ some (some x)
      → (x.correction_id == a.correction_id && x.reason == reason) ≡ true
      → reverse_for p a actor now db ≡ ok (record { id = x.id; created_at = x.created_at }, db)
  unfolding reverse_for
  replay_for a actor now reason x db h1 h2 h3 h4 = rw h1 (rw h2 (rw h3 (rw h4 refl)))

  same_reversal :
      (i : ℕ) (reason : Text) (x : Reversal)
      → x.correction_id ≡ i
      → x.reason ≡ reason
      → (x.correction_id == i && x.reason == reason) ≡ true
  same_reversal i reason x h k = ground (arith, eq_iff x.correction_id i, eq_iff x.reason reason)

  module _ (e : Evidences) (session_id_of : Text → Option ℕ) where
    -- A reversal that was accepted is not made again: the request sent again, by whichever operator
    -- and at whichever time, gets the first answer and writes nothing.
    pub reverse_twice :
        (a : ReversalArgs) (c later : Caller) (m : PortalMember) (db : Db) (r : CorrectionAnswer)
        (db' : Db)
        → reverse p e session_id_of a c db ≡ ok (r, db')
        → operator p e session_id_of later db' ≡ ok m
        → reverse p e session_id_of a later db' ≡ ok (r, db')
    unfolding reverse
    reverse_twice a c later m db r db' h may =
        rw may (elim (reverse_lem p e session_id_of a c db r db' h) [
          | replayed x reason h1 h2 h3 h4 answer same ↦
              rw same (rw answer (replay_for a m.user_id later.now reason x db h1 h2 h3 h4))
          | committed k actor reason h1 h2 h3 found h5 answer new ↦
              let x = reversal_row_of db.next_id (p.iso c.now) actor reason a.request_id k in
              let there =
                sole-filter-append (λ (y : Reversal). y.request_id == a.request_id) db.reversals x
                  h3 (eq_refl a.request_id) in
              rw new (
                rw answer (
                  replay_for a m.user_id later.now reason x
                    (record db { next_id = suc db.next_id; reversals = db.reversals ++ x ∷ [] }) h1
                    h2 there
                    (same_reversal a.correction_id reason x
                      (row_id-get_row a.correction_id db.corrections k found) refl)))
        ])
