-- ===== src/Attendance/Corrections/Replay.antt =====
-- convex/attendanceCorrections.ts: a request that is sent again gets the answer of the first time.
use fw_gatekeeper.Prelude.{
  ℕ, suc, true, false, Option, none, some, [], ◌∷◌, ◌++◌, ◌≡◌, refl, sym, subst, arith,
}
use fw_gatekeeper.Prelude.Tests.{◌==◌, nat_eq, option_eq, eq_refl}
use fw_gatekeeper.Prelude.Lists.{sole-filter-append}
use fw_gatekeeper.Prelude.Text.{Text, text_eq}
use fw_gatekeeper.Prelude.Result.{ok, present-ok}
use fw_gatekeeper.Schema.{action_eq, Correction, PortalMember, Db, Platform}
use fw_gatekeeper.Access.{Caller}
use fw_gatekeeper.Attendance.Corrections.{
  Evidences, CorrectionArgs, CorrectionAnswer, normalize_text, bad_request_id_of, correction_row_of,
  same_evidence, ambiguous_request, requested, create_for, operator, create,
}
use fw_gatekeeper.Attendance.Corrections.Created.{replayed, committed, create_lem}

module _ (p : Platform) (e : Evidences) where
  same_evidence_refl : (c : Correction) → same_evidence p e c c ≡ true
  same_evidence_refl c = ground (
    arith,
    eq_refl c.date,
    eq_refl c.worker_id,
    eq_refl c.action,
    eq_refl c.corrected_timestamp,
    eq_refl c.original_attendance_id,
    eq_refl c.related_exception_key,
    eq_refl c.source_fingerprint,
    eq_refl c.reason,
    eq_refl c.supervisor_name,
  )

  requested-commit :
      (t : Text) (db : Db) (x : Correction) (n : ℕ)
      → requested p e (some t) db ≡ ok none
      → x.request_id ≡ some t
      → requested p e (some t) (record db { next_id = n; corrections = db.corrections ++ x ∷ [] })
        ≡ ok (some x)
  requested-commit t db x n h same =
      rw
        (sole-filter-append (λ (c : Correction). c.request_id == some t) db.corrections x
          (present-ok _ ambiguous_request h) (rw same (eq_refl t)))
        refl

  replay_for :
      (a : CorrectionArgs) (actor now : ℕ) (reason : Text) (c : Correction) (db : Db)
      → normalize_text (some a.reason) ≡ some reason
      → bad_request_id_of a.request_id ≡ false
      → requested p e a.request_id db ≡ ok (some c)
      → same_evidence p e c (correction_row_of p e c.id c.created_at actor reason a) ≡ true
      → create_for p e a actor now db ≡ ok (record { id = c.id; created_at = c.created_at }, db)
  unfolding create_for
  replay_for a actor now reason c db h1 h2 h3 h4 = rw h1 (rw h2 (rw h3 (rw h4 refl)))

  module _ (session_id_of : Text → Option ℕ) where
    -- A correction that was created for a request id is not created again: the request sent again,
    -- by whichever operator and at whichever time, gets the first answer and writes nothing.
    pub create_twice :
        (a : CorrectionArgs) (t : Text) (c later : Caller) (m : PortalMember) (db : Db)
        (r : CorrectionAnswer) (db' : Db)
        → a.request_id ≡ some t
        → create p e session_id_of a c db ≡ ok (r, db')
        → operator p e session_id_of later db' ≡ ok m
        → create p e session_id_of a later db' ≡ ok (r, db')
    unfolding create
    create_twice a t c later m db r db' key h may =
        rw may (elim (create_lem p e session_id_of a c db r db' h) [
          | replayed x actor reason h1 h2 h3 h4 answer same ↦
              rw same (rw answer (replay_for a m.user_id later.now reason x db h1 h2 h3 h4))
          | committed actor reason h1 h2 h3 void_ok add_ok answer new ↦
              let x = correction_row_of p e db.next_id (p.iso c.now) actor reason a in
              let first = subst (λ k. requested p e k db ≡ ok none) key h3 in
              let there = requested-commit t db x (suc db.next_id) first key in
              rw new (
                rw answer (
                  replay_for a m.user_id later.now reason x
                    (record db { next_id = suc db.next_id; corrections = db.corrections ++ x ∷ [] })
                    h1 h2
                    (subst
                      (λ k.
                        requested p e k (record db {
                          next_id = suc db.next_id;
                          corrections = db.corrections ++ x ∷ [];
                        })
                        ≡ ok (some x))
                      (sym key) there)
                    (same_evidence_refl x)))
        ])
