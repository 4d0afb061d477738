-- ===== src/Attendance/Effective/Undone.antt =====
-- convex/attendance.ts over convex/attendanceCorrections.ts: a correction that is reversed leaves no
-- trace in the effective attendance.
use fw_gatekeeper.Prelude.{
  ℕ, suc, Bool, ◌<◌, ◌≢◌, ◌&&◌, Option, none, some, List, [], ◌∷◌, ◌++◌, ◌≡◌, inl, inr, refl, sym,
  ap, ◌∙◌, subst, arith,
}
use fw_gatekeeper.Prelude.Tests.{Bool-cases, ◌==◌, nat_eq, nat_beq_iff}
use fw_gatekeeper.Prelude.Lists.{
  All, All-map, All-filter, take, filter, filter-append_rejected, filter-append_taken,
  filter-and_none, sole, sole-none, sole-some,
}
use fw_gatekeeper.Prelude.Text.{Text, text_eq, text_beq_iff}
use fw_gatekeeper.Prelude.Result.{ok, ◌>>=◌}
use fw_gatekeeper.Prelude.Table.{AllBelow, get_row, get_row-append_new}
use fw_gatekeeper.Schema.{Correction, correction_row, Reversal, Db, Platform}
use fw_gatekeeper.Access.{Caller}
use fw_gatekeeper.Attendance.Corrections.{
  Evidences, CorrectionArgs, CorrectionAnswer, correction_row_of, requested, create,
}
use fw_gatekeeper.Attendance.Corrections.Created.{Created, create_lem}
use fw_gatekeeper.Attendance.Reversals.{ReversalArgs, reversal_row_of, reverse}
use fw_gatekeeper.Attendance.Reversals.Outcomes.{Reversed, reverse_lem}
use fw_gatekeeper.Attendance.Effective.{
  FactoryCalendar, corrections_on, reversals_by_date, reversals_by_correction, keep_active,
  list_active, active_corrections, list_attendance, apply_corrections, list_effective,
}

-- Corrections that are read alike are active alike.
list_active-same :
    (f g : Correction → List Reversal) (cs : List Correction)
    → All (λ c. f c ≡ g c) cs
    → list_active f cs ≡ list_active g cs
unfolding list_active
list_active-same f g [] h = refl
list_active-same f g (c ∷ cs) (e, h) =
    ap (λ rs. keep_active c rs (list_active f cs)) e
    ∙ ap (keep_active c (g c)) (list_active-same f g cs h)

below_fresh :
    (n i : ℕ) (cs : List Correction) → i ≡ n → AllBelow n cs → All (λ (d : Correction). d.id ≢ i) cs
below_fresh n i [] e h = tt
below_fresh n i (c ∷ cs) e (a, h) = (λ k. omega (arith, a, k, e), below_fresh n i cs e h)

-- A last correction that has its reversal is not active.
list_active-reversed :
    (f : Correction → List Reversal) (cs : List Correction) (c : Correction) (r : Reversal)
    → f c ≡ r ∷ []
    → list_active f (cs ++ c ∷ []) ≡ list_active f cs
unfolding list_active
list_active-reversed f [] c r h = ap (λ rs. keep_active c rs (ok [])) h
list_active-reversed f (d ∷ cs) c r h = ap (keep_active d (f d)) (list_active-reversed f cs c r h)

module _ (r : Reversal) (db after : Db) (is : after.reversals ≡ db.reversals ++ r ∷ []) where
  others_by_date :
      (c : Correction) → c.id ≢ r.correction_id → reversals_by_date after c ≡ reversals_by_date db c
  others_by_date c other =
      ap (filter (λ (x : Reversal). x.date == c.date && x.correction_id == c.id)) is
      ∙ filter-append_rejected (λ (x : Reversal). x.date == c.date && x.correction_id == c.id)
          db.reversals r
          (elim (Bool-cases (r.date == c.date)) [ inl e ↦ ground arith | inr e ↦ ground arith ])

  others_by_correction :
      (c : Correction)
      → c.id ≢ r.correction_id
      → reversals_by_correction after c ≡ reversals_by_correction db c
  others_by_correction c other =
      ap (λ rs. take 2 (filter (λ (x : Reversal). x.correction_id == c.id) rs)) is
      ∙ ap (take 2) (
          filter-append_rejected (λ (x : Reversal). x.correction_id == c.id) db.reversals r
            (ground arith))

  own_by_date :
      (c : Correction)
      → filter (λ (x : Reversal). x.correction_id == c.id) db.reversals ≡ []
      → r.correction_id ≡ c.id
      → r.date ≡ c.date
      → reversals_by_date after c ≡ r ∷ []
  own_by_date c none_ mine day =
      ap (filter (λ (x : Reversal). x.date == c.date && x.correction_id == c.id)) is
      ∙ filter-append_taken (λ (x : Reversal). x.date == c.date && x.correction_id == c.id)
          db.reversals r
          (rw ((text_beq_iff r.date c.date).1 day) ((nat_beq_iff r.correction_id c.id).1 mine))
      ∙ ap (λ rs. rs ++ r ∷ [])
          (filter-and_none (λ (x : Reversal). x.date == c.date)
            (λ (x : Reversal). x.correction_id == c.id) db.reversals none_)

  own_by_correction :
      (c : Correction)
      → filter (λ (x : Reversal). x.correction_id == c.id) db.reversals ≡ []
      → r.correction_id ≡ c.id
      → reversals_by_correction after c ≡ r ∷ []
  own_by_correction c none_ mine =
      ap (λ rs. take 2 (filter (λ (x : Reversal). x.correction_id == c.id) rs)) is
      ∙ ap (take 2) (
          filter-append_taken (λ (x : Reversal). x.correction_id == c.id) db.reversals r
            ((nat_beq_iff r.correction_id c.id).1 mine))
      ∙ ap (λ rs. take 2 (rs ++ r ∷ [])) none_

  -- By either read, what stands of corrections that had one more, with its reversal, is what stood.
  undone_part :
      (test : Correction → Bool) (c : Correction) (f g : Correction → List Reversal)
      → after.corrections ≡ db.corrections ++ c ∷ []
      → ((d : Correction) → d.id ≢ r.correction_id → g d ≡ f d)
      → g c ≡ r ∷ []
      → All (λ (d : Correction). d.id ≢ r.correction_id) db.corrections
      → list_active g (filter test after.corrections) ≡ list_active f (filter test db.corrections)
  undone_part test c f g added others own fresh =
      ap (λ cs. list_active g (filter test cs)) added ∙ elim (Bool-cases (test c)) [
        | inl e ↦
            ap (list_active g) (filter-append_taken test db.corrections c e)
            ∙ list_active-reversed g (filter test db.corrections) c r own
            ∙ same
        | inr e ↦ ap (list_active g) (filter-append_rejected test db.corrections c e) ∙ same
      ]
    where
      same : list_active g (filter test db.corrections) ≡ list_active f (filter test db.corrections)
      same = list_active-same g f (filter test db.corrections) (
          All-map (λ (d : Correction). d.id ≢ r.correction_id) (λ d. g d ≡ f d)
            (filter test db.corrections) others
            (All-filter (λ (d : Correction). d.id ≢ r.correction_id) test db.corrections fresh))

module _ (p : Platform) (e : Evidences) (session_id_of : Text → Option ℕ)
    (calendar : FactoryCalendar) where
  module _ (c : Correction) (r : Reversal) (db after : Db) (same : after.attendance ≡ db.attendance)
      (added : after.corrections ≡ db.corrections ++ c ∷ [])
      (undone : after.reversals ≡ db.reversals ++ r ∷ []) (mine : r.correction_id ≡ c.id)
      (day : r.date ≡ c.date)
      (none_ : filter (λ (x : Reversal). x.correction_id == c.id) db.reversals ≡ [])
      (fresh : All (λ (d : Correction). d.id ≢ r.correction_id) db.corrections) where
    day_part :
        (date : Text)
        → list_active (reversals_by_date after) (corrections_on date after)
          ≡ list_active (reversals_by_date db) (corrections_on date db)
    day_part date =
        undone_part r db after undone (λ (x : Correction). x.date == date) c (reversals_by_date db)
          (reversals_by_date after) added (others_by_date r db after undone)
          (own_by_date r db after undone c none_ mine day) fresh

    active-same :
        (date : Text) (worker : Option Text)
        → active_corrections p calendar date worker after
          ≡ active_corrections p calendar date worker db
    active-same date none = day_part date
    active-same date (some []) = day_part date
    active-same date (some (k ∷ w)) =
        undone_part r db after undone (λ (x : Correction). x.worker_id == k ∷ w && x.date == date) c
          (reversals_by_correction db) (reversals_by_correction after) added
          (others_by_correction r db after undone)
          (own_by_correction r db after undone c none_ mine) fresh

    undone-list_effective :
        (date : Text) (worker : Option Text)
        → list_effective p calendar date worker after ≡ list_effective p calendar date worker db
    unfolding list_effective list_attendance
    undone-list_effective date worker =
        let rows : list_attendance p calendar date worker after
            ≡ list_attendance p calendar date worker db =
          ap (λ xs. list_attendance p calendar date worker (record db { attendance = xs })) same in
        ap
          (λ active. list_attendance p calendar date worker after >>= λ shown.
            active >>= λ standing. ok (apply_corrections p calendar shown standing))
          (active-same date worker)
        ∙ ap
            (λ read. read >>= λ shown. active_corrections p calendar date worker db >>= λ standing.
              ok (apply_corrections p calendar shown standing))
            rows

  -- A correction that was committed, and its reversal.
  both_committed :
      (b : ReversalArgs) (actor : ℕ) (reason : Text) (made taken : ℕ) (db db1 db2 : Db)
      (a : CorrectionArgs) (c : Correction) (why_by : ℕ) (why date : Text) (worker : Option Text)
      → AllBelow db.next_id db.corrections
      → db1 ≡ record db {
        next_id = suc db.next_id;
        corrections =
            db.corrections ++ correction_row_of p e db.next_id (p.iso made) actor reason a ∷ [];
      }
      → b.correction_id ≡ db.next_id
      → get_row b.correction_id db1.corrections ≡ some c
      → sole (filter (λ (y : Reversal). y.correction_id == b.correction_id) db1.reversals)
        ≡ some none
      → db2 ≡ record db1 {
        next_id = suc db1.next_id;
        reversals =
            db1.reversals
            ++ reversal_row_of db1.next_id (p.iso taken) why_by why b.request_id c ∷ [];
      }
      → list_effective p calendar date worker db2 ≡ list_effective p calendar date worker db
  both_committed b actor reason made taken db db1 db2 a c why_by why date worker below is at_next
        found none_ is2 =
      let row = correction_row_of p e db.next_id (p.iso made) actor reason a in
      let added : db1.corrections ≡ db.corrections ++ row ∷ [] =
        ap (λ (d : Db). d.corrections) is in
      let kept : db1.reversals ≡ db.reversals = ap (λ (d : Db). d.reversals) is in
      let undo = reversal_row_of db1.next_id (p.iso taken) why_by why b.request_id c in
      let by_id : get_row db.next_id (db.corrections ++ row ∷ []) ≡ some c =
        ap (λ cs. get_row db.next_id cs) (sym added)
        ∙ ap (λ i. get_row i db1.corrections) (sym at_next)
        ∙ found in
      let is_row : c ≡ row =
        ground (arith, get_row-append_new db.next_id db.corrections row below refl, by_id) in
      undone-list_effective row undo db db2
        (ap (λ (d : Db). d.attendance) is2 ∙ ap (λ (d : Db). d.attendance) is)
        (ap (λ (d : Db). d.corrections) is2 ∙ added)
        (ap (λ (d : Db). d.reversals) is2 ∙ ap (λ rs. rs ++ undo ∷ []) kept)
        (ap (λ (x : Correction). x.id) is_row) (ap (λ (x : Correction). x.date) is_row)
        (ap (λ i. filter (λ (x : Reversal). x.correction_id == i) db.reversals) (sym at_next)
          ∙ ap (filter (λ (x : Reversal). x.correction_id == b.correction_id)) (sym kept)
          ∙ sole-none _ none_)
        (below_fresh db.next_id c.id db.corrections (ap (λ (x : Correction). x.id) is_row) below)
        date worker

  -- A correction that a request makes and that is reversed later leaves the effective attendance of
  -- every date, of one worker or of all, as it was before it, an error included; where ids of
  -- corrections lie below the store's counter, reversals are of stored corrections, and the request
  -- has not been used before.
  pub reverse-list_effective :
      (a : CorrectionArgs) (b : ReversalArgs) (c1 c2 : Caller) (db db1 db2 : Db)
      (made taken : CorrectionAnswer) (date : Text) (worker : Option Text)
      → AllBelow db.next_id db.corrections
      → All (λ (r : Reversal). r.correction_id < db.next_id) db.reversals
      → requested p e a.request_id db ≡ ok none
      → create p e session_id_of a c1 db ≡ ok (made, db1)
      → b.correction_id ≡ made.id
      → reverse p e session_id_of b c2 db1 ≡ ok (taken, db2)
      → list_effective p calendar date worker db2 ≡ list_effective p calendar date worker db
  reverse-list_effective a b c1 c2 db db1 db2 made taken date worker below stored new h1 same h2 =
      elim (create_lem p e session_id_of a c1 db made db1 h1) [
        | Created.replayed c actor reason e1 e2 e3 e4 e5 e6 ↦ absurd (ground arith)
        | Created.committed actor reason e1 e2 e3 e4 e5 id is ↦
            elim (reverse_lem p e session_id_of b c2 db1 taken db2 h2) [
              | Reversed.replayed x why f1 f2 f3 f4 f5 f6 ↦
                  let one : filter (λ (y : Reversal). y.request_id == b.request_id) db.reversals
                      ≡ x ∷ [] =
                    ap
                      (λ (d : Db).
                        filter (λ (y : Reversal). y.request_id == b.request_id) d.reversals)
                      (sym is)
                    ∙ sole-some _ x f3 in
                  let old : All (λ (y : Reversal). y.correction_id < db.next_id) (x ∷ []) =
                    subst (All (λ (y : Reversal). y.correction_id < db.next_id)) one (
                      All-filter (λ (y : Reversal). y.correction_id < db.next_id)
                        (λ (y : Reversal). y.request_id == b.request_id) db.reversals stored) in
                  let at_next : x.correction_id ≡ db.next_id = ground arith in
                  absurd (omega (arith, old.0, at_next))
              | Reversed.committed c why_by why f1 f2 f3 found none_ taken_is is2 ↦
                  both_committed b actor reason c1.now c2.now db db1 db2 a c why_by why date worker
                    below is (same ∙ ap (λ (x : CorrectionAnswer). x.id) id) found none_ is2
            ]
      ]
