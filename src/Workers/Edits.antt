-- ===== src/Workers/Edits.antt =====
-- convex/workers.ts: what an update may change of a worker's identity, and who may change it.
use fw_gatekeeper.Prelude.{ℕ, true, false, some, ◌≡◌, ◌⊎◌, inl, inr, refl, sym, ◌∙◌, subst, arith}
use fw_gatekeeper.Prelude.Tests.{
  Bool-cases, Option-cases, StrictEquality, eq_iff, nat_eq, ◌==◌, ◌!=◌, option_eq,
}
use fw_gatekeeper.Prelude.Text.{text_eq}
use fw_gatekeeper.Prelude.Result.{ok}
use fw_gatekeeper.Prelude.Table.{get_row}
use fw_gatekeeper.Schema.{Worker, worker_row, PortalMember, role_eq, enrollment, Db, Platform}
use fw_gatekeeper.Roster.Sequence.{stamp}
use fw_gatekeeper.Workers.Identity.{normalize_name, normalize_department, normalize_employee_id}
use fw_gatekeeper.Workers.Rows.{Enrolment}
use fw_gatekeeper.Workers.Update.{
  WorkerUpdate, given, changes_identity, next_name, next_employee_id, next_department,
  updated_fields, may_update, update_worker,
}
use fw_gatekeeper.Workers.Outcomes.{taken, update_worker_lem}

equal_of : {A : Type 0} ⦃q : StrictEquality A⦄ → (a b : A) → (a != b) ≡ false → a ≡ b
equal_of a b h = (eq_iff a b).0 (ground arith)

module _ (p : Platform) (e : Enrolment) where
  may_update-member :
      (u : WorkerUpdate) (w : Worker) (m : PortalMember) (now : ℕ)
      → may_update p e u w m now ≡ ok tt
      → (m.role == enrollment) ≡ true
      → changes_identity p u w ≡ false
  unfolding may_update
  may_update-member u w m now h r = elim (Bool-cases (changes_identity p u w)) [
    | inr no_change ↦ no_change
    | inl change ↦ elim (Bool-cases w.active) [
      | inl e1 ↦ absurd (ground arith)
      | inr e1 ↦ absurd (ground arith)
    ]
  ]

  -- The identity that an update without a change of it leaves.
  kept :
      (u : WorkerUpdate) (w : Worker)
      → changes_identity p u w ≡ false
      → ((next_name p u w ≡ w.name) ⊎ (next_name p u w ≡ normalize_name w.name))
        × ((next_employee_id p u w ≡ w.employee_id)
            ⊎ (next_employee_id p u w ≡ normalize_employee_id p w.employee_id))
        × ((next_department p u w ≡ w.department)
            ⊎ (next_department p u w ≡ normalize_department (some w.department)))
  unfolding changes_identity
  kept u w h = (
    elim (Option-cases u.name) [
      | inl e1 ↦ inl (ground arith)
      | inr (n, e1) ↦ inr (
          let same : (normalize_name n != normalize_name w.name) ≡ false = ground arith in
          let eq : next_name p u w ≡ normalize_name n = ground arith in
          eq ∙ equal_of (normalize_name n) (normalize_name w.name) same)
    ],
    elim (Bool-cases (given u.employee_id)) [
      | inr e1 ↦ inl (ground arith)
      | inl e1 ↦ inr (
          let same : (normalize_employee_id p u.employee_id
                != normalize_employee_id p w.employee_id)
              ≡ false =
            ground arith in
          let eq : next_employee_id p u w ≡ normalize_employee_id p u.employee_id = ground arith in
          eq
          ∙ equal_of (normalize_employee_id p u.employee_id) (normalize_employee_id p w.employee_id)
              same)
    ],
    elim (Bool-cases (given u.department)) [
      | inr e1 ↦ inl (ground arith)
      | inl e1 ↦ inr (
          let same : (normalize_department u.department != normalize_department (some w.department))
              ≡ false =
            ground arith in
          let eq : next_department p u w ≡ normalize_department u.department = ground arith in
          eq
          ∙ equal_of (normalize_department u.department) (normalize_department (some w.department))
              same)
    ],
  )

  -- An update by a member whose role is enrollment, where it is accepted, leaves the worker's row
  -- there with each of the name, the employee id and the department as it was, or as it was but
  -- normalized.
  pub enrollment_keeps_identity :
      (id : ℕ) (u : WorkerUpdate) (m : PortalMember) (now : ℕ) (w : Worker) (db db' : Db)
      → m.role ≡ enrollment
      → get_row id db.workers ≡ some w
      → update_worker p e id u m now db ≡ ok db'
      → (x : Worker) × (get_row id db'.workers ≡ some x)
        × ((x.name ≡ w.name) ⊎ (x.name ≡ normalize_name w.name))
        × ((x.employee_id ≡ w.employee_id)
            ⊎ (x.employee_id ≡ normalize_employee_id p w.employee_id))
        × ((x.department ≡ w.department)
            ⊎ (x.department ≡ normalize_department (some w.department)))
  enrollment_keeps_identity id u m now w db db' r found h =
      let may = (taken p e id u m now w db db' found h).0 in
      let (sequence, row) = update_worker_lem p e id u m now w db db' found h in
      let (name, employee_id, department) =
        kept u w
          (may_update-member u w m now may (subst (λ x. (x == enrollment) ≡ true) (sym r) refl)) in
      (
        stamp (updated_fields p u m.user_id (p.iso now)) sequence w,
        row,
        name,
        employee_id,
        department,
      )
