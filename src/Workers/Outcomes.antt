-- ===== src/Workers/Outcomes.antt =====
-- convex/workers.ts: what an accepted update does, part by part.
use fw_gatekeeper.Prelude.{
  ℕ, ◌+◌, Bool, true, false, Option, some, List, [], ◌∷◌, ◌≡◌, inl, inr, refl, ap, ◌∙◌, arith,
}
use fw_gatekeeper.Prelude.Tests.{Bool-cases, Option-cases, nat_beq_iff, nat_eq, ◌==◌, option_eq}
use fw_gatekeeper.Prelude.Text.{Text, text_eq}
use fw_gatekeeper.Prelude.Result.{ok, Result-cases}
use fw_gatekeeper.Prelude.Table.{get_row, get_row-patch_row}
use fw_gatekeeper.Schema.{Worker, worker_row, PortalMember, role_eq, Db, Platform}
use fw_gatekeeper.Roster.Sequence.{current, stamp, write_worker}
use fw_gatekeeper.Roster.Outcomes.{write_worker_lem}
use fw_gatekeeper.Workers.Photos.{
  has_id, upload_of, unique_onto, ids_of, consume_photo, consume_each, consume_photos,
  delete_replaced,
}
use fw_gatekeeper.Workers.Erasure.{delete_replaced_lem}
use fw_gatekeeper.Workers.Rows.{Enrolment}
use fw_gatekeeper.Workers.Update.{
  WorkerUpdate, writes_biometrics, updated_fields, check_name, check_employee_id, may_update,
  identities_for, delete_if, update_after, update_worker, audit_enrolment, audit_identity,
  alters_identity,
}

consume_photo-workers :
    (retained : List ℕ) (owner now file : ℕ) (db db' : Db)
    → consume_photo retained owner now file db ≡ ok db'
    → db'.workers ≡ db.workers
unfolding consume_photo
consume_photo-workers retained owner now file db db' h =
    elim (Bool-cases (has_id db.storage file)) [
      | inr e1 ↦ absurd (ground arith)
      | inl e1 ↦ elim (Result-cases (upload_of file db)) [
        | inr (bad, e2) ↦ absurd (ground arith)
        | inl (o, e2) ↦ elim (Option-cases o) [
          | inl e3 ↦ ground arith
          | inr (x, e3) ↦ elim (Bool-cases (x.owner_id == owner)) [
            | inr e4 ↦ absurd (ground arith)
            | inl e4 ↦ ground arith
          ]
        ]
      ]
    ]

consume_each-workers :
    (files retained : List ℕ) (owner now : ℕ) (db db' : Db)
    → consume_each files retained owner now db ≡ ok db'
    → db'.workers ≡ db.workers
unfolding consume_each
consume_each-workers [] retained owner now db db' h = ground arith
consume_each-workers (file ∷ files) retained owner now db db' h =
    elim (Result-cases (consume_photo retained owner now file db)) [
      | inr (bad, e) ↦ absurd (ground arith)
      | inl (db1, e) ↦
          consume_each-workers files retained owner now db1 db' (ground arith)
          ∙ consume_photo-workers retained owner now file db db1 e
    ]

consume_photos-workers :
    (ids existing : Option (List ℕ)) (owner now : ℕ) (db db' : Db)
    → consume_photos ids owner existing now db ≡ ok db'
    → db'.workers ≡ db.workers
unfolding consume_photos
consume_photos-workers ids existing owner now db db' h =
    consume_each-workers (unique_onto [] (ids_of ids)) (ids_of existing) owner now db db' h

module _ (p : Platform) (e : Enrolment) where
  delete_if-workers :
      (b : Bool) (w : Worker) (next : Option (List ℕ)) (db db' : Db)
      → delete_if p e b w next db ≡ ok db'
      → db'.workers ≡ db.workers
  delete_if-workers false w next db db' h = ground arith
  delete_if-workers true w next db db' h =
      elim (Result-cases (delete_replaced w.id w.photo_storage_ids next db)) [
        | inr (bad, e1) ↦ absurd (ground arith)
        | inl ((n, db1), e1) ↦
            let (files, is) = delete_replaced_lem w.id w.photo_storage_ids next db n db1 e1 in
            ground arith
      ]

  audits :
      (u : WorkerUpdate) (w : Worker) (actor : ℕ) (now : Text) (db : Db)
      → (audit_enrolment p e u w actor now (audit_identity p e u w actor now db)).workers
        ≡ db.workers
  audits u w actor now db = elim (Bool-cases (writes_biometrics u)) [
    | inl e1 ↦ elim (Bool-cases (alters_identity p u w)) [
      | inl e2 ↦ ground arith
      | inr e2 ↦ ground arith
    ]
    | inr e1 ↦ elim (Bool-cases (alters_identity p u w)) [
      | inl e2 ↦ ground arith
      | inr e2 ↦ ground arith
    ]
  ]

  written :
      (id : ℕ) (u : WorkerUpdate) (m : PortalMember) (now : ℕ) (w : Worker) (db1 db' : Db)
      → update_after p e id u m now w db1 ≡ ok db'
      → (db2 db3 : Db) × (db2.workers ≡ db1.workers)
        × (write_worker (updated_fields p u m.user_id (p.iso now)) id false db2 ≡ ok db3)
        × (db'.workers ≡ db3.workers)
  unfolding update_after
  written id u m now w db1 db' h = elim (Result-cases (identities_for p e u db1)) [
    | inr (bad, e1) ↦ absurd (ground arith)
    | inl (ws, e1) ↦ elim (Result-cases (check_name p id u.name ws)) [
      | inr (bad, e2) ↦ absurd (ground arith)
      | inl (t1, e2) ↦ elim (Result-cases (check_employee_id p id u.employee_id ws)) [
        | inr (bad, e3) ↦ absurd (ground arith)
        | inl (t2, e3) ↦
            elim (Result-cases (delete_if p e (writes_biometrics u) w u.photo_storage_ids db1)) [
              | inr (bad, e4) ↦ absurd (ground arith)
              | inl (db2, e4) ↦
                  elim (Result-cases
                    (write_worker (updated_fields p u m.user_id (p.iso now)) id false db2)) [
                      | inr (bad, e5) ↦ absurd (ground arith)
                      | inl (db3, e5) ↦ (
                        db2,
                        db3,
                        delete_if-workers (writes_biometrics u) w u.photo_storage_ids db1 db2 e4,
                        e5,
                        ground arith ∙ audits u w m.user_id (p.iso now) db3,
                      )
                    ]
            ]
      ]
    ]
  ]

  pub taken :
      (id : ℕ) (u : WorkerUpdate) (m : PortalMember) (now : ℕ) (w : Worker) (db db' : Db)
      → get_row id db.workers ≡ some w
      → update_worker p e id u m now db ≡ ok db'
      → (may_update p e u w m now ≡ ok tt)
        × (db1 : Db) × (db1.workers ≡ db.workers)
        × (update_after p e id u m now w db1 ≡ ok db')
  unfolding update_worker
  taken id u m now w db db' found h = elim (Result-cases (may_update p e u w m now)) [
    | inr (bad, e1) ↦ absurd (ground arith)
    | inl (t, e1) ↦
        elim (Result-cases
          (consume_photos u.photo_storage_ids m.user_id w.photo_storage_ids now db)) [
            | inr (bad, e2) ↦ absurd (ground arith)
            | inl (db1, e2) ↦ (
              e1,
              db1,
              consume_photos-workers u.photo_storage_ids w.photo_storage_ids m.user_id now db db1
                  e2,
              elim (Option-cases u.face_encoding) [
                | inl e3 ↦ ground arith
                | inr (x, e3) ↦ elim (Bool-cases (e.is_supported x)) [
                  | inl e4 ↦ ground arith
                  | inr e4 ↦ absurd (ground arith)
                ]
              ],
            )
          ]
  ]

  -- After an accepted update the row has the fields that the update writes, and some sequence.
  pub update_worker_lem :
      (id : ℕ) (u : WorkerUpdate) (m : PortalMember) (now : ℕ) (w : Worker) (db db' : Db)
      → get_row id db.workers ≡ some w
      → update_worker p e id u m now db ≡ ok db'
      → (sequence : ℕ) × (get_row id db'.workers
          ≡ some (stamp (updated_fields p u m.user_id (p.iso now)) sequence w))
  update_worker_lem id u m now w db db' found h =
      let (may, db1, same1, after) = taken id u m now w db db' found h in
      let (db2, db3, same2, write, same3) = written id u m now w db1 db' after in
      let f = stamp (updated_fields p u m.user_id (p.iso now)) (current db2 + 1) in
      let row : get_row id db2.workers ≡ some w =
        ap (λ ws. get_row id ws) (same2 ∙ same1) ∙ found in
      (
        current db2 + 1,
        ap (λ ws. get_row id ws)
              (same3
                ∙ ap (λ (d : Db). d.workers)
                    (write_worker_lem (updated_fields p u m.user_id (p.iso now)) id false db2 db3
                      write))
            ∙ get_row-patch_row id id f db2.workers (λ x. refl)
            ∙ rw ((nat_beq_iff id id).1 refl) (rw row refl),
      )
