-- ===== src/Workers/Erasure.antt =====
-- convex/workers.ts: a purge erases what was stored of a worker's face, and asks every kiosk to.
use fw_gatekeeper.Prelude.{
  ℕ, ◌+◌, true, false, not, Option, none, some, List, [], ◌∷◌, ◌≡◌, refl, sym, ap, ◌∙◌, subst, inl,
  inr, arith,
}
use fw_gatekeeper.Prelude.Tests.{Bool-cases, Option-cases, ltb, nat_beq_iff, nat_eq}
use fw_gatekeeper.Prelude.Lists.{All, filter, length, take}
use fw_gatekeeper.Prelude.Text.{Text, trim}
use fw_gatekeeper.Prelude.Result.{ok, Result-cases}
use fw_gatekeeper.Prelude.Table.{get_row, get_row-patch_row}
use fw_gatekeeper.Schema.{Worker, worker_row, Kiosk, admin, Db, Platform}
use fw_gatekeeper.Access.{Caller}
use fw_gatekeeper.Roster.Sequence.{current, last_purge, stamp, write_worker}
use fw_gatekeeper.Roster.Receipts.{purge_pending}
use fw_gatekeeper.Roster.Outcomes.{write_worker_lem}
use fw_gatekeeper.Roster.Invariant.{RosterIsValid}
use fw_gatekeeper.Roster.Purge.{quiet, purge_stays_pending}
use fw_gatekeeper.Workers.Photos.{
  has_id, is_empty, replaced, photos_of_others, delete_files, delete_replaced,
}
use fw_gatekeeper.Workers.Rows.{Enrolment, purged_fields}
use fw_gatekeeper.Workers.Handlers.{purge_worker, purge_biometrics, staff}

-- Deleting photos changes the storage and nothing else.
pub delete_replaced_lem :
    (id : ℕ) (previous next : Option (List ℕ)) (db : Db) (n : ℕ) (db' : Db)
    → delete_replaced id previous next db ≡ ok (n, db')
    → (files : List ℕ) × (db' ≡ record db { storage = files })
unfolding delete_replaced
delete_replaced_lem id previous next db n db' h =
    elim (Bool-cases (is_empty (replaced previous next))) [
      | inl none_ ↦ (db.storage, ground arith)
      | inr some_ ↦ elim (Bool-cases (ltb 1000 (length (take 1001 db.workers)))) [
        | inl many ↦ absurd (ground arith)
        | inr few ↦ (
          delete_files
              (filter (λ i. not (has_id (photos_of_others id db.workers) i))
                (replaced previous next))
              db.storage,
          ground arith,
        )
      ]
    ]

pending_of_each :
    (last : Option ℕ) (ks : List Kiosk)
    → ((k : ℕ) → All (λ (x : Kiosk). x.id ≡ k → purge_pending last x ≡ true) ks)
    → All (λ (x : Kiosk). purge_pending last x ≡ true) ks
pending_of_each last [] h = tt
pending_of_each last (x ∷ ks) h = ((h x.id).0 refl, pending_of_each last ks (λ k. (h k).1))

-- The kiosks and the counter are all that a kiosk's being pending depends on.
pending_in :
    (db after : Db)
    → db.kiosks ≡ after.kiosks
    → db.roster_counter ≡ after.roster_counter
    → All (λ (x : Kiosk). purge_pending (last_purge after) x ≡ true) after.kiosks
    → All (λ (x : Kiosk). purge_pending (last_purge db) x ≡ true) db.kiosks
pending_in db after same_kiosks same_counter h =
    subst
      (λ c.
        All (λ (x : Kiosk). purge_pending (last_purge (record db { roster_counter = c })) x ≡ true)
          db.kiosks)
      (sym same_counter)
      (subst (λ ks. All (λ (x : Kiosk). purge_pending (last_purge after) x ≡ true) ks)
        (sym same_kiosks) h)

module _ (p : Platform) (e : Enrolment) where
  pub purge_worker_lem :
      (id : ℕ) (reason : Text) (actor now : ℕ) (db : Db) (n : ℕ) (db' : Db)
      → purge_worker p e id reason actor now db ≡ ok (n, db')
      → (w : Worker) × (mid after : Db) × (get_row id db.workers ≡ some w)
        × (delete_replaced w.id w.photo_storage_ids none db ≡ ok (n, mid))
        × (write_worker (purged_fields (p.iso now)) id true mid ≡ ok after)
        × (db'.workers ≡ after.workers)
        × (db'.kiosks ≡ after.kiosks)
        × (db'.roster_counter ≡ after.roster_counter)
        × (db'.storage ≡ after.storage)
  unfolding purge_worker
  purge_worker_lem id reason actor now db n db' h =
      elim (Bool-cases (ltb 0 (length (trim reason)))) [
        | inr empty ↦ absurd (ground arith)
        | inl given ↦ elim (Option-cases (get_row id db.workers)) [
          | inl gone ↦ absurd (ground arith)
          | inr (w, found) ↦
              elim (Result-cases (delete_replaced w.id w.photo_storage_ids none db)) [
                | inr (bad, e1) ↦ absurd (ground arith)
                | inl ((k, mid), e1) ↦
                    elim (Result-cases (write_worker (purged_fields (p.iso now)) id true mid)) [
                      | inr (bad, e2) ↦ absurd (ground arith)
                      | inl (after, e2) ↦ (
                        w,
                        mid,
                        after,
                        found,
                        ground arith,
                        e2,
                        ground arith,
                        ground arith,
                        ground arith,
                        ground arith,
                      )
                    ]
              ]
        ]
      ]

  erased :
      (id : ℕ) (now : Text) (w : Worker) (mid after : Db)
      → get_row id mid.workers ≡ some w
      → write_worker (purged_fields now) id true mid ≡ ok after
      → (x : Worker) × (get_row id after.workers ≡ some x)
        × (x.face_encoding ≡ none)
        × (x.photo_storage_ids ≡ none)
        × (x.active ≡ false)
  erased id now w mid after found h =
      let f = stamp (purged_fields now) (current mid + 1) in
      (
        f w,
        rw (write_worker_lem (purged_fields now) id true mid after h) (
            get_row-patch_row id id f mid.workers (λ x. refl)
            ∙ rw ((nat_beq_iff id id).1 refl) (rw found refl)),
        refl,
        refl,
        refl,
      )

  valid_storage :
      (files : List ℕ) (db : Db) → RosterIsValid db → RosterIsValid (record db { storage = files })
  valid_storage files db v = record {
    workers = v.workers;
    kiosks = v.kiosks;
    receipts = v.receipts;
    purge = v.purge;
  }

  module _ (session_id_of : Text → Option ℕ) where
    pub purge_biometrics_lem :
        (id : ℕ) (reason : Text) (c : Caller) (db : Db) (n : ℕ) (db' : Db)
        → purge_biometrics p e session_id_of id reason c db ≡ ok (n, db')
        → (actor : ℕ) × (purge_worker p e id reason actor c.now db ≡ ok (n, db'))
    unfolding purge_biometrics
    purge_biometrics_lem id reason c db n db' h =
        elim (Result-cases (staff p e session_id_of (admin ∷ []) c db)) [
          | inr (bad, e1) ↦ absurd (ground arith)
          | inl (m, e1) ↦ (m.user_id, ground arith)
        ]

    -- An accepted purge leaves the worker's record inactive and without face data or photos, and
    -- every kiosk is then shown as pending.
    pub purge_biometrics_erases :
        (id : ℕ) (reason : Text) (c : Caller) (db : Db) (n : ℕ) (db' : Db)
        → RosterIsValid db
        → purge_biometrics p e session_id_of id reason c db ≡ ok (n, db')
        → ((x : Worker) × (get_row id db'.workers ≡ some x)
            × (x.face_encoding ≡ none)
            × (x.photo_storage_ids ≡ none)
            × (x.active ≡ false))
          × All (λ (x : Kiosk). purge_pending (last_purge db') x ≡ true) db'.kiosks
    purge_biometrics_erases id reason c db n db' v h =
        let (actor, done) = purge_biometrics_lem id reason c db n db' h in
        let (w, mid, after, found, deleted, written, same_workers, same_kiosks, same_counter, _) =
          purge_worker_lem id reason actor c.now db n db' done in
        let (files, is) = delete_replaced_lem w.id w.photo_storage_ids none db n mid deleted in
        let row : get_row id mid.workers ≡ some w =
          ap (λ (d : Db). get_row id d.workers) is ∙ found in
        let valid : RosterIsValid mid = subst RosterIsValid (sym is) (valid_storage files db v) in
        (
          rw same_workers (erased id (p.iso c.now) w mid after row written),
          pending_in db' after same_kiosks same_counter (
              pending_of_each (last_purge after) after.kiosks (λ k.
                purge_stays_pending p (purged_fields (p.iso c.now)) id k mid after after valid
                  written quiet)),
        )
