-- ===== src/Workers/Files.antt =====
-- convex/workers.ts: a purge deletes the files of the worker's photos.
use fw_gatekeeper.Prelude.{
  ℕ, Bool, true, false, not, Option, none, some, List, [], ◌∷◌, ◌≡◌, refl, sym, ap, ◌∙◌, subst, inl,
  inr, arith,
}
use fw_gatekeeper.Prelude.Tests.{Bool-cases, ltb, nat_beq, nat_eq}
use fw_gatekeeper.Prelude.Lists.{filter, any, length, take}
use fw_gatekeeper.Prelude.Text.{Text}
use fw_gatekeeper.Prelude.Result.{ok}
use fw_gatekeeper.Prelude.Table.{get_row}
use fw_gatekeeper.Schema.{Worker, worker_row, Db, Platform}
use fw_gatekeeper.Access.{Caller}
use fw_gatekeeper.Roster.Outcomes.{write_worker_lem}
use fw_gatekeeper.Workers.Photos.{
  has_id, ids_of, is_empty, unique_onto, replaced, photos_of_others, delete_file, delete_files,
  delete_replaced,
}
use fw_gatekeeper.Workers.Rows.{Enrolment, purged_fields}
use fw_gatekeeper.Workers.Handlers.{purge_biometrics}
use fw_gatekeeper.Workers.Erasure.{purge_worker_lem, purge_biometrics_lem}

has_id-filter :
    (t : ℕ → Bool) (ids : List ℕ) (i : ℕ)
    → has_id ids i ≡ true
    → t i ≡ true
    → has_id (filter t ids) i ≡ true
unfolding any filter
has_id-filter t [] i h k = h
has_id-filter t (j ∷ ids) i h k = elim (Bool-cases (nat_beq j i)) [
  | inl same ↦ let eq : j ≡ i = ground arith in rw (ap t eq ∙ k) (rw same refl)
  | inr other ↦ elim (Bool-cases (t j)) [
    | inl kept ↦ rw kept (rw other (has_id-filter t ids i (rw other at h) k))
    | inr gone ↦ rw gone (has_id-filter t ids i (rw other at h) k)
  ]
]

has_id-unique_onto :
    (seen ids : List ℕ) (i : ℕ)
    → has_id seen i ≡ false
    → has_id ids i ≡ true
    → has_id (unique_onto seen ids) i ≡ true
unfolding any unique_onto
has_id-unique_onto seen [] i s h = h
has_id-unique_onto seen (j ∷ ids) i s h = elim (Bool-cases (nat_beq j i)) [
  | inl same ↦ let eq : j ≡ i = ground arith in rw (ap (has_id seen) eq ∙ s) (rw same refl)
  | inr other ↦ elim (Bool-cases (has_id seen j)) [
    | inl old ↦ rw old (has_id-unique_onto seen ids i s (rw other at h))
    | inr new ↦ rw new (rw other (has_id-unique_onto (j ∷ seen) ids i (rw other s) (rw other at h)))
  ]
]

absent_after_file :
    (d : ℕ) (files : List ℕ) (i : ℕ)
    → has_id files i ≡ false
    → has_id (delete_file d files) i ≡ false
unfolding any delete_file filter
absent_after_file d [] i h = h
absent_after_file d (j ∷ files) i h = ground (arith, absent_after_file d files i)

absent_stays :
    (ids files : List ℕ) (i : ℕ)
    → has_id files i ≡ false
    → has_id (delete_files ids files) i ≡ false
unfolding delete_files
absent_stays [] files i h = h
absent_stays (d ∷ ids) files i h =
    absent_stays ids (delete_file d files) i (absent_after_file d files i h)

file_deleted : (files : List ℕ) (i : ℕ) → has_id (delete_file i files) i ≡ false
unfolding any delete_file filter
file_deleted [] i = refl
file_deleted (j ∷ files) i = ground (arith, file_deleted files i)

all_deleted :
    (ids files : List ℕ) (i : ℕ) → has_id ids i ≡ true → has_id (delete_files ids files) i ≡ false
unfolding any delete_files
all_deleted [] files i h = absurd (ground arith)
all_deleted (d ∷ ids) files i h = elim (Bool-cases (nat_beq d i)) [
  | inl same ↦
      let eq : i ≡ d = ground arith in
      absent_stays ids (delete_file d files) i
        (subst (λ k. has_id (delete_file d files) k ≡ false) (sym eq) (file_deleted files d))
  | inr other ↦ all_deleted ids (delete_file d files) i (rw other at h)
]

no_id : (i : ℕ) → has_id [] i ≡ false
unfolding any
no_id i = refl

nothing_empty : (ids : List ℕ) (i : ℕ) → has_id ids i ≡ true → is_empty ids ≡ false
unfolding any
nothing_empty [] i h = ground arith
nothing_empty (j ∷ ids) i h = refl

delete_replaced_files :
    (id : ℕ) (previous : Option (List ℕ)) (db : Db) (n : ℕ) (db' : Db) (i : ℕ)
    → delete_replaced id previous none db ≡ ok (n, db')
    → has_id (ids_of previous) i ≡ true
    → has_id (photos_of_others id db.workers) i ≡ false
    → has_id db'.storage i ≡ false
unfolding delete_replaced
delete_replaced_files id previous db n db' i h mine alone =
    let listed : has_id (replaced previous none) i ≡ true =
      has_id-unique_onto [] _ i (no_id i)
        (has_id-filter (λ j. not (has_id [] j)) (ids_of previous) i mine (rw (no_id i) refl)) in
    let gone =
      has_id-filter (λ j. not (has_id (photos_of_others id db.workers) j)) (replaced previous none)
        i listed (rw alone refl) in
    elim (Bool-cases (ltb 1000 (length (take 1001 db.workers)))) [
      | inl many ↦
          absurd (let some_ = nothing_empty (replaced previous none) i listed in ground arith)
      | inr few ↦
          let some_ = nothing_empty (replaced previous none) i listed in
          let is : delete_files
                (filter (λ j. not (has_id (photos_of_others id db.workers) j))
                  (replaced previous none))
                db.storage
              ≡ db'.storage =
            ground arith in
          rw (sym is) (all_deleted _ db.storage i gone)
    ]

module _ (p : Platform) (e : Enrolment) (session_id_of : Text → Option ℕ) where
  -- After an accepted purge the storage holds none of the photos that the worker's record had, but
  -- for one that another worker's record refers to.
  pub purge_biometrics_deletes_files :
      (id : ℕ) (reason : Text) (c : Caller) (db : Db) (n : ℕ) (db' : Db) (w : Worker) (i : ℕ)
      → get_row id db.workers ≡ some w
      → has_id (ids_of w.photo_storage_ids) i ≡ true
      → has_id (photos_of_others w.id db.workers) i ≡ false
      → purge_biometrics p e session_id_of id reason c db ≡ ok (n, db')
      → has_id db'.storage i ≡ false
  purge_biometrics_deletes_files id reason c db n db' w i found mine alone h =
      let (actor, done) = purge_biometrics_lem p e session_id_of id reason c db n db' h in
      let (x, mid, after, found_x, deleted, written, _, _, _, same_files) =
        purge_worker_lem p e id reason actor c.now db n db' done in
      let one : some w ≡ some x = sym found ∙ found_x in
      let same : w ≡ x = ground arith in
      let gone =
        delete_replaced_files x.id x.photo_storage_ids db n mid i deleted
          (subst (λ y. has_id (ids_of y.photo_storage_ids) i ≡ true) same mine)
          (subst (λ y. has_id (photos_of_others y.id db.workers) i ≡ false) same alone) in
      let kept : after.storage ≡ mid.storage =
        ap (λ (d : Db). d.storage)
          (write_worker_lem (purged_fields (p.iso c.now)) id true mid after written) in
      rw (same_files ∙ kept) gone
