-- ===== src/Workers/Photos.antt =====
-- convex/enrollmentPhotos.ts, and `deleteReplacedPhotos` of convex/workers.ts: the files of
-- enrollment photos.
use fw_gatekeeper.Prelude.{
  ℕ, suc, ◌+◌, Bool, true, false, not, Option, none, some, List, [], ◌∷◌, ◌++◌,
}
use fw_gatekeeper.Prelude.Tests.{ltb, leb, if◌then◌else◌, ◌==◌, ◌!=◌, nat_eq}
use fw_gatekeeper.Prelude.Lists.{take, filter, any, length, sole}
use fw_gatekeeper.Prelude.Text.{Text}
use fw_gatekeeper.Prelude.Result.{Result, ok, err, ◌>>=◌, ◌>>◌, require, refuse, present}
use fw_gatekeeper.Prelude.Table.{get_row, delete_row}
use fw_gatekeeper.Schema.{Worker, PendingPhoto, photo_row, admin, enrollment, Db, Platform}
use fw_gatekeeper.Access.{AccessError, Caller, assert_portal_role}

pub data PhotoError : Type 0 where
  not_allowed : AccessError → PhotoError
  photo_gone ambiguous_upload other_owner photo_expired photo_not_yours too_many_photos : PhotoError
  too_many_workers : PhotoError

abbrev pub has_id : List ℕ → ℕ → Bool
has_id ids i = any (λ j. j == i) ids

-- `new Set(ids)` in its order; `seen` is what it has already.
unfoldable pub unique_onto : List ℕ → List ℕ → List ℕ
unique_onto seen [] = []
unique_onto seen (i ∷ ids) =
    if has_id seen i then unique_onto seen ids else i ∷ unique_onto (i ∷ seen) ids

abbrev pub ids_of : Option (List ℕ) → List ℕ
ids_of none = []
ids_of (some ids) = ids

-- `ctx.storage.delete(id)`.
unfoldable pub delete_file : ℕ → List ℕ → List ℕ
delete_file i files = filter (λ j. j != i) files

unfoldable pub delete_files : List ℕ → List ℕ → List ℕ
delete_files [] files = files
delete_files (i ∷ ids) files = delete_files ids (delete_file i files)

abbrev pub upload_of : ℕ → Db → Result PhotoError (Option PendingPhoto)
upload_of file db =
    present (sole (filter (λ (x : PendingPhoto). x.storage_id == file) db.pending_photos))
      ambiguous_upload

abbrev pub expiry_ms : ℕ
expiry_ms = 3600000

-- `register`.
unfoldable pub register_photo : ℕ → ℕ → ℕ → Db → Db
register_photo file owner now db = record db {
  next_id = suc db.next_id;
  pending_photos =
      db.pending_photos
      ++ record {
        id = db.next_id;
        storage_id = file;
        owner_id = owner;
        expires_at = now + expiry_ms;
      }
        ∷ [];
}

-- One turn of `consumeEnrollmentPhotos`.
unfoldable pub consume_photo : List ℕ → ℕ → ℕ → ℕ → Db → Result PhotoError Db
consume_photo retained owner now file db = do
  require (has_id db.storage file) photo_gone
  upload ← upload_of file db
  elim upload [
    | some x ↦ do
      require (x.owner_id == owner) other_owner
      refuse (leb x.expires_at now) photo_expired
      ok (record db { pending_photos = delete_row x.id db.pending_photos })
    | none ↦ do require (has_id retained file) photo_not_yours; ok db
  ]

unfoldable pub consume_each : List ℕ → List ℕ → ℕ → ℕ → Db → Result PhotoError Db
consume_each [] retained owner now db = ok db
consume_each (file ∷ files) retained owner now db = do
  db1 ← consume_photo retained owner now file db
  consume_each files retained owner now db1

-- `consumeEnrollmentPhotos`.
unfoldable pub consume_photos :
    Option (List ℕ) → ℕ → Option (List ℕ) → ℕ → Db → Result PhotoError Db
consume_photos ids owner existing now db =
    consume_each (unique_onto [] (ids_of ids)) (ids_of existing) owner now db

-- One turn of `cleanup`.
unfoldable pub cleanup_photo : ℕ → ℕ → Db → Result PhotoError Db
cleanup_photo owner file db = do
  upload ← upload_of file db
  elim upload [
    | none ↦ ok db
    | some x ↦ do
      require (x.owner_id == owner) other_owner
      ok (record db {
        storage = delete_file file db.storage;
        pending_photos = delete_row x.id db.pending_photos;
      })
  ]

unfoldable pub cleanup_each : List ℕ → ℕ → Db → Result PhotoError Db
cleanup_each [] owner db = ok db
cleanup_each (file ∷ files) owner db = do
  db1 ← cleanup_photo owner file db
  cleanup_each files owner db1

-- `expire`.
unfoldable pub expire_photo : ℕ → ℕ → Db → Db
expire_photo id now db = elim (get_row id db.pending_photos) [
  | none ↦ db
  | some x ↦ if ltb now x.expires_at then db else record db {
    storage = delete_file x.storage_id db.storage;
    pending_photos = delete_row id db.pending_photos;
  }
]

module _ (p : Platform) (session_id_of : Text → Option ℕ) where
  -- `cleanup`.
  unfoldable pub cleanup : List ℕ → Caller → Db → Result PhotoError Db
  cleanup files c db = elim (assert_portal_role p session_id_of (admin ∷ enrollment ∷ []) c db) [
    | err e ↦ err (not_allowed e)
    | ok member ↦ do
      refuse (ltb 6 (length files)) too_many_photos
      cleanup_each (unique_onto [] files) member.user_id db
  ]

-- The photos of every worker but one.
unfoldable pub photos_of_others : ℕ → List Worker → List ℕ
photos_of_others id [] = []
photos_of_others id (w ∷ ws) =
    let rest = photos_of_others id ws in
    if w.id == id then rest else ids_of w.photo_storage_ids ++ rest

-- What was a photo and is one no more.
abbrev pub replaced : Option (List ℕ) → Option (List ℕ) → List ℕ
replaced previous next =
    unique_onto [] (filter (λ i. not (has_id (ids_of next) i)) (ids_of previous))

abbrev pub is_empty : List ℕ → Bool
is_empty [] = true
is_empty (i ∷ ids) = false

-- `deleteReplacedPhotos`: the number of files deleted.
unfoldable pub delete_replaced :
    ℕ → Option (List ℕ) → Option (List ℕ) → Db → Result PhotoError (ℕ × Db)
delete_replaced id previous next db = if is_empty (replaced previous next) then ok (0, db) else do
  refuse (ltb 1000 (length (take 1001 db.workers))) too_many_workers
  let removed =
      filter (λ i. not (has_id (photos_of_others id db.workers) i)) (replaced previous next)
  ok (length removed, record db { storage = delete_files removed db.storage })
