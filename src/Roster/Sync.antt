-- ===== src/Roster/Sync.antt =====
-- convex/workers.ts: `listWorkersForSync`, the roster that a kiosk downloads.
use Prim.Native.String.{String}
use fw_gatekeeper.Prelude.{
  ℕ, Bool, true, false, not, ◌||◌, Option, none, some, List, [], ◌∷◌, ◌++◌, map,
}
use fw_gatekeeper.Prelude.Tests.{ltb, leb, if◌then◌else◌}
use fw_gatekeeper.Prelude.Lists.{filter, drop}
use fw_gatekeeper.Prelude.Text.{Text, text}
use fw_gatekeeper.Prelude.Number.{JsNumber}
use fw_gatekeeper.Prelude.Result.{Result, ok, err}
use fw_gatekeeper.Schema.{Worker, Db}
use fw_gatekeeper.Roster.Cursor.{parse_roster_cursor, after}

pub record SyncEntry : Type 0 where
  pub id : ℕ
  pub name : Text
  pub employee_id : Text
  pub department : Text
  pub photo_url : Option Text
  pub face_encoding : Option (List JsNumber)
  pub enrolled_at : Text
  pub updated_at : Text
  pub active : ℕ

-- What the platform's `paginate` returns for a cursor and the rows of a query, in their order.
pub record Page : Type 0 where
  pub page : List Worker
  pub is_done : Bool
  pub continue_cursor : Text

pub record SyncAnswer : Type 0 where
  pub workers : List SyncEntry
  pub is_done : Bool
  pub continue_cursor : Text

pub data SyncError : Type 0 where
  invalid_cursor : SyncError

-- `query.withIndex("by_roster_sequence", q => q.gt("rosterSequence", sequence))`, before its order.
abbrev pub is_updated : ℕ → Worker → Bool
is_updated s w = elim w.roster_sequence [ none ↦ false | some n ↦ ltb s n ]

-- `q.eq("rosterSequence", undefined)`.
abbrev pub is_unsequenced : Worker → Bool
is_unsequenced w = elim w.roster_sequence [ none ↦ true | some n ↦ false ]

abbrev pub sequence_of : Worker → ℕ
sequence_of w = elim w.roster_sequence [ none ↦ 0 | some n ↦ n ]

-- The order of the index.
unfoldable pub insert_sorted : Worker → List Worker → List Worker
insert_sorted w [] = w ∷ []
insert_sorted w (x ∷ xs) =
    if leb (sequence_of w) (sequence_of x) then w ∷ x ∷ xs else x ∷ insert_sorted w xs

unfoldable pub by_sequence : List Worker → List Worker
unfolding insert_sorted
by_sequence [] = []
by_sequence (w ∷ ws) = insert_sorted w (by_sequence ws)

unfoldable pub updated_rows : ℕ → List Worker → List Worker
updated_rows s ws = by_sequence (filter (is_updated s) ws)

unfoldable pub unsequenced_rows : List Worker → List Worker
unsequenced_rows ws = filter is_unsequenced ws

abbrev or_empty : Option Text → Text
or_empty none = []
or_empty (some t) = t

-- `a || b` on texts.
abbrev or_else : Option Text → Text → Text
or_else none b = b
or_else (some []) b = b
or_else (some (c ∷ t)) b = c ∷ t

module _ (get_url : ℕ → Option Text) where
  -- The first photo that the storage still has.
  unfoldable pub first_url : List ℕ → Option Text
  first_url [] = none
  first_url (i ∷ is) = elim (get_url i) [
    | some [] ↦ first_url is
    | some (c ∷ t) ↦ some (c ∷ t)
    | none ↦ first_url is
  ]

  abbrev photo_of : Worker → Option Text
  photo_of w =
      if w.active then elim w.photo_storage_ids [ none ↦ none | some is ↦ first_url is ] else none

  unfoldable pub sync_entry : Worker → SyncEntry
  sync_entry w = record {
    id = w.id;
    name = w.name;
    employee_id = or_empty w.employee_id;
    department = w.department;
    photo_url = photo_of w;
    face_encoding = if w.active then w.face_encoding else none;
    enrolled_at = w.enrolled_at;
    updated_at = or_else w.updated_at w.enrolled_at;
    active = if w.active then 1 else 0;
  }

  module _ (paginate : Option Text → List Worker → Page) where
    -- `cursor?.slice(2) || null`.
    abbrev inner_cursor : Option Text → Option Text
    inner_cursor none = none
    inner_cursor (some t) = elim (drop 2 t) [ [] ↦ none | c ∷ s ↦ some (c ∷ s) ]

    abbrev starts : String → Option Text → Bool
    starts s none = false
    starts s (some t) = elim (after (text s) t) [ none ↦ false | some r ↦ true ]

    -- A cursor that is there, and is of neither phase.
    abbrev bad_cursor : Option Text → Bool
    bad_cursor none = false
    bad_cursor (some []) = false
    bad_cursor (some (c ∷ t)) = not (starts "u:" (some (c ∷ t)) || starts "l:" (some (c ∷ t)))

    unfoldable pub list_for_sync : Option Text → Option Text → Db → Result SyncError SyncAnswer
    list_for_sync since cursor db = elim (parse_roster_cursor since) [
      | none ↦
          let page = paginate cursor db.workers in
          ok (record {
            workers = map sync_entry page.page;
            is_done = page.is_done;
            continue_cursor = page.continue_cursor;
          })
      | some s ↦
          if bad_cursor cursor
          then err invalid_cursor
          else if starts "l:" cursor
          then (let page = paginate (inner_cursor cursor) (unsequenced_rows db.workers) in
              ok (record {
                workers = map sync_entry page.page;
                is_done = page.is_done;
                continue_cursor = text "l:" ++ page.continue_cursor;
              }))
          else (let page = paginate (inner_cursor cursor) (updated_rows s db.workers) in
              ok (record {
                workers = map sync_entry page.page;
                is_done = false;
                continue_cursor =
                    if page.is_done then text "l:" else text "u:" ++ page.continue_cursor;
              }))
    ]
