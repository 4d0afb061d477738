-- ===== src/Schedules/Supported.antt =====
-- convex/schedules.ts: no handler stores a schedule that ends before it starts.
use fw_gatekeeper.Prelude.{
  ℕ, suc, true, false, Option, some, List, [], ◌∷◌, ◌++◌, ◌≡◌, refl, sym, ap, ◌∙◌, subst, inl, inr,
  arith,
}
use fw_gatekeeper.Prelude.Tests.{Bool-cases, Option-cases, nat_beq}
use fw_gatekeeper.Prelude.Lists.{All, All-append}
use fw_gatekeeper.Prelude.Text.{Text, trim}
use fw_gatekeeper.Prelude.Number.{JsNumber}
use fw_gatekeeper.Prelude.Result.{ok, Result-cases}
use fw_gatekeeper.Prelude.Table.{get_row, patch_row, All-patch_row}
use fw_gatekeeper.Prelude.Ids.{HasIds, HasIds-append, HasIds-patch_row, found_self}
use fw_gatekeeper.Schema.{Schedule, schedule_row, Db, Platform}
use fw_gatekeeper.Access.{Caller}
use fw_gatekeeper.Schedules.{
  is_supported_range, is_valid_name, parse_days, days_text, validate_schedule, ScheduleArgs,
  ScheduleChange, or_old, changed, add_schedule, change_schedule, remove_schedule, manager, create,
  update, remove,
}

abbrev pub IsSupported : Schedule → Type 0
IsSupported s = is_supported_range s.start_time s.end_time ≡ true

pub record SchedulesAreValid (db : Db) : Type 0 where
  pub ids : HasIds db.next_id db.schedules
  pub ranges : All IsSupported db.schedules

patched_rows :
    (id : ℕ) (f : Schedule → Schedule) (all rows : List Schedule) (s : Schedule)
    → All (λ (x : Schedule). get_row x.id all ≡ some x) rows
    → All IsSupported rows
    → get_row id all ≡ some s
    → IsSupported (f s)
    → All IsSupported (patch_row id f rows)
unfolding patch_row
patched_rows id f all [] s self h found good = tt
patched_rows id f all (x ∷ rows) s (e, self) (p, h) found good =
    elim (Bool-cases (nat_beq x.id id)) [
      | inl hit ↦
          let at : x.id ≡ id = ground arith in
          let one : some s ≡ some x = sym found ∙ ap (λ i. get_row i all) (sym at) ∙ e in
          let same : s ≡ x = ground arith in
          rw hit (
            subst (λ y. IsSupported (f y)) same good,
            patched_rows id f all rows s self h found good,
          )
      | inr miss ↦ rw miss (p, patched_rows id f all rows s self h found good)
    ]

module _ (json : Text → Option (List (Option JsNumber))) where
  validated_range :
      (name days start end : Text) (ds : List ℕ)
      → validate_schedule json name days start end ≡ ok ds
      → is_supported_range start end ≡ true
  unfolding validate_schedule
  validated_range name days start end ds h = elim (Bool-cases (is_valid_name name)) [
    | inr blank ↦ absurd (ground arith)
    | inl named ↦ elim (Option-cases (parse_days json days)) [
      | inl bad ↦ absurd (ground arith)
      | inr (parsed, e) ↦ elim (Bool-cases (is_supported_range start end)) [
        | inl good ↦ good
        | inr bad ↦ absurd (ground arith)
      ]
    ]
  ]

  module _ (p : Platform) where
    add_schedule-IsValid :
        (a : ScheduleArgs) (now : ℕ) (db : Db) (i : ℕ) (db' : Db)
        → add_schedule p json a now db ≡ ok (i, db')
        → SchedulesAreValid db
        → SchedulesAreValid db'
    unfolding add_schedule
    add_schedule-IsValid a now db i db' h v =
        elim (Result-cases (validate_schedule json a.name a.days a.start_time a.end_time)) [
          | inr (bad, e) ↦ absurd (ground arith)
          | inl (ds, e) ↦
              let row : Schedule = record {
                id = db.next_id;
                name = trim a.name;
                days = days_text ds;
                start_time = a.start_time;
                end_time = a.end_time;
                department = a.department;
                active = true;
                created_at = p.iso now;
              } in
              let after : record db {
                next_id = suc db.next_id;
                schedules = db.schedules ++ row ∷ [];
              }
                  ≡ db' =
                ground arith in
              subst SchedulesAreValid after (record {
                ids = HasIds-append db.next_id db.schedules row refl v.ids;
                ranges =
                    All-append IsSupported db.schedules (row ∷ []) v.ranges
                      (validated_range a.name a.days a.start_time a.end_time ds e, tt);
              })
        ]

    change_schedule-IsValid :
        (id : ℕ) (x : ScheduleChange) (db db' : Db)
        → change_schedule p json id x db ≡ ok db'
        → SchedulesAreValid db
        → SchedulesAreValid db'
    unfolding change_schedule
    change_schedule-IsValid id x db db' h v = elim (Option-cases (get_row id db.schedules)) [
      | inl gone ↦ absurd (ground arith)
      | inr (s, found) ↦
          elim (Result-cases (
            validate_schedule json (or_old x.name s.name) (or_old x.days s.days)
              (or_old x.start_time s.start_time) (or_old x.end_time s.end_time))) [
                | inr (bad, e) ↦ absurd (ground arith)
                | inl (ds, e) ↦
                    let after : record db { schedules = patch_row id (changed x ds) db.schedules }
                        ≡ db' =
                      ground arith in
                    subst SchedulesAreValid after (record {
                      ids =
                          HasIds-patch_row db.next_id id (changed x ds) db.schedules (λ y. refl)
                            v.ids;
                      ranges =
                          patched_rows id (changed x ds) db.schedules db.schedules s
                            (found_self db.schedules v.ids.distinct) v.ranges found
                            (validated_range (or_old x.name s.name) (or_old x.days s.days)
                              (or_old x.start_time s.start_time) (or_old x.end_time s.end_time) ds
                              e);
                    })
              ]
    ]

    remove_schedule-IsValid :
        (id : ℕ) (db db' : Db)
        → remove_schedule p json id db ≡ ok db'
        → SchedulesAreValid db
        → SchedulesAreValid db'
    unfolding remove_schedule
    remove_schedule-IsValid id db db' h v = elim (Option-cases (get_row id db.schedules)) [
      | inl gone ↦ absurd (ground arith)
      | inr (s, found) ↦
          let f = λ (y : Schedule). record y { active = false } in
          let after : record db { schedules = patch_row id f db.schedules } ≡ db' = ground arith in
          subst SchedulesAreValid after (record {
            ids = HasIds-patch_row db.next_id id f db.schedules (λ y. refl) v.ids;
            ranges = All-patch_row IsSupported id f db.schedules (λ y q. q) v.ranges;
          })
    ]

    module _ (session_id_of : Text → Option ℕ) where
      -- One accepted handler.
      pub data Change (db : Db) : Db → Type 0 where
        created :
            {db' : Db} (a : ScheduleArgs) (c : Caller) (i : ℕ)
            → create p json session_id_of a c db ≡ ok (i, db')
            → Change db db'
        updated :
            {db' : Db} (id : ℕ) (x : ScheduleChange) (c : Caller)
            → update p json session_id_of id x c db ≡ ok db'
            → Change db db'
        removed :
            {db' : Db} (id : ℕ) (c : Caller)
            → remove p json session_id_of id c db ≡ ok db'
            → Change db db'

      -- Whichever handler is accepted, all schedules that are stored have supported times, the end
      -- after the start on one day, where all had before.
      pub Change-IsValid :
          {db db' : Db} → Change db db' → SchedulesAreValid db → SchedulesAreValid db'
      unfolding create update remove
      Change-IsValid {db} {db'} (created a c i h) v =
          elim (Result-cases (manager p json session_id_of c db)) [
            | inr (bad, e) ↦ absurd (ground arith)
            | inl (m, e) ↦ add_schedule-IsValid a c.now db i db' (ground arith) v
          ]
      Change-IsValid {db} {db'} (updated id x c h) v =
          elim (Result-cases (manager p json session_id_of c db)) [
            | inr (bad, e) ↦ absurd (ground arith)
            | inl (m, e) ↦ change_schedule-IsValid id x db db' (ground arith) v
          ]
      Change-IsValid {db} {db'} (removed id c h) v =
          elim (Result-cases (manager p json session_id_of c db)) [
            | inr (bad, e) ↦ absurd (ground arith)
            | inl (m, e) ↦ remove_schedule-IsValid id db db' (ground arith) v
          ]
