-- ===== src/Kiosks/Forward.antt =====
-- convex/kiosks.ts: the contact on record of a kiosk never moves back.
use fw_gatekeeper.Prelude.{
  ℕ, ◌+◌, ◌≤◌, Bool, false, Option, none, some, List, [], ◌∷◌, ◌≡◌, refl, sym, ap, ◌∙◌, subst, inl,
  inr, arith,
}
use fw_gatekeeper.Prelude.Tests.{Bool-cases, Option-cases, ltb, nat_beq}
use fw_gatekeeper.Prelude.Lists.{All, All-take, All-filter, filter, take, length}
use fw_gatekeeper.Prelude.Text.{Text, trim}
use fw_gatekeeper.Prelude.Result.{ok}
use fw_gatekeeper.Prelude.Table.{get_row, All-get_row, get_row-patch_row}
use fw_gatekeeper.Prelude.Ids.{DistinctIds, found_self}
use fw_gatekeeper.Schema.{Health, Kiosk, kiosk_row, Db, Platform}
use fw_gatekeeper.Kiosks.Lookup.{
  is_active, only_match, has_alias, by_alias, resolve, find_active_kiosk, max_active_kiosks,
}
use fw_gatekeeper.Kiosks.Contact.{
  contact_patch, instant_of, is_stale, accept_contact, update_last_sync,
}

All-only_match :
    (P : Kiosk → Type 0) (ks : List Kiosk) (k : Kiosk) → All P ks → only_match ks ≡ some k → P k
All-only_match P [] k h e = absurd (ground arith)
All-only_match P (x ∷ []) k h e = let same : x ≡ k = ground arith in subst P same h.0
All-only_match P (x ∷ y ∷ ks) k h e = absurd (ground arith)

-- The kiosk that is found is one of the table.
module _ (p : Platform) (P : Kiosk → Type 0) (db : Db) (h : All P db.kiosks) where
  All-by_alias : (t : Text) (k : Kiosk) → by_alias p t db ≡ some k → P k
  All-by_alias t k e =
      let fleet = take (max_active_kiosks + 1) (filter is_active db.kiosks) in
      elim (Bool-cases (ltb max_active_kiosks (length fleet))) [
        | inl many ↦ absurd (ground arith)
        | inr few ↦
            All-only_match P (filter (has_alias p (p.lower t)) fleet) k
              (All-filter P _ fleet
                (All-take P (max_active_kiosks + 1) _ (All-filter P is_active db.kiosks h)))
              (rw few at e)
      ]

  All-resolve : (t : Text) (k : Kiosk) → resolve p t db ≡ some k → P k
  unfolding resolve
  All-resolve t k e = elim (Option-cases (p.kiosk_id_of t)) [
    | inl none_ ↦ All-by_alias t k (ground arith)
    | inr (i, e1) ↦ elim (Option-cases (get_row i db.kiosks)) [
      | inl gone ↦ All-by_alias t k (ground arith)
      | inr (x, found) ↦ elim (Bool-cases x.active) [
        | inl on ↦
            let same : x ≡ k = ground arith in subst P same (All-get_row P i db.kiosks x h found)
        | inr off ↦ All-by_alias t k (ground arith)
      ]
    ]
  ]

  pub All-find_active_kiosk : (t : Text) (k : Kiosk) → find_active_kiosk p t db ≡ some k → P k
  unfolding find_active_kiosk
  All-find_active_kiosk t k e =
      elim (trim t) as (λ s. elim s [ [] ↦ none | c ∷ u ↦ resolve p (c ∷ u) db ] ≡ some k → P k) [
        | [] ↦ λ h. absurd (ground arith)
        | c ∷ u ↦ λ h. All-resolve (c ∷ u) k h
      ]
        e

module _ (p : Platform) where
  -- What an accepted report of kiosk `k` leaves in the row `x`.
  not_stale :
      (at : Text) (t incoming now : ℕ) (k : Kiosk)
      → p.parse_date [] ≡ none
      → instant_of p k.last_sync ≡ some t
      → t ≤ now + 60000
      → p.parse_date at ≡ some incoming
      → is_stale p (instant_of p k.last_sync) now incoming ≡ false
      → (s : ℕ) × (instant_of p (some at) ≡ some s) × (t ≤ s)
  not_stale [] t incoming now k empty e bound parsed fresh = absurd (ground arith)
  not_stale (c ∷ at) t incoming now k empty e bound parsed fresh = (incoming, parsed, ground arith)

  accept_contact_lem :
      (i : ℕ) (k : Kiosk) (at : Text) (t incoming : ℕ) (health : Option Health) (now : ℕ) (db : Db)
      (k2 : Kiosk)
      → get_row i db.kiosks ≡ some k
      → get_row k2.id db.kiosks ≡ some k2
      → p.parse_date [] ≡ none
      → instant_of p k.last_sync ≡ some t
      → t ≤ now + 60000
      → p.parse_date at ≡ some incoming
      → (x : Kiosk) × (s : ℕ) × (get_row i (accept_contact p k2 at incoming health now db).1.kiosks
          ≡ some x)
        × (instant_of p x.last_sync ≡ some s)
        × (t ≤ s)
  unfolding accept_contact
  accept_contact_lem i k at t incoming health now db k2 found found2 empty e bound parsed =
      elim (Bool-cases (is_stale p (instant_of p k2.last_sync) now incoming)) [
        | inl stale ↦ rw stale (k, t, found, e, omega arith)
        | inr fresh ↦ elim (Bool-cases (nat_beq k2.id i)) [
          | inr other ↦ rw fresh (
            k,
            t,
            get_row-patch_row k2.id i (contact_patch at health k2) db.kiosks (λ x. refl)
                ∙ rw other found,
            e,
            omega arith,
          )
          | inl hit ↦
              let at_i : k2.id ≡ i = ground arith in
              let same_row : some k2 ≡ some k =
                sym found2 ∙ ap (λ j. get_row j db.kiosks) at_i ∙ found in
              let same : k2 ≡ k = ground arith in
              let (s, e2, le) =
                not_stale at t incoming now k2 empty
                  (subst (λ y. instant_of p y.last_sync ≡ some t) (sym same) e) bound parsed
                  fresh in
              rw fresh (
                contact_patch at health k2 k,
                s,
                get_row-patch_row k2.id i (contact_patch at health k2) db.kiosks (λ x. refl)
                    ∙ rw hit (rw found refl),
                e2,
                le,
              )
        ]
      ]

  -- A kiosk whose contact on record is not from the future (by more than the minute that clocks may
  -- differ) has, after any accepted report of any kiosk, that contact on record or a later one.
  -- `Date.parse("")` is NaN.
  pub update_last_sync_moves_forward :
      (identifier at : Text) (health : Option Health) (now : ℕ) (db : Db) (u : Bool) (db' : Db)
      (i : ℕ) (k : Kiosk) (t : ℕ)
      → p.parse_date [] ≡ none
      → DistinctIds db.kiosks
      → get_row i db.kiosks ≡ some k
      → instant_of p k.last_sync ≡ some t
      → t ≤ now + 60000
      → update_last_sync p identifier at health now db ≡ ok (u, db')
      → (x : Kiosk) × (s : ℕ) × (get_row i db'.kiosks ≡ some x)
        × (instant_of p x.last_sync ≡ some s)
        × (t ≤ s)
  unfolding update_last_sync
  update_last_sync_moves_forward identifier at health now db u db' i k t empty ids found e bound h =
      elim (Option-cases (find_active_kiosk p identifier db)) [
        | inl nobody ↦
            let same : db ≡ db' = ground arith in
            (k, t, subst (λ d. get_row i d.kiosks ≡ some k) same found, e, omega arith)
        | inr (k2, e2) ↦ elim (Option-cases (p.parse_date at)) [
          | inl bad ↦ absurd (ground arith)
          | inr (incoming, parsed) ↦ elim (Bool-cases (ltb (now + 60000) incoming)) [
            | inl future ↦ absurd (ground arith)
            | inr past ↦
                let found2 =
                  All-find_active_kiosk p (λ y. get_row y.id db.kiosks ≡ some y) db
                    (found_self db.kiosks ids) identifier k2 e2 in
                let same : (accept_contact p k2 at incoming health now db).1 ≡ db' = ground arith in
                subst
                  (λ (d : Db).
                    (x : Kiosk) × (s : ℕ) × (get_row i d.kiosks ≡ some x)
                    × (instant_of p x.last_sync ≡ some s)
                    × (t ≤ s))
                  same
                  (accept_contact_lem i k at t incoming health now db k2 found found2 empty e bound
                    parsed)
          ]
        ]
      ]
