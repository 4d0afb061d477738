-- ===== src/Workers/Shown.antt =====
-- convex/workers.ts and convex/kiosks.ts: a purge is shown at every kiosk of the fleet.
use fw_gatekeeper.Prelude.{
  ℕ, Bool, true, Option, none, some, List, [], ◌∷◌, map, ◌≡◌, inl, inr, refl, ap, arith, subst, sym,
}
use fw_gatekeeper.Prelude.Tests.{Option-cases}
use fw_gatekeeper.Prelude.Lists.{All, All-map, All-filter, filter}
use fw_gatekeeper.Prelude.Text.{Text}
use fw_gatekeeper.Prelude.Result.{ok}
use fw_gatekeeper.Schema.{Kiosk, Db, Platform}
use fw_gatekeeper.Access.{Caller}
use fw_gatekeeper.Roster.Sequence.{last_purge}
use fw_gatekeeper.Roster.Receipts.{certified_by, purge_pending}
use fw_gatekeeper.Roster.Invariant.{RosterIsValid}
use fw_gatekeeper.Kiosks.Lookup.{is_active}
use fw_gatekeeper.Kiosks.Fleet.{KioskView, serialize_kiosk, legacy_purge, fleet, list_kiosks}
use fw_gatekeeper.Workers.Rows.{Enrolment}
use fw_gatekeeper.Workers.Handlers.{purge_biometrics}
use fw_gatekeeper.Workers.Erasure.{purge_biometrics_erases}

never : (k : Kiosk) → purge_pending none k ≡ true → ⊥
unfolding purge_pending
never k h = ground arith

-- What is pending for the counter's purge is so for the one that is certified.
certified_pending :
    (legacy : Bool) (db : Db) (k : Kiosk)
    → purge_pending (last_purge db) k ≡ true
    → purge_pending (certified_by legacy db) k ≡ true
unfolding certified_by
certified_pending legacy db k h = elim (Option-cases (last_purge db)) [
  | inr (l, e) ↦
      let c : certified_by legacy db ≡ some l = ground arith in
      let h2 : purge_pending (some l) k ≡ true = subst (λ o. purge_pending o k ≡ true) e h in
      subst (λ o. purge_pending o k ≡ true) (sym c) h2
  | inl e ↦ absurd (never k (subst (λ o. purge_pending o k ≡ true) e h))
]

-- A list that shows every active kiosk, in the order of the table, and each as pending.
abbrev pub ShowsPending : List Kiosk → List KioskView → Type 0
ShowsPending ks vs =
    map {B = ℕ × Bool} (λ (v : KioskView). (v.id, v.purge_pending)) vs
    ≡ map {B = ℕ × Bool} (λ (k : Kiosk). (k.id, true)) (filter (λ (k : Kiosk). k.active) ks)

shown :
    (last : Option ℕ) (ks : List Kiosk)
    → All (λ (k : Kiosk). purge_pending last k ≡ true) ks
    → map {B = ℕ × Bool}
        (λ (v : KioskView). (v.id, v.purge_pending))
        (map (serialize_kiosk last) ks)
      ≡ map {B = ℕ × Bool} (λ (k : Kiosk). (k.id, true)) ks
unfolding serialize_kiosk
shown last [] h = refl
shown last (k ∷ ks) (p, h) = rw p (ap (λ vs. (k.id, true) ∷ vs) (shown last ks h))

listed :
    (p : Platform) (session_id_of : Text → Option ℕ) (c : Caller) (db : Db) (vs : List KioskView)
    → list_kiosks p session_id_of c db ≡ ok vs
    → fleet db ≡ vs
unfolding list_kiosks
listed p session_id_of c db vs h = ground arith

module _ (p : Platform) (e : Enrolment) (session_id_of : Text → Option ℕ) where
  -- Right after an accepted purge, the list that any accepted call of the kiosks' list answers has
  -- every active kiosk, in the order of the table, and shows each as pending; where no sequence on
  -- record is ahead of the counter.
  pub purge_biometrics_shown :
      (id : ℕ) (reason : Text) (c : Caller) (db : Db) (n : ℕ) (db' : Db) (reader : Caller)
      (vs : List KioskView)
      → RosterIsValid db
      → purge_biometrics p e session_id_of id reason c db ≡ ok (n, db')
      → list_kiosks p session_id_of reader db' ≡ ok vs
      → ShowsPending db'.kiosks vs
  purge_biometrics_shown id reason c db n db' reader vs v h l =
      let pending = (purge_biometrics_erases p e session_id_of id reason c db n db' v h).1 in
      let certified : Kiosk → Type 0 =
        λ k. purge_pending (certified_by (legacy_purge db') db') k ≡ true in
      subst (ShowsPending db'.kiosks) (listed p session_id_of reader db' vs l) (
        shown (certified_by (legacy_purge db') db') (filter is_active db'.kiosks) (
          All-filter certified is_active db'.kiosks (
            All-map (λ (k : Kiosk). purge_pending (last_purge db') k ≡ true) certified db'.kiosks
              (λ k q. certified_pending (legacy_purge db') db' k q) pending)))
