-- ===== src/Attendance/Effective/Standing.antt =====
-- convex/attendance.ts: which corrections stand, of a range of dates and of each of its dates.
use fw_gatekeeper.Prelude.{
  ℕ, ◌≢◌, ◌⊎◌, Bool, true, false, not, ◌&&◌, List, [], ◌∷◌, ◌≡◌, inl, inr, refl, sym, ap, subst,
  arith,
}
use fw_gatekeeper.Prelude.Tests.{Bool-cases, nat_eq, if◌then◌else◌, ◌==◌, option_eq}
use fw_gatekeeper.Prelude.Lists.{All, filter}
use fw_gatekeeper.Prelude.Text.{Text, text_eq, text_beq_iff, text_ltb}
use fw_gatekeeper.Prelude.Order.{text_leb_antisym}
use fw_gatekeeper.Prelude.Chains.{filter-implied}
use fw_gatekeeper.Prelude.Result.{Result, ok, err}
use fw_gatekeeper.Schema.{Correction, Reversal, Db}
use fw_gatekeeper.Attendance.Effective.{
  EvidenceError, corrections_on, reversals_by_date, keep_active, list_active,
}
use fw_gatekeeper.Attendance.Reversals.Single.{OneReversal}
use fw_gatekeeper.Attendance.Effective.Dates.{corrections_between}

keep_active-filter :
    (t : Correction → Bool) (c : Correction) (rs : List Reversal) (active : List Correction)
    (rest kept : Result EvidenceError (List Correction))
    → ((xs : List Correction) → rest ≡ ok xs → kept ≡ ok (filter t xs))
    → keep_active c rs rest ≡ ok active
    → (if t c then keep_active c rs kept else kept) ≡ ok (filter t active)
unfolding filter
keep_active-filter t c [] active (err bad) kept f h = cc
keep_active-filter t c [] active (ok xs) kept f h =
    let same = f xs refl in
    let is : active ≡ c ∷ xs = ground arith in
    elim (Bool-cases (t c)) [ inl e ↦ rw is (rw e (rw same refl)) | inr e ↦ rw is (rw e same) ]
keep_active-filter t c (r ∷ []) active rest kept f h = elim (Bool-cases (t c)) [
  | inl e ↦ rw e (f active h)
  | inr e ↦ rw e (f active h)
]
keep_active-filter t c (r ∷ s ∷ _) active rest kept f h = cc

-- What stands among some corrections is what stands among all of them, of those.
pub list_active-filter :
    (f : Correction → List Reversal) (t : Correction → Bool) (cs active : List Correction)
    → list_active f cs ≡ ok active
    → list_active f (filter t cs) ≡ ok (filter t active)
unfolding list_active filter
list_active-filter f t [] active h = let is : active ≡ [] = ground arith in rw is refl
list_active-filter f t (c ∷ cs) active h =
    let kept =
      keep_active-filter t c (f c) active (list_active f cs) (list_active f (filter t cs))
        (λ xs e. list_active-filter f t cs xs e) h in
    elim (Bool-cases (t c)) [ inl e ↦ ground arith | inr e ↦ ground arith ]

none_other :
    (date : Text) (i : ℕ) (rs : List Reversal)
    → All (λ (x : Reversal). x.correction_id ≢ i) rs
    → filter (λ (r : Reversal). r.date == date && r.correction_id == i) rs ≡ []
unfolding filter
none_other date i [] h = refl
none_other date i (r ∷ rs) (other, h) = elim (Bool-cases (r.correction_id == i)) [
  | inl e ↦ absurd (other (ground arith))
  | inr e ↦ elim (Bool-cases (r.date == date)) [
    | inl k ↦ ground (arith, none_other date i rs h)
    | inr k ↦ ground (arith, none_other date i rs h)
  ]
]

one_at_most :
    (date : Text) (i : ℕ) (rs : List Reversal)
    → OneReversal rs
    → (filter (λ (r : Reversal). r.date == date && r.correction_id == i) rs ≡ [])
      ⊎ ((r : Reversal) × (filter (λ (x : Reversal). x.date == date && x.correction_id == i) rs
            ≡ r ∷ []))
unfolding filter
one_at_most date i [] h = inl refl
one_at_most date i (r ∷ rs) (apart, h) =
    elim (Bool-cases (r.date == date && r.correction_id == i)) [
      | inr e ↦ rw e (one_at_most date i rs h)
      | inl e ↦
          let same : r.correction_id ≡ i = ground arith in
          rw e (
            inr (
              r,
              ap (λ xs. r ∷ xs)
                  (none_other date i rs
                    (subst (λ j. All (λ (x : Reversal). x.correction_id ≢ j) rs) same apart)),
            ))
    ]

-- Where no correction is reversed twice, what stands can be told.
pub list_active-total :
    (db : Db) (cs : List Correction)
    → OneReversal db.reversals
    → (active : List Correction) × (list_active (reversals_by_date db) cs ≡ ok active)
unfolding list_active
list_active-total db [] h = ([], refl)
list_active-total db (c ∷ cs) h =
    let (active, e) = list_active-total db cs h in
    elim (one_at_most c.date c.id db.reversals h) [
      | inl none_ ↦ (c ∷ active, rw none_ (rw e refl))
      | inr (r, one) ↦ (active, rw one e)
    ]

pub of_date :
    (start end_ date : Text) (db : Db)
    → text_ltb date start ≡ false
    → text_ltb end_ date ≡ false
    → filter (λ (c : Correction). c.date == date) (corrections_between start end_ db)
      ≡ corrections_on date db
of_date start end_ date db low high = elim (Bool-cases (start == end_)) [
  | inl e ↦
      let is =
        text_leb_antisym date start low
          (subst (λ x. text_ltb x date ≡ false) (sym ((text_beq_iff start end_).0 e)) high) in
      rw e (
        filter-implied (λ (c : Correction). c.date == date) (λ (c : Correction). c.date == start)
          db.corrections (λ c k. subst (λ x. (c.date == x) ≡ true) is k))
  | inr e ↦ rw e (
      filter-implied (λ (c : Correction). c.date == date)
        (λ (c : Correction). not (text_ltb c.date start) && not (text_ltb end_ c.date))
        db.corrections
        (λ c k. let same = (text_beq_iff c.date date).0 k in rw same (rw low (rw high refl))))
]
