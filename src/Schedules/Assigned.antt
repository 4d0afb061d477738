-- ===== src/Schedules/Assigned.antt =====
-- convex/scheduleAssignment.ts: the schedule that a worker is assigned.
use fw_gatekeeper.Prelude.{
  ℕ, Bool, true, not, ◌<◌, ◌&&◌, Option, List, [], ◌∷◌, ◌++◌, ◌≡◌, ◌↔◌, refl, sym, ap, ◌∙◌, subst,
  inl, inr, arith,
}
use fw_gatekeeper.Prelude.Tests.{Bool-cases, ltb, nat_eq, ◌==◌, eq_iff}
use fw_gatekeeper.Prelude.Lists.{All, any, filter, length}
use fw_gatekeeper.Prelude.Chains.{All-every}
use fw_gatekeeper.Prelude.Text.{Text, text_eq}
use fw_gatekeeper.Prelude.Number.{JsNumber}
use fw_gatekeeper.Schema.{Schedule, Platform}
use fw_gatekeeper.Schedules.{
  schedule_days, Tier, department_tier, default_tier, unique, department_key, has_key, is_today,
  department_matches, default_matches, choose, is_none_of, resolve_assignment,
}

both_true : (a b : Bool) → (a && b) ≡ true → (a ≡ true) × (b ≡ true)
both_true a b h = ground arith

true_both : (a b : Bool) → a ≡ true → b ≡ true → (a && b) ≡ true
true_both a b h k = ground arith

no_key : (key : Text) → not (ltb 0 (length key)) ≡ true → key ≡ []
no_key [] h = refl
no_key (c ∷ key) h = absurd (ground arith)

-- The one element of a list of which a statement holds.
pub record Only {A : Type 0} (P : A → Type 0) (xs : List A) (x : A) : Type 0 where
  pub before : List A
  pub after : List A
  pub listed : xs ≡ before ++ x ∷ after
  pub holds : P x
  pub not_before : All (λ y. P y → ⊥) before
  pub not_after : All (λ y. P y → ⊥) after

module _ {A : Type 0} (t : A → Bool) (P : A → Type 0) (sound : (x : A) → (t x ≡ true) ↔ P x) where
  none_fits : (xs : List A) → filter t xs ≡ [] → All (λ y. P y → ⊥) xs
  unfolding filter
  none_fits [] h = tt
  none_fits (x ∷ xs) h = elim (Bool-cases (t x)) [
    | inl e ↦ absurd (ground arith)
    | inr e ↦ (
      (λ q. let yes = (sound x).1 q in ground arith),
      none_fits xs (let rest : filter t xs ≡ [] = ground arith in rest),
    )
  ]

  Only-filter : (xs : List A) (x : A) → filter t xs ≡ x ∷ [] → Only P xs x
  unfolding filter
  Only-filter [] x h = absurd (ground arith)
  Only-filter (y ∷ xs) x h = elim (Bool-cases (t y)) [
    | inl e ↦
        let same : y ≡ x = ground arith in
        let rest : filter t xs ≡ [] = ground arith in
        record {
          before = [];
          after = xs;
          listed = ap (λ z. z ∷ xs) same;
          holds = subst P same ((sound y).0 e);
          not_before = tt;
          not_after = none_fits xs rest;
        }
    | inr e ↦
        let rest : filter t xs ≡ x ∷ [] = ground arith in
        let o = Only-filter xs x rest in
        record {
          before = y ∷ o.before;
          after = o.after;
          listed = ap (λ zs. y ∷ zs) o.listed;
          holds = o.holds;
          not_before = ((λ q. let yes = (sound y).1 q in ground arith), o.not_before);
          not_after = o.not_after;
        }
  ]

filter-filter :
    {A : Type 0} (s t : A → Bool) (xs : List A)
    → filter s (filter t xs) ≡ filter (λ x. t x && s x) xs
unfolding filter
filter-filter s t [] = refl
filter-filter s t (x ∷ xs) = elim (Bool-cases (t x)) [
  | inl e ↦ ground (arith, filter-filter s t xs)
  | inr e ↦ ground (arith, filter-filter s t xs)
]

module _ (p : Platform) (json : Text → Option (List (Option JsNumber))) where
  -- A schedule that is active and on a day of the week.
  pub record OnDay (day : ℕ) (s : Schedule) : Type 0 where
    pub is_active : s.active ≡ true
    pub has_day : any (λ d. d == day) (schedule_days json s.days) ≡ true

  -- Such a schedule of the worker's department, if the worker has one.
  pub record OfDepartment (d : Option Text) (day : ℕ) (s : Schedule) : Type 0 where
    pub on_day : OnDay day s
    pub has_department : 0 < length (department_key p json d)
    pub same_department : department_key p json s.department ≡ department_key p json d

  -- Such a schedule that has no department.
  pub record OfNone (day : ℕ) (s : Schedule) : Type 0 where
    pub on_day : OnDay day s
    pub no_department : department_key p json s.department ≡ []

  -- What may be assigned: the one schedule of the department, or, where there is none, the one without
  -- a department.
  abbrev pub MayHave : Option Text → ℕ → List Schedule → Tier → Schedule → Type 0
  MayHave d day schedules department_tier s = Only (OfDepartment d day) schedules s
  MayHave d day schedules default_tier s =
      All (λ x. OfDepartment d day x → ⊥) schedules × Only (OfNone day) schedules s

  is_today_iff : (day : ℕ) (s : Schedule) → (is_today p json day s ≡ true) ↔ OnDay day s
  is_today_iff day s = (
    (λ h. record { is_active = ground arith; has_day = ground arith }),
    (λ o. ground (arith, o.is_active, o.has_day)),
  )

  department_iff :
      (d : Option Text) (day : ℕ) (s : Schedule)
      → has_key p json d ≡ true
      → ((is_today p json day s && (department_key p json s.department == department_key p json d))
          ≡ true)
        ↔ OfDepartment d day s
  department_iff d day s some_ = (
    (λ h.
        let (today, same) = both_true _ _ h in
        record {
          on_day = (is_today_iff day s).0 today;
          has_department = ground arith;
          same_department =
              (eq_iff (department_key p json s.department) (department_key p json d)).0 same;
        }),
    (λ o. true_both _ _ ((is_today_iff day s).1 o.on_day) (
        (eq_iff (department_key p json s.department) (department_key p json d)).1
          o.same_department)),
  )

  none_iff :
      (day : ℕ) (s : Schedule)
      → ((is_today p json day s && not (has_key p json s.department)) ≡ true) ↔ OfNone day s
  none_iff day s = (
    (λ h.
        let (today, free) = both_true _ _ h in
        record {
          on_day = (is_today_iff day s).0 today;
          no_department = no_key (department_key p json s.department) free;
        }),
    (λ o. true_both _ _ ((is_today_iff day s).1 o.on_day) (rw o.no_department refl)),
  )

  choose-unique :
      (tier tier' : Tier) (ss : List Schedule) (s : Schedule)
      → choose p json tier ss ≡ unique tier' s
      → (tier ≡ tier') × (ss ≡ s ∷ [])
  choose-unique tier tier' [] s h = absurd (ground arith)
  choose-unique tier tier' (r ∷ []) s h = (ground arith, ground arith)
  choose-unique tier tier' (r ∷ q ∷ ss) s h = absurd (ground arith)

  no_matches : (ss : List Schedule) → is_none_of p json ss ≡ true → ss ≡ []
  no_matches [] h = refl
  no_matches (s ∷ ss) h = absurd (ground arith)

  department_fits :
      (d : Option Text) (day : ℕ) (schedules : List Schedule)
      → has_key p json d ≡ true
      → department_matches p json d day schedules
        ≡ filter
            (λ (s : Schedule).
              is_today p json day s
              && (department_key p json s.department == department_key p json d))
            schedules
  department_fits d day schedules some_ = rw some_ (filter-filter _ _ schedules)

  none-OfDepartment :
      (d : Option Text) (day : ℕ) (schedules : List Schedule)
      → department_matches p json d day schedules ≡ []
      → All (λ x. OfDepartment d day x → ⊥) schedules
  none-OfDepartment d day schedules none_ = elim (Bool-cases (has_key p json d)) [
    | inl e ↦
        none_fits _ (OfDepartment d day) (λ s. department_iff d day s e) schedules
          (sym (department_fits d day schedules e) ∙ none_)
    | inr e ↦ All-every _ schedules (λ s o. let some_ = o.has_department in ground arith)
  ]

  -- A schedule that is assigned is, among all that there are, the only one that is active, on that day
  -- and of the worker's department; or none is, and it is the only one that is active, on that day and
  -- without a department. The tier says which.
  pub resolve_assignment-unique :
      (d : Option Text) (schedules : List Schedule) (day : ℕ) (tier : Tier) (s : Schedule)
      → resolve_assignment p json d schedules day ≡ unique tier s
      → MayHave d day schedules tier s
  unfolding resolve_assignment
  resolve_assignment-unique d schedules day tier s h =
      elim (Bool-cases (is_none_of p json (department_matches p json d day schedules))) [
        | inl none_ ↦
            let (is, only) =
              choose-unique default_tier tier (default_matches p json day schedules) s
                (ground arith) in
            subst (λ t. MayHave d day schedules t s) is
              (
                none-OfDepartment d day schedules
                    (no_matches (department_matches p json d day schedules) none_),
                Only-filter _ (OfNone day) (none_iff day) schedules s
                    (sym (filter-filter _ _ schedules) ∙ only),
              )
        | inr some_ ↦
            let (is, only) =
              choose-unique department_tier tier (department_matches p json d day schedules) s
                (ground arith) in
            elim (Bool-cases (has_key p json d)) [
              | inr off ↦ absurd (let bad : [] ≡ s ∷ [] = rw off at only in ground arith)
              | inl on ↦
                  subst (λ t. MayHave d day schedules t s) is
                    (Only-filter _ (OfDepartment d day) (λ x. department_iff d day x on) schedules s
                      (sym (department_fits d day schedules on) ∙ only))
            ]
      ]
