-- ===== src/Members/Budget.antt =====
-- convex/portalMembers.ts: how many attempts at a password the budget of an account admits.
use fw_gatekeeper.Prelude.{
  ℕ, suc, ◌+◌, ◌-◌, ◌*◌, ◌≤◌, Option, none, some, [], ◌∷◌, ◌≡◌, inl, inr, refl, sym, ap, ◌∙◌, subst,
  arith,
}
use fw_gatekeeper.Prelude.Tests.{Bool-cases, ltb, nat_eq, nat_beq_iff, ◌==◌}
use fw_gatekeeper.Prelude.Lists.{filter, sole, sole-some, sole-filter-append}
use fw_gatekeeper.Prelude.Text.{Text}
use fw_gatekeeper.Prelude.Result.{Result, ok, err, present, Result-cases}
use fw_gatekeeper.Prelude.Table.{patch_row, filter-patch_row}
use fw_gatekeeper.Schema.{RateLimit, limit_row, Db, Platform}
use fw_gatekeeper.Access.{Caller}
use fw_gatekeeper.Members.Rows.{MemberError, ambiguous_account}
use fw_gatekeeper.Members.Password.{
  OwnPasswordAccount, attempt, max_attempts, limit_of, parts_left, spend, assert_unchanged,
  reserve_attempt,
}
use fw_gatekeeper.Members.Cutoff.{assert_unchanged_lem}

abbrev left_at : ℕ → Result MemberError (Option RateLimit) → ℕ
left_at now (err bad) = 0
left_at now (ok limit) = parts_left limit now

-- What is left of an account's budget at a time.
abbrev pub budget : ℕ → ℕ → Db → ℕ
budget account now db = left_at now (limit_of account db)

parts_left-le : (o : Option RateLimit) (now : ℕ) → parts_left o now ≤ max_attempts * attempt
unfolding parts_left
parts_left-le none now = omega arith
parts_left-le (some l) now = ground arith

-- A part a millisecond comes back, at most.
parts_left_grows :
    (o : Option RateLimit) (now later : ℕ)
    → now ≤ later
    → parts_left o later + now ≤ parts_left o now + later
unfolding parts_left
parts_left_grows none now later h = omega arith
parts_left_grows (some l) now later h = ground arith

left_at_grows :
    (r : Result MemberError (Option RateLimit)) (now later : ℕ)
    → now ≤ later
    → left_at later r + now ≤ left_at now r + later
left_at_grows (err bad) now later h = omega arith
left_at_grows (ok o) now later h = parts_left_grows o now later h

left_at-le :
    (r : Result MemberError (Option RateLimit)) (now : ℕ) → left_at now r ≤ max_attempts * attempt
left_at-le (err bad) now = omega arith
left_at-le (ok o) now = parts_left-le o now

limit_of-spend :
    (o : Option RateLimit) (account left now : ℕ) (db : Db)
    → limit_of account db ≡ ok o
    → (l : RateLimit) × (limit_of account (spend o account left now db) ≡ ok (some l))
      × (l.parts_left ≡ left)
      × (l.last_attempt_time ≡ now)
unfolding patch_row
limit_of-spend none account left now db h =
    let l : RateLimit = record {
      id = db.next_id;
      identifier = account;
      parts_left = left;
      last_attempt_time = now;
    } in
    let found =
      sole-filter-append (λ (x : RateLimit). x.identifier == account) db.rate_limits l
        (ground arith) ((nat_beq_iff account account).1 refl) in
    (l, rw found refl, refl, refl)
limit_of-spend (some x) account left now db h =
    let g : RateLimit → RateLimit =
      λ (y : RateLimit). record y { parts_left = left; last_attempt_time = now } in
    let only : filter (λ (y : RateLimit). y.identifier == account) db.rate_limits ≡ x ∷ [] =
      sole-some _ x (ground arith) in
    let written =
      filter-patch_row (λ (y : RateLimit). y.identifier == account) x.id g db.rate_limits
        (λ y. refl)
      ∙ ap (patch_row x.id g) only in
    let here_ : patch_row x.id g (x ∷ []) ≡ g x ∷ [] = rw ((nat_beq_iff x.id x.id).1 refl) refl in
    (g x, ap (λ ls. present (sole ls) ambiguous_account) (written ∙ here_), refl, refl)

module _ (p : Platform) (f : Text → Option ℕ) where
  -- An attempt that is admitted takes its parts of the budget.
  reserve_attempt-budget :
      (expected : OwnPasswordAccount) (c : Caller) (db db' : Db)
      → reserve_attempt p f expected c db ≡ ok db'
      → budget expected.account_id c.now db' + attempt ≤ budget expected.account_id c.now db
  unfolding reserve_attempt parts_left
  reserve_attempt-budget expected c db db' h =
      elim (Result-cases (assert_unchanged p f expected c db)) [
        | inr (bad, e) ↦ absurd (ground arith)
        | inl ((m, a), e) ↦
            let id = (assert_unchanged_lem p f expected c db m a e).3 in
            elim (Result-cases (limit_of a.id db)) [
              | inr (bad, e2) ↦ absurd (ground arith)
              | inl (limit, e2) ↦ elim (Bool-cases (ltb (parts_left limit c.now) attempt)) [
                | inl low ↦ absurd (ground arith)
                | inr high ↦
                    let left = parts_left limit c.now - attempt in
                    let (l, found, parts, time) = limit_of-spend limit a.id left c.now db e2 in
                    let full = parts_left-le limit c.now in
                    let spent : spend limit a.id left c.now db ≡ db' = ground arith in
                    let before : budget a.id c.now db ≡ parts_left limit c.now =
                      ap (left_at c.now) e2 in
                    let after : budget a.id c.now db' ≡ parts_left (some l) c.now =
                      ap (left_at c.now) (ap (limit_of a.id) (sym spent) ∙ found) in
                    subst (λ i. budget i c.now db' + attempt ≤ budget i c.now db) id
                      (rw before (rw after (ground arith)))
              ]
            ]
      ]

  -- What commits to an account's budget from a time on: attempts that are admitted, at times that do
  -- not go back, and all that leaves the budgets. A password that is verified sets the budget back,
  -- and is none of these.
  pub data Attempts (account start : ℕ) (db : Db) : ℕ → ℕ → Db → Type 0 where
    begin : Attempts account start db 0 start db
    admitted :
        {n now : ℕ} {mid after : Db} (expected : OwnPasswordAccount) (c : Caller) (later : ℕ)
        → Attempts account start db n now mid
        → now ≤ later
        → c.now ≡ later
        → expected.account_id ≡ account
        → reserve_attempt p f expected c mid ≡ ok after
        → Attempts account start db (suc n) later after
    elsewhere :
        {n now : ℕ} {mid after : Db}
        → Attempts account start db n now mid
        → after.rate_limits ≡ mid.rate_limits
        → Attempts account start db n now after

  Attempts-spend :
      (account start : ℕ) (db : Db) (n now : ℕ) (db' : Db)
      → Attempts account start db n now db'
      → n * attempt + budget account now db' + start ≤ budget account start db + now
  Attempts-spend account start db n now db' begin = omega arith
  Attempts-spend account start db n now db'
        (admitted {n = k} {now = t} {mid} expected c later a h e i r) =
      let before = Attempts-spend account start db k t mid a in
      let grown = left_at_grows (limit_of account mid) t now h in
      let spent : budget account now db' + attempt ≤ budget account now mid =
        subst (λ j. budget account j db' + attempt ≤ budget account j mid) e
          (subst (λ j. budget j c.now db' + attempt ≤ budget j c.now mid) i
            (reserve_attempt-budget expected c mid db' r)) in
      omega (arith, before, grown, spent)
  Attempts-spend account start db n now db' (elsewhere {mid} a same) =
      rw same (Attempts-spend account start db n now mid a)

  -- However attempts at an account's password are made, at times that do not go back and with no
  -- verified password between them, those that are admitted in a span of time are ten at most, and
  -- one more for each six minutes of it.
  pub Attempts-le :
      (account start : ℕ) (db : Db) (n now : ℕ) (db' : Db)
      → Attempts account start db n now db'
      → n * attempt + start ≤ max_attempts * attempt + now
  Attempts-le account start db n now db' a =
      omega
        (arith, Attempts-spend account start db n now db' a, left_at-le (limit_of account db) start)
