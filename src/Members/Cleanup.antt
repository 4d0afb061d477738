-- ===== src/Members/Cleanup.antt =====
-- convex/portalMembers.ts: the removal of denied sessions comes to an end, and has removed all of them.
use fw_gatekeeper.Prelude.{
  ℕ, zero, suc, ◌+◌, ◌-◌, ◌≤◌, ◌<◌, true, false, some, List, [], ◌∷◌, ◌≡◌, inl, inr, refl, subst,
  arith,
}
use fw_gatekeeper.Prelude.Tests.{Bool-cases, ltb, leb, nat_eq, nat_beq, nat_beq_iff, ◌==◌}
use fw_gatekeeper.Prelude.Lists.{All, All-map, All-filter, All-take, take, length}
use fw_gatekeeper.Prelude.Table.{delete_row, All-delete_row}
use fw_gatekeeper.Prelude.Deletes.{InIds, InIds-self, length-delete_row, delete_row-shorter}
use fw_gatekeeper.Schema.{AuthSession, session_row, RefreshToken, token_row, Db}
use fw_gatekeeper.Access.{delete_tokens}
use fw_gatekeeper.Members.Sessions.{
  max_sessions, token_budget, sessions_of, tokens_of, without_tokens, revoke_each, has_revoked,
  revoke_session_batch, cleanup_runs,
}
use fw_gatekeeper.Members.Cutoff.{InOrder, InOrder-filter, All-unfilter}

-- What is left to remove, at most.
abbrev pub rows_left : Db → ℕ
rows_left db = length db.sessions + length db.refresh_tokens

length-delete_tokens : (batch xs : List RefreshToken) → length (delete_tokens batch xs) ≤ length xs
unfolding delete_tokens
length-delete_tokens [] xs = omega arith
length-delete_tokens (t ∷ batch) xs =
    omega (arith, length-delete_tokens batch (delete_row t.id xs), length-delete_row t.id xs)

delete_tokens-shorter :
    (t : RefreshToken) (batch xs : List RefreshToken)
    → InIds t.id xs
    → length (delete_tokens (t ∷ batch) xs) < length xs
unfolding delete_tokens
delete_tokens-shorter t batch xs h =
    omega (arith, length-delete_tokens batch (delete_row t.id xs), delete_row-shorter t.id xs h)

rows_left-revoke_each :
    (sessions : List AuthSession) (budget cutoff : ℕ) (db : Db)
    → rows_left (revoke_each sessions budget cutoff db) ≤ rows_left db
unfolding revoke_each
rows_left-revoke_each [] budget cutoff db = omega arith
rows_left-revoke_each (s ∷ sessions) budget cutoff db =
    let tokens = take (suc budget) (tokens_of s.id db) in
    let without = without_tokens (take budget tokens) db in
    let rest =
      rows_left-revoke_each sessions (budget - length tokens) cutoff
        (record without { sessions = delete_row s.id without.sessions }) in
    let fewer = length-delete_tokens (take budget tokens) db.refresh_tokens in
    let shorter = length-delete_row s.id db.sessions in
    elim (Bool-cases (ltb cutoff s.creation_time)) [
      | inl e ↦ rw e (omega arith)
      | inr e ↦ elim (Bool-cases (ltb budget (length tokens))) [
        | inl e2 ↦ rw e (rw e2 (omega arith))
        | inr e2 ↦ rw e (rw e2 (omega arith))
      ]
    ]

first_token :
    (tokens : List RefreshToken) (budget : ℕ) (xs : List RefreshToken)
    → All (λ (t : RefreshToken). InIds t.id xs) tokens
    → budget < length tokens
    → 0 < budget
    → length (delete_tokens (take budget tokens) xs) < length xs
first_token [] budget xs h more some_ = absurd (omega arith)
first_token (t ∷ tokens) zero xs h more some_ = absurd (omega arith)
first_token (t ∷ tokens) (suc budget) xs h more some_ =
    delete_tokens-shorter t (take budget tokens) xs h.0

-- A batch whose first session is denied removes a session or a token.
revoke_each-progress :
    (s : AuthSession) (sessions : List AuthSession) (budget cutoff : ℕ) (db : Db)
    → 0 < budget
    → s.creation_time ≤ cutoff
    → InIds s.id db.sessions
    → rows_left (revoke_each (s ∷ sessions) budget cutoff db) < rows_left db
unfolding revoke_each
revoke_each-progress s sessions budget cutoff db some_ early here_ =
    let tokens = take (suc budget) (tokens_of s.id db) in
    let without = without_tokens (take budget tokens) db in
    let fewer = length-delete_tokens (take budget tokens) db.refresh_tokens in
    let shorter = delete_row-shorter s.id db.sessions here_ in
    let rest =
      rows_left-revoke_each sessions (budget - length tokens) cutoff
        (record without { sessions = delete_row s.id without.sessions }) in
    let kept : ltb cutoff s.creation_time ≡ false = ground arith in
    rw kept (elim (Bool-cases (ltb budget (length tokens))) [
      | inl e2 ↦
          let one =
            first_token tokens budget db.refresh_tokens
              (All-take (λ (t : RefreshToken). InIds t.id db.refresh_tokens) (suc budget) _
                (All-filter (λ (t : RefreshToken). InIds t.id db.refresh_tokens) _ db.refresh_tokens
                  (InIds-self db.refresh_tokens)))
              (ground arith) some_ in
          rw e2 (omega arith)
      | inr e2 ↦ rw e2 (omega arith)
    ])

InOrder-delete_row : (i : ℕ) (xs : List AuthSession) → InOrder xs → InOrder (delete_row i xs)
unfolding delete_row
InOrder-delete_row i [] h = tt
InOrder-delete_row i (x ∷ xs) (first, h) = elim (Bool-cases (nat_beq x.id i)) [
  | inl e ↦ rw e (InOrder-delete_row i xs h)
  | inr e ↦ rw e (
    All-delete_row (λ (y : AuthSession). x.creation_time ≤ y.creation_time) i xs first,
    InOrder-delete_row i xs h,
  )
]

InOrder-revoke_each :
    (sessions : List AuthSession) (budget cutoff : ℕ) (db : Db)
    → InOrder db.sessions
    → InOrder (revoke_each sessions budget cutoff db).sessions
unfolding revoke_each
InOrder-revoke_each [] budget cutoff db h = h
InOrder-revoke_each (s ∷ sessions) budget cutoff db h =
    let tokens = take (suc budget) (tokens_of s.id db) in
    let without = without_tokens (take budget tokens) db in
    let rest =
      InOrder-revoke_each sessions (budget - length tokens) cutoff
        (record without { sessions = delete_row s.id without.sessions })
        (InOrder-delete_row s.id db.sessions h) in
    elim (Bool-cases (ltb cutoff s.creation_time)) [
      | inl e ↦ rw e h
      | inr e ↦ elim (Bool-cases (ltb budget (length tokens))) [
        | inl e2 ↦ rw e (rw e2 h)
        | inr e2 ↦ rw e (rw e2 rest)
      ]
    ]

-- Where the first session is from after the cutoff, all are.
all_later :
    (cutoff : ℕ) (xs : List AuthSession)
    → InOrder xs
    → elim (take 1 xs) [ [] ↦ false | s ∷ _ ↦ leb s.creation_time cutoff ] ≡ false
    → All (λ (s : AuthSession). cutoff < s.creation_time) xs
all_later cutoff [] h e = tt
all_later cutoff (x ∷ xs) (first, h) e =
    let later : cutoff < x.creation_time = ground arith in
    (
      later,
      All-map (λ (y : AuthSession). x.creation_time ≤ y.creation_time)
          (λ (y : AuthSession). cutoff < y.creation_time) xs (λ y k. omega arith) first,
    )

none_revoked :
    (cutoff : ℕ) (xs : List AuthSession)
    → [] ≡ take max_sessions xs
    → elim (take 1 xs) [ [] ↦ false | s ∷ _ ↦ leb s.creation_time cutoff ] ≡ true
    → ⊥
none_revoked cutoff [] is more = cc
none_revoked cutoff (x ∷ xs) is more = cc

first_later :
    (cutoff : ℕ) (s : AuthSession) (sessions xs : List AuthSession)
    → s ∷ sessions ≡ take max_sessions xs
    → ltb cutoff s.creation_time ≡ true
    → elim (take 1 xs) [ [] ↦ false | t ∷ _ ↦ leb t.creation_time cutoff ] ≡ true
    → ⊥
first_later cutoff s sessions [] is later more = cc
first_later cutoff s sessions (x ∷ xs) is later more =
    let same : s ≡ x = ground (arith, is) in ground arith

-- The rows that are left go down where another run is scheduled.
batch_progress :
    (sessions : List AuthSession) (user cutoff : ℕ) (db : Db)
    → sessions ≡ take max_sessions (sessions_of user db)
    → All (λ (s : AuthSession). InIds s.id db.sessions) sessions
    → has_revoked user cutoff (revoke_each sessions token_budget cutoff db) ≡ true
    → rows_left (revoke_each sessions token_budget cutoff db) < rows_left db
unfolding revoke_each
batch_progress [] user cutoff db is h more =
    absurd (none_revoked cutoff (sessions_of user db) is more)
batch_progress (s ∷ sessions) user cutoff db is (here_, h) more =
    elim (Bool-cases (ltb cutoff s.creation_time)) [
      | inl later ↦ absurd (
          first_later cutoff s sessions (sessions_of user db) is later (
            let same : revoke_each (s ∷ sessions) token_budget cutoff db ≡ db = rw later refl in
            subst (λ d. has_revoked user cutoff d ≡ true) same more))
      | inr early ↦
          revoke_each-progress s sessions token_budget cutoff db (omega arith) (ground arith) here_
    ]

-- One run of the cleanup of sessions, with the runs that it schedules, comes to an end within one run
-- more than there are sessions and tokens, and then no session of the user is left that the cutoff
-- denies, where the table of sessions is in the order of creation.
pub cleanup_runs_remove_all :
    (fuel user cutoff : ℕ) (db : Db)
    → InOrder db.sessions
    → rows_left db < fuel
    → (db' : Db) × (cleanup_runs fuel user cutoff db ≡ some db')
      × All (λ (s : AuthSession). s.user_id ≡ user → cutoff < s.creation_time) db'.sessions
unfolding cleanup_runs revoke_session_batch
cleanup_runs_remove_all zero user cutoff db order h = absurd (omega arith)
cleanup_runs_remove_all (suc fuel) user cutoff db order h =
    let batch = take max_sessions (sessions_of user db) in
    let after = revoke_each batch token_budget cutoff db in
    let order' = InOrder-revoke_each batch token_budget cutoff db order in
    elim (Bool-cases (has_revoked user cutoff after)) [
      | inl more ↦
          let less =
            batch_progress batch user cutoff db refl
              (All-take (λ (s : AuthSession). InIds s.id db.sessions) max_sessions _
                (All-filter (λ (s : AuthSession). InIds s.id db.sessions) _ db.sessions
                  (InIds-self db.sessions)))
              more in
          rw more (cleanup_runs_remove_all fuel user cutoff after order' (omega arith))
      | inr done ↦ (
        after,
        rw done refl,
        All-map (λ (s : AuthSession). (s.user_id == user) ≡ true → cutoff < s.creation_time)
            (λ (s : AuthSession). s.user_id ≡ user → cutoff < s.creation_time) after.sessions
            (λ s k mine. k ((nat_beq_iff s.user_id user).1 mine))
            (All-unfilter (λ s. cutoff < s.creation_time) (λ (s : AuthSession). s.user_id == user)
              after.sessions
              (all_later cutoff (sessions_of user after) (InOrder-filter _ after.sessions order')
                done)),
      )
    ]
