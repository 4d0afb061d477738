-- ===== src/Members/Cutoff.antt =====
-- convex/portalMembers.ts: a change of a password shuts every session of its user out.
use fw_gatekeeper.Prelude.{
  ℕ, suc, ◌≤◌, ◌-◌, Bool, true, ◌&&◌, Option, none, some, List, [], ◌∷◌, ◌≡◌, inl, inr, refl, sym,
  ap, ◌∙◌, subst, arith,
}
use fw_gatekeeper.Prelude.Tests.{
  Bool-cases, Option-cases, ltb, nat_eq, nat_beq_iff, eq_iff, bool_eq, ◌==◌,
}
use fw_gatekeeper.Prelude.Lists.{
  All, All-map, All-filter, filter, filter_satisfies, take, length, last, sole-some,
}
use fw_gatekeeper.Prelude.Text.{Text, text_eq}
use fw_gatekeeper.Prelude.Result.{ok, err, Result-cases}
use fw_gatekeeper.Prelude.Table.{patch_row, delete_row, All-delete_row, filter-patch_row}
use fw_gatekeeper.Schema.{
  Role, PortalMember, member_row, AuthAccount, account_row, AuthSession, session_row, Db, Platform,
}
use fw_gatekeeper.Access.{
  AccessError, Caller, must_change, assert_portal_member, assert_portal_role,
}
use fw_gatekeeper.Access.Granted.{member_lem, revoked_sessions_fail}
use fw_gatekeeper.Members.Sessions.{
  max_sessions, token_budget, sessions_of, tokens_of, without_tokens, revoke_each,
  revoke_session_batch, created_at_or_zero, cutoff_for,
}
use fw_gatekeeper.Members.LastAdmin.{KeepsMembers-revoke}
use fw_gatekeeper.Members.Rows.{patch_member, or_zero}
use fw_gatekeeper.Members.Password.{
  OwnPasswordAccount, own_account, password_changed, with_secret, read_own_account,
  assert_unchanged, complete_password_change,
}

-- The table of sessions is in the order of creation.
abbrev pub InOrder : List AuthSession → Type 0
InOrder [] = Unit {0}
InOrder (s ∷ sessions) =
    All (λ (x : AuthSession). s.creation_time ≤ x.creation_time) sessions × InOrder sessions

pub InOrder-filter :
    (test : AuthSession → Bool) (xs : List AuthSession) → InOrder xs → InOrder (filter test xs)
unfolding filter
InOrder-filter test [] h = tt
InOrder-filter test (x ∷ xs) (first, h) = elim (Bool-cases (test x)) [
  | inl e ↦ rw e (
    All-filter (λ (y : AuthSession). x.creation_time ≤ y.creation_time) test xs first,
    InOrder-filter test xs h,
  )
  | inr e ↦ rw e (InOrder-filter test xs h)
]

last-latest :
    (xs : List AuthSession)
    → InOrder xs
    → All (λ (s : AuthSession). s.creation_time ≤ created_at_or_zero (last xs)) xs
last-latest [] h = tt
last-latest (x ∷ []) h = (omega arith, tt)
last-latest (x ∷ y ∷ xs) (first, h) =
    let rest = last-latest (y ∷ xs) h in (omega (arith, first.0, rest.0), rest)

pub All-unfilter :
    (P : AuthSession → Type 0) (test : AuthSession → Bool) (xs : List AuthSession)
    → All P (filter test xs)
    → All (λ s. test s ≡ true → P s) xs
unfolding filter
All-unfilter P test [] h = tt
All-unfilter P test (x ∷ xs) h = elim (Bool-cases (test x)) [
  | inl e ↦
      let all : All P (x ∷ filter test xs) = rw e at h in (λ k. all.0, All-unfilter P test xs all.1)
  | inr e ↦
      let all : All P (filter test xs) = rw e at h in
      (λ k. absurd (ground arith), All-unfilter P test xs all)
]

-- The cutoff is no earlier than any session of the user.
pub cutoff_for_latest :
    (now user earlier : ℕ) (db : Db)
    → InOrder db.sessions
    → All
        (λ (s : AuthSession). s.user_id ≡ user → s.creation_time ≤ cutoff_for now user earlier db)
        db.sessions
cutoff_for_latest now user earlier db h =
    let latest = last-latest (sessions_of user db) (InOrder-filter _ db.sessions h) in
    All-map
      (λ (s : AuthSession).
        (s.user_id == user) ≡ true
        → s.creation_time ≤ created_at_or_zero (last (sessions_of user db)))
      (λ (s : AuthSession). s.user_id ≡ user → s.creation_time ≤ cutoff_for now user earlier db)
      db.sessions
      (λ s early mine. let e = early ((nat_beq_iff s.user_id user).1 mine) in ground arith)
      (All-unfilter (λ s. s.creation_time ≤ created_at_or_zero (last (sessions_of user db)))
        (λ (s : AuthSession). s.user_id == user) db.sessions latest)

module _ (P : AuthSession → Type 0) where
  All-revoke_each :
      (sessions : List AuthSession) (budget cutoff : ℕ) (db : Db)
      → All P db.sessions
      → All P (revoke_each sessions budget cutoff db).sessions
  unfolding revoke_each
  All-revoke_each [] budget cutoff db h = h
  All-revoke_each (s ∷ sessions) budget cutoff db h =
      let tokens = take (suc budget) (tokens_of s.id db) in
      let without = without_tokens (take budget tokens) db in
      let rest =
        All-revoke_each sessions (budget - length tokens) cutoff
          (record without { sessions = delete_row s.id without.sessions })
          (All-delete_row P s.id db.sessions h) in
      elim (Bool-cases (ltb cutoff s.creation_time)) [
        | inl e ↦ rw e h
        | inr e ↦ elim (Bool-cases (ltb budget (length tokens))) [
          | inl e2 ↦ rw e (rw e2 h)
          | inr e2 ↦ rw e (rw e2 rest)
        ]
      ]

  -- The removal of sessions leaves what holds of every session.
  pub All-revoke :
      (user cutoff : ℕ) (db : Db)
      → All P db.sessions
      → All P (revoke_session_batch user cutoff db).1.sessions
  unfolding revoke_session_batch
  All-revoke user cutoff db h =
      All-revoke_each (take max_sessions (sessions_of user db)) token_budget cutoff db h

-- An account that is patched is still the user's only one.
only_patched :
    (user : ℕ) (m : PortalMember) (f : PortalMember → PortalMember) (xs : List PortalMember)
    → ((x : PortalMember) → (f x).user_id ≡ x.user_id)
    → filter (λ (x : PortalMember). x.user_id == user) xs ≡ m ∷ []
    → filter (λ (x : PortalMember). x.user_id == user) (patch_row m.id f xs) ≡ f m ∷ []
unfolding patch_row
only_patched user m f xs same only =
    filter-patch_row (λ (x : PortalMember). x.user_id == user) m.id f xs
      (λ x. ap (λ i. i == user) (same x))
    ∙ rw only (rw ((nat_beq_iff m.id m.id).1 refl) refl)

module _ (p : Platform) (f : Text → Option ℕ) where
  pub assert_unchanged_lem :
      (expected : OwnPasswordAccount) (c : Caller) (db : Db) (m : PortalMember) (a : AuthAccount)
      → assert_unchanged p f expected c db ≡ ok (m, a)
      → (assert_portal_member p f c db ≡ ok m)
        × (own_account m.user_id db ≡ ok (some a))
        × (a.secret ≡ some expected.stored_hash)
        × (a.id ≡ expected.account_id)
  unfolding assert_unchanged read_own_account
  assert_unchanged_lem expected c db m a h = elim (Result-cases (assert_portal_member p f c db)) [
    | inr (bad, e) ↦ absurd (ground arith)
    | inl (x, e) ↦ elim (Result-cases (own_account x.user_id db)) [
      | inr (bad, e2) ↦ absurd (ground arith)
      | inl (none, e2) ↦ absurd (ground arith)
      | inl (some b, e2) ↦ elim (Option-cases b.secret) [
        | inl e3 ↦ absurd (ground arith)
        | inr ([], e3) ↦ absurd (ground arith)
        | inr (k ∷ t, e3) ↦
            elim (Bool-cases (
              b.id == expected.account_id
              && k ∷ t == expected.stored_hash
              && must_change x == expected.must_change_password)) [
                | inr bad ↦ absurd (ground arith)
                | inl good ↦
                    let sm : x ≡ m = ground arith in
                    let sb : b ≡ a = ground arith in
                    let hash : k ∷ t ≡ expected.stored_hash =
                      (eq_iff (k ∷ t) expected.stored_hash).0 (ground arith) in
                    let id : b.id ≡ expected.account_id = ground arith in
                    (
                      e ∙ ap ok sm,
                      subst (λ y. own_account y.user_id db ≡ ok (some a)) sm
                          (e2 ∙ ap (λ y. ok (some y)) sb),
                      ap (λ (y : AuthAccount). y.secret) (sym sb) ∙ e3 ∙ ap some hash,
                      ap (λ (y : AuthAccount). y.id) (sym sb) ∙ id,
                    )
              ]
      ]
    ]
  ]

  -- After a change of a password that is accepted, no call of its user passes the check of a role,
  -- whatever session it has, the one of the change included, where the table of sessions is in the
  -- order of creation.
  pub password_change_shuts_out :
      (expected : OwnPasswordAccount) (hash : Text) (c : Caller) (db : Db) (more : Bool) (db' : Db)
      (allowed : List Role) (later : Caller)
      → InOrder db.sessions
      → complete_password_change p f expected hash c db ≡ ok (more, db')
      → later.user ≡ c.user
      → (bad : AccessError) × (assert_portal_role p f allowed later db' ≡ err bad)
  unfolding complete_password_change
  password_change_shuts_out expected hash c db more db' allowed later order h mine =
      elim (Result-cases (assert_unchanged p f expected c db)) [
        | inr (bad, e) ↦ absurd (ground arith)
        | inl ((m, a), e) ↦
            let (user, is_caller, only, on, live) =
              member_lem p f c db m (assert_unchanged_lem expected c db m a e).0 in
            let cutoff = cutoff_for c.now m.user_id (or_zero m.session_revoked_at) db in
            let g = password_changed cutoff (p.iso c.now) in
            let patched =
              patch_member m.id g
                (record db { accounts = patch_row a.id (with_secret hash) db.accounts }) in
            let one : filter (λ (x : PortalMember). x.user_id == user) db.members ≡ m ∷ [] =
              sole-some _ m only in
            let same_user : m.user_id ≡ user =
              let mine_only : All (λ (x : PortalMember). (x.user_id == user) ≡ true) (m ∷ []) =
                subst (All (λ (x : PortalMember). (x.user_id == user) ≡ true)) one
                  (filter_satisfies (λ (x : PortalMember). x.user_id == user) db.members) in
              (nat_beq_iff m.user_id user).0 mine_only.0 in
            let members : db'.members ≡ patch_row m.id g db.members =
              let now : db'.members ≡ (revoke_session_batch m.user_id cutoff patched).1.members =
                ground arith in
              now ∙ (KeepsMembers-revoke m.user_id cutoff patched).members in
            let sessions : db'.sessions
                ≡ (revoke_session_batch m.user_id cutoff patched).1.sessions =
              ground arith in
            revoked_sessions_fail p f allowed later db' (g m) user cutoff (mine ∙ is_caller)
              (ap (filter (λ (x : PortalMember). x.user_id == user)) members
                ∙ only_patched user m g db.members (λ x. refl) one)
              refl
              (subst (All (λ (s : AuthSession). s.user_id ≡ user → s.creation_time ≤ cutoff))
                (sym sessions)
                (All-revoke (λ (s : AuthSession). s.user_id ≡ user → s.creation_time ≤ cutoff)
                  m.user_id cutoff patched
                  (subst
                    (λ i.
                      All (λ (s : AuthSession). s.user_id ≡ i → s.creation_time ≤ cutoff)
                        db.sessions)
                    same_user
                    (cutoff_for_latest c.now m.user_id (or_zero m.session_revoked_at) db order))))
      ]
