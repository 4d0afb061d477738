-- ===== src/Access/Granted.antt =====
-- convex/access.ts: what a caller who passes the check has, and who cannot pass it.
use fw_gatekeeper.Prelude.{
  ℕ, ◌≤◌, ◌<◌, true, false, Option, none, some, List, [], ◌∷◌, ◌≡◌, sym, ap, subst, ◌∙◌, inl, inr,
  arith,
}
use fw_gatekeeper.Prelude.Tests.{Bool-cases, Option-cases, eq_iff, ◌==◌, nat_eq}
use fw_gatekeeper.Prelude.Lists.{All, any, filter, sole, sole-some}
use fw_gatekeeper.Prelude.Text.{Text, text_eq}
use fw_gatekeeper.Prelude.Result.{ok, err, Result-cases}
use fw_gatekeeper.Prelude.Table.{get_row, All-get_row}
use fw_gatekeeper.Schema.{Role, role_eq, PortalMember, AuthSession, session_row, Db, Platform}
use fw_gatekeeper.Access.{
  AccessError, Caller, after_bar, before_bar, is_live, created_after, has_current_session,
  assert_portal_member, must_change, assert_portal_role,
}

-- A row of the user that has not expired and is newer than the account's cutoff, if it has one.
pub record IsLive (user : ℕ) (c : Caller) (m : PortalMember) (s : AuthSession) : Type 0 where
  pub is_own : s.user_id ≡ user
  pub not_expired : c.now < s.expiration_time
  pub is_newer : (t : ℕ) → m.session_revoked_at ≡ some t → t < s.creation_time

-- The session of a call: the row that the subject names after its bar, which is live, or, for a
-- subject without a bar, none, of an account that was never cut off.
pub data SessionOf (p : Platform) (f : Text → Option ℕ) (user : ℕ) (c : Caller) (m : PortalMember)
    (db : Db) : Type 0 where
  bare :
      (subject : Text)
      → c.subject ≡ some subject
      → before_bar subject ≡ p.id_text user
      → after_bar subject ≡ none
      → m.session_revoked_at ≡ none
      → SessionOf p f user c m db
  live :
      (subject spelled : Text) (i : ℕ) (s : AuthSession)
      → c.subject ≡ some subject
      → before_bar subject ≡ p.id_text user
      → after_bar subject ≡ some spelled
      → f spelled ≡ some i
      → get_row i db.sessions ≡ some s
      → IsLive user c m s
      → SessionOf p f user c m db

-- What access rests on.
pub record HasAccess (p : Platform) (f : Text → Option ℕ) (allowed : List Role) (c : Caller)
    (m : PortalMember) (db : Db) : Type 0 where
  pub user : ℕ
  pub is_caller : c.user ≡ some user
  pub only_account : filter (λ (x : PortalMember). x.user_id == user) db.members ≡ m ∷ []
  pub is_active : m.active ≡ true
  pub password_set : must_change m ≡ false
  pub has_role : any (λ r. r == m.role) allowed ≡ true
  pub session : SessionOf p f user c m db

old_session :
    (p : Platform) (f : Text → Option ℕ) (user t : ℕ) (c : Caller) (m : PortalMember) (db : Db)
    → m.session_revoked_at ≡ some t
    → All (λ (s : AuthSession). s.user_id ≡ user → s.creation_time ≤ t) db.sessions
    → SessionOf p f user c m db
    → ⊥
old_session p f user t c m db cut old (bare subject e1 e2 e3 never) = ground arith
old_session p f user t c m db cut old (live subject spelled i s e1 e2 e3 e4 found good) =
    let before =
      All-get_row (λ (s : AuthSession). s.user_id ≡ user → s.creation_time ≤ t) i db.sessions s old
        found in
    omega (arith, before good.is_own, good.is_newer t cut)

live_lem :
    (user : ℕ) (c : Caller) (m : PortalMember) (s : AuthSession)
    → is_live user c.now m.session_revoked_at s ≡ true
    → IsLive user c m s
live_lem user c m s h = record {
  is_own = ground arith;
  not_expired = ground arith;
  is_newer = λ t e.
      let newer : created_after m.session_revoked_at s ≡ true = ground arith in
      let newer_t : created_after (some t) s ≡ true =
        subst (λ o. created_after o s ≡ true) e newer in
      ground arith;
}

module _ (p : Platform) (f : Text → Option ℕ) where
  current_lem :
      (c : Caller) (user : ℕ) (m : PortalMember) (db : Db)
      → sole (filter (λ (x : PortalMember). x.user_id == user) db.members) ≡ some (some m)
      → has_current_session p f c user db ≡ ok true
      → SessionOf p f user c m db
  unfolding has_current_session
  current_lem c user m db only h = elim (Option-cases c.subject) [
    | inl none_ ↦ absurd (ground arith)
    | inr (subject, e) ↦ elim (Bool-cases (before_bar subject == p.id_text user)) [
      | inr other ↦ absurd (ground arith)
      | inl mine ↦ elim (Option-cases (after_bar subject)) [
        | inl plain ↦ elim (Option-cases m.session_revoked_at) [
          | inl never ↦
              bare subject e ((eq_iff (before_bar subject) (p.id_text user)).0 mine) plain never
          | inr (t, cut) ↦ absurd (ground arith)
        ]
        | inr (spelled, e2) ↦ elim (Option-cases (f spelled)) [
          | inl bad ↦ absurd (ground arith)
          | inr (i, e3) ↦ elim (Option-cases (get_row i db.sessions)) [
            | inl gone ↦ absurd (ground arith)
            | inr (s, found) ↦
                live subject spelled i s e ((eq_iff (before_bar subject) (p.id_text user)).0 mine)
                  e2 e3 found (live_lem user c m s (ground arith))
          ]
        ]
      ]
    ]
  ]

  pub member_lem :
      (c : Caller) (db : Db) (m : PortalMember)
      → assert_portal_member p f c db ≡ ok m
      → (user : ℕ) × (c.user ≡ some user)
        × (sole (filter (λ (x : PortalMember). x.user_id == user) db.members) ≡ some (some m))
        × (m.active ≡ true)
        × (has_current_session p f c user db ≡ ok true)
  unfolding assert_portal_member
  member_lem c db m h = elim (Option-cases c.user) [
    | inl none_ ↦ absurd (ground arith)
    | inr (user, e) ↦ elim (Result-cases (has_current_session p f c user db)) [
      | inr (bad, e2) ↦ absurd (ground arith)
      | inl (true, e2) ↦
          elim (Option-cases (sole (filter (λ (x : PortalMember). x.user_id == user) db.members))) [
            | inl many ↦ absurd (ground arith)
            | inr (none, e3) ↦ absurd (ground arith)
            | inr (some x, e3) ↦ elim (Bool-cases x.active) [
              | inr off ↦ absurd (ground arith)
              | inl on ↦
                  let same : x ≡ m = ground arith in
                  (
                    user,
                    e,
                    e3 ∙ ap (λ y. some (some y)) same,
                    ap (λ y. y.active) (sym same) ∙ on,
                    e2,
                  )
            ]
          ]
      | inl (false, e2) ↦ absurd (ground arith)
    ]
  ]

  -- A caller whom the check lets through is the user of exactly one account, which is active, has
  -- a role that is allowed and owes no new password; the subject of the call names that user; and the
  -- session that it names is a row of that user, not expired and newer than the account's cutoff, or
  -- it names no session and the account was never cut off.
  pub assert_portal_role-HasAccess :
      (allowed : List Role) (c : Caller) (db : Db) (m : PortalMember)
      → assert_portal_role p f allowed c db ≡ ok m
      → HasAccess p f allowed c m db
  unfolding assert_portal_role
  assert_portal_role-HasAccess allowed c db m h =
      elim (Result-cases (assert_portal_member p f c db)) [
        | inr (bad, e) ↦ absurd (ground arith)
        | inl (x, e) ↦ elim (Bool-cases (must_change x)) [
          | inl old ↦ absurd (ground arith)
          | inr new ↦ elim (Bool-cases (any (λ r. r == x.role) allowed)) [
            | inr low ↦ absurd (ground arith)
            | inl good ↦
                let same : x ≡ m = ground arith in
                let (user, mine, only, on, current) = member_lem c db m (e ∙ ap ok same) in
                record {
                  user = user;
                  is_caller = mine;
                  only_account = sole-some _ m only;
                  is_active = on;
                  password_set = ap must_change (sym same) ∙ new;
                  has_role = ap (λ y. any (λ r. r == y.role) allowed) (sym same) ∙ good;
                  session = current_lem c user m db only current;
                }
          ]
        ]
      ]

  -- When an account has a cutoff and all sessions of its user are from before it, no call of the
  -- user passes the check, whatever its subject is.
  pub revoked_sessions_fail :
      (allowed : List Role) (c : Caller) (db : Db) (m : PortalMember) (user t : ℕ)
      → c.user ≡ some user
      → filter (λ (x : PortalMember). x.user_id == user) db.members ≡ m ∷ []
      → m.session_revoked_at ≡ some t
      → All (λ (s : AuthSession). s.user_id ≡ user → s.creation_time ≤ t) db.sessions
      → (e : AccessError) × (assert_portal_role p f allowed c db ≡ err e)
  revoked_sessions_fail allowed c db m user t mine only cut old =
      elim (Result-cases (assert_portal_role p f allowed c db)) [
        | inr (e, h) ↦ (e, h)
        | inl (x, h) ↦
            let a = assert_portal_role-HasAccess allowed c db x h in
            let u : a.user ≡ user = ground arith in
            let same : m ≡ x = ground (
              arith,
              only,
              subst (λ i. filter (λ (y : PortalMember). y.user_id == i) db.members ≡ x ∷ []) u
                  a.only_account,
            ) in
            absurd (
              old_session p f user t c x db (subst (λ y. y.session_revoked_at ≡ some t) same cut)
                old (subst (λ i. SessionOf p f i c x db) u a.session))
      ]
