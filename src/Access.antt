-- ===== src/Access.antt =====
-- convex/access.ts: who may call a portal handler, and how expired sessions are removed.
pub mod Granted
pub mod Expiry
mod Tests
use fw_gatekeeper.Prelude.{
  ℕ, Bool, true, false, not, ◌&&◌, ◌||◌, Option, none, some, List, [], ◌∷◌, ◌++◌, map,
}
use fw_gatekeeper.Prelude.Tests.{ltb, leb, if◌then◌else◌, ◌==◌, ◌!=◌, nat_eq}
use fw_gatekeeper.Prelude.Lists.{take, filter, any, length, sole, sort_by}
use fw_gatekeeper.Prelude.Text.{Text, text, text_eq}
use fw_gatekeeper.Prelude.Result.{Result, ok, err, ◌>>=◌, ◌>>◌, require, refuse, present}
use fw_gatekeeper.Prelude.Table.{get_row, delete_row}
use fw_gatekeeper.Schema.{
  Role, role_eq, PortalMember, AuthSession, session_row, RefreshToken, token_row, Db, Platform,
}

pub data AccessError : Type 0 where
  unauthorized : AccessError
  -- "PASSWORD_CHANGE_REQUIRED".
  password_change_required : AccessError
  -- "Insufficient permissions".
  insufficient : AccessError
  -- `.unique()` on two accounts of one user.
  ambiguous : AccessError

-- What the platform says of a call: `getAuthUserId(ctx)`, `getUserIdentity()?.subject`, and
-- `Date.now()`.
pub record Caller : Type 0 where
  pub user : Option ℕ
  pub subject : Option Text
  pub now : ℕ

-- 124 is `|`.
abbrev bar : ℕ
bar = 124

-- `subject.split('|', 1)[0]`.
unfoldable pub before_bar : Text → Text
before_bar [] = []
before_bar (c ∷ t) = let rest = before_bar t in if c == bar then [] else c ∷ rest

-- What follows the first `|`, if there is one.
unfoldable pub after_bar : Text → Option Text
after_bar [] = none
after_bar (c ∷ t) = let rest = after_bar t in if c == bar then some t else rest

abbrev pub member_of : ℕ → Db → Result AccessError (Option PortalMember)
member_of user db =
    present (sole (filter (λ (m : PortalMember). m.user_id == user) db.members)) ambiguous

-- `member?.sessionRevokedAt`.
abbrev pub revoked_at : Option PortalMember → Option ℕ
revoked_at none = none
revoked_at (some m) = m.session_revoked_at

abbrev is_unrevoked : Option ℕ → Bool
is_unrevoked none = true
is_unrevoked (some t) = false

-- `cutoff === undefined || session._creationTime > cutoff`.
abbrev pub created_after : Option ℕ → AuthSession → Bool
created_after none s = true
created_after (some t) s = ltb t s.creation_time

-- A session of the user, not expired, and from after the account's cutoff.
abbrev pub is_live : ℕ → ℕ → Option ℕ → AuthSession → Bool
is_live user now cutoff s = s.user_id == user && ltb now s.expiration_time && created_after cutoff s

-- `member.mustChangePassword === true`.
abbrev pub must_change : PortalMember → Bool
must_change m = elim m.must_change_password [ none ↦ false | some b ↦ b ]

-- `session_id_of` is `ctx.db.normalizeId('authSessions', …)`.
module _ (p : Platform) (session_id_of : Text → Option ℕ) where
  abbrev session_current : ℕ → ℕ → Option ℕ → Option Text → Db → Bool
  session_current user now cutoff none db = is_unrevoked cutoff
  session_current user now cutoff (some spelled) db = elim (session_id_of spelled) [
    | none ↦ false
    | some i ↦ elim (get_row i db.sessions) [ none ↦ false | some s ↦ is_live user now cutoff s ]
  ]

  unfoldable pub has_current_session : Caller → ℕ → Db → Result AccessError Bool
  has_current_session c user db = elim c.subject [
    | none ↦ ok false
    | some subject ↦
        if before_bar subject == p.id_text user
        then (member_of user db >>= λ member.
            ok (session_current user c.now (revoked_at member) (after_bar subject) db))
        else ok false
  ]

  unfoldable pub assert_portal_member : Caller → Db → Result AccessError PortalMember
  assert_portal_member c db = do
    user ← present c.user unauthorized
    current ← has_current_session c user db
    require current unauthorized
    found ← member_of user db
    member ← present found unauthorized
    require member.active unauthorized
    ok member

  unfoldable pub assert_portal_role : List Role → Caller → Db → Result AccessError PortalMember
  assert_portal_role allowed c db = do
    member ← assert_portal_member c db
    refuse (must_change member) password_change_required
    require (any (λ r. r == member.role) allowed) insufficient
    ok member

abbrev pub session_cleanup_batch : ℕ
session_cleanup_batch = 100

-- What a handler hands to the scheduler.
pub data Job : Type 0 where
  remove_tokens : ℕ → Job
  expire_more : Job

abbrev pub has_expired : ℕ → AuthSession → Bool
has_expired now s = leb s.expiration_time now

unfoldable pub delete_sessions : List AuthSession → List AuthSession → List AuthSession
delete_sessions [] sessions = sessions
delete_sessions (s ∷ batch) sessions = delete_sessions batch (delete_row s.id sessions)

abbrev pub expired_batch : ℕ → Db → List AuthSession
expired_batch now db =
    take session_cleanup_batch
      (sort_by (λ (s : AuthSession). s.expiration_time) (filter (has_expired now) db.sessions))

-- `expireSessions`.
unfoldable pub expire_sessions : ℕ → Db → (ℕ × List Job) × Db
expire_sessions now db =
    let batch = expired_batch now db in
    (
      (
        length batch,
        map (λ (s : AuthSession). remove_tokens s.id) batch
            ++ (if length batch == session_cleanup_batch then expire_more ∷ [] else []),
      ),
      record db { sessions = delete_sessions batch db.sessions },
    )

unfoldable pub delete_tokens : List RefreshToken → List RefreshToken → List RefreshToken
delete_tokens [] tokens = tokens
delete_tokens (t ∷ batch) tokens = delete_tokens batch (delete_row t.id tokens)

-- `removeExpiredSessionTokens`: nothing while the session is there.
unfoldable pub remove_session_tokens : ℕ → Db → (ℕ × List Job) × Db
remove_session_tokens session db = elim (get_row session db.sessions) [
  | some s ↦ ((0, []), db)
  | none ↦
      let batch =
        take session_cleanup_batch
          (filter (λ (t : RefreshToken). t.session_id == session) db.refresh_tokens) in
      (
        (
          length batch,
          if length batch == session_cleanup_batch then remove_tokens session ∷ [] else [],
        ),
        record db { refresh_tokens = delete_tokens batch db.refresh_tokens },
      )
]
