-- ===== src/Members/Password.antt =====
-- convex/portalMembers.ts: the change of one's own password, an action over transactions between
-- which other transactions commit, and the budget of failed attempts.
use fw_gatekeeper.Prelude.{
  ℕ, suc, ◌+◌, ◌-◌, ◌*◌, Bool, false, ◌&&◌, Option, none, some, [], ◌∷◌, ◌++◌,
}
use fw_gatekeeper.Prelude.Tests.{ltb, min, bool_eq, if◌then◌else◌, ◌==◌, nat_eq, option_eq}
use fw_gatekeeper.Prelude.Lists.{filter, sole}
use fw_gatekeeper.Prelude.Text.{Text, text, text_eq}
use fw_gatekeeper.Prelude.Result.{Result, ok, err, ◌>>=◌, ◌>>◌, require, refuse, present}
use fw_gatekeeper.Prelude.Table.{patch_row, delete_row}
use fw_gatekeeper.Schema.{
  PortalMember, member_row, AuthAccount, account_row, RateLimit, limit_row, Db, Platform,
}
use fw_gatekeeper.Access.{Caller, must_change, assert_portal_member}
use fw_gatekeeper.Members.Sessions.{revoke_session_batch, cutoff_for}
use fw_gatekeeper.Members.Rows.{
  MemberError, ambiguous_account, password_account_missing, password_change_conflict,
  too_many_attempts, invalid_current_password, same_password, assert_valid_password, access_part,
  patch_member, audit_member, or_zero,
}

-- The Scrypt of the library lucia.
pub record Scrypt : Type 0 where
  pub verify : Text → Text → Bool
  pub hash : Text → Text

pub record OwnPasswordAccount : Type 0 where
  pub account_id : ℕ
  pub stored_hash : Text
  pub must_change_password : Bool

-- Before a transaction of an action others may commit; it then runs at a time of its own.
pub record Pause : Type 0 where
  pub commits : Db → Db
  pub time : ℕ

abbrev pub at : Pause → Caller → Caller
at pause c = record c { now = pause.time }

-- 3600000 milliseconds bring ten attempts back: 360000 parts to an attempt, a part a millisecond.
abbrev pub attempt : ℕ
attempt = 360000

abbrev pub max_attempts : ℕ
max_attempts = 10

-- `account?.secret`, where an empty text is none.
abbrev pub secret_of : Option AuthAccount → Option (AuthAccount × Text)
secret_of none = none
secret_of (some a) = elim a.secret [ none ↦ none | some [] ↦ none | some (c ∷ t) ↦ some (a, c ∷ t) ]

abbrev pub own_account : ℕ → Db → Result MemberError (Option AuthAccount)
own_account user db =
    present
      (sole (
        filter (λ (a : AuthAccount). a.user_id == user && a.provider == text "password")
          db.accounts))
      ambiguous_account

abbrev pub limit_of : ℕ → Db → Result MemberError (Option RateLimit)
limit_of account db =
    present (sole (filter (λ (l : RateLimit). l.identifier == account) db.rate_limits))
      ambiguous_account

-- What is left of the budget at a time; it is full at most.
unfoldable pub parts_left : Option RateLimit → ℕ → ℕ
parts_left none now = max_attempts * attempt
parts_left (some l) now = min (max_attempts * attempt) (l.parts_left + now - l.last_attempt_time)

abbrev pub spend : Option RateLimit → ℕ → ℕ → ℕ → Db → Db
spend none account left now db = record db {
  next_id = suc db.next_id;
  rate_limits =
      db.rate_limits
      ++ record {
        id = db.next_id;
        identifier = account;
        parts_left = left;
        last_attempt_time = now;
      }
        ∷ [];
}
spend (some l) account left now db = record db {
  rate_limits =
      patch_row l.id (λ (x : RateLimit). record x { parts_left = left; last_attempt_time = now })
        db.rate_limits;
}

abbrev pub forget : Option RateLimit → Db → Db
forget none db = db
forget (some l) db = record db { rate_limits = delete_row l.id db.rate_limits }

abbrev pub password_changed : ℕ → Text → PortalMember → PortalMember
password_changed cutoff now m = record m {
  must_change_password = some false;
  session_revoked_at = some cutoff;
  updated_at = some now;
}

abbrev pub with_secret : Text → AuthAccount → AuthAccount
with_secret hash a = record a { secret = some hash }

module _ (p : Platform) (session_id_of : Text → Option ℕ) where
  -- `readOwnPasswordAccount`.
  unfoldable pub read_own_account :
      Caller → Db → Result MemberError (PortalMember × (AuthAccount × Text))
  read_own_account c db = do
    member ← access_part (assert_portal_member p session_id_of c db)
    found ← own_account member.user_id db
    account ← present (secret_of found) password_account_missing
    ok (member, account)

  -- `assertOwnPasswordAccountUnchanged`.
  unfoldable pub assert_unchanged :
      OwnPasswordAccount → Caller → Db → Result MemberError (PortalMember × AuthAccount)
  assert_unchanged expected c db = do
    (member, account) ← read_own_account c db
    require
        (account.0.id == expected.account_id
          && account.1 == expected.stored_hash
          && must_change member == expected.must_change_password)
        password_change_conflict
    ok (member, account.0)

  -- `getOwnPasswordAccount`.
  unfoldable pub get_own_account : Caller → Db → Result MemberError OwnPasswordAccount
  get_own_account c db = read_own_account c db >>= λ (member, account). ok (record {
    account_id = account.0.id;
    stored_hash = account.1;
    must_change_password = must_change member;
  })

  -- `reserveCurrentPasswordAttempt`.
  unfoldable pub reserve_attempt : OwnPasswordAccount → Caller → Db → Result MemberError Db
  reserve_attempt expected c db = do
    (member, account) ← assert_unchanged expected c db
    limit ← limit_of account.id db
    let left = parts_left limit c.now
    refuse (ltb left attempt) too_many_attempts
    ok (spend limit account.id (left - attempt) c.now db)

  -- `recordCurrentPasswordVerified`.
  unfoldable pub record_verified : OwnPasswordAccount → Caller → Db → Result MemberError Db
  record_verified expected c db = do
    (member, account) ← assert_unchanged expected c db
    limit ← limit_of account.id db
    ok (forget limit db)

  -- What `completePasswordChange` writes.
  abbrev pub write_password : PortalMember → AuthAccount → Text → ℕ → Db → Bool × Db
  write_password member account hash now db =
      let cutoff = cutoff_for now member.user_id (or_zero member.session_revoked_at) db in
      revoke_session_batch member.user_id cutoff (
        patch_member member.id (password_changed cutoff (p.iso now))
          (record db { accounts = patch_row account.id (with_secret hash) db.accounts }))

  -- `completePasswordChange`: whether a cleanup of sessions is scheduled, and the store.
  unfoldable pub complete_password_change :
      OwnPasswordAccount → Text → Caller → Db → Result MemberError (Bool × Db)
  complete_password_change expected hash c db = do
    (member, account) ← assert_unchanged expected c db
    let written = write_password member account hash c.now db
    ok (
      written.0,
      audit_member member.user_id (text "portalMembers.changePassword") member.id none (p.iso c.now)
          written.1,
    )

  module _ (scrypt : Scrypt) where
    -- The last transaction of `changePassword`.
    abbrev pub finish_change :
        Pause → OwnPasswordAccount → Text → Caller → Db → Result MemberError Bool × Db
    finish_change pause snapshot new_password c db =
        let before = pause.commits db in
        elim (complete_password_change snapshot (scrypt.hash new_password) (at pause c) before) [
          | err bad ↦ (err bad, before)
          | ok (more, after) ↦ (ok more, after)
        ]

    -- `changePassword` from the first check of a password on.
    unfoldable pub change_reserved :
        Pause
        → Pause
        → OwnPasswordAccount
        → Text
        → Text
        → Caller
        → Db
        → Result MemberError Bool × Db
    change_reserved pause2 pause3 snapshot current_password new_password c db =
        let before = pause2.commits db in
        if scrypt.verify snapshot.stored_hash current_password
        then elim (record_verified snapshot (at pause2 c) before) [
          | err bad ↦ (err bad, before)
          | ok db2 ↦
              if scrypt.verify snapshot.stored_hash new_password
              then (err same_password, db2)
              else finish_change pause3 snapshot new_password c db2
        ]
        else (err invalid_current_password, db)

    -- `changePassword`: what it answers, and the store that it leaves, also where it throws.
    unfoldable pub change_password :
        Pause → Pause → Pause → Text → Text → Caller → Db → Result MemberError Bool × Db
    change_password pause1 pause2 pause3 current_password new_password c db =
        elim (do snapshot ← get_own_account c db; assert_valid_password new_password; ok snapshot) [
          | err bad ↦ (err bad, db)
          | ok snapshot ↦
              let before = pause1.commits db in
              elim (reserve_attempt snapshot (at pause1 c) before) [
                | err bad ↦ (err bad, before)
                | ok db1 ↦
                    change_reserved pause2 pause3 snapshot current_password new_password c db1
              ]
        ]
