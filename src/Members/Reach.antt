-- ===== src/Members/Reach.antt =====
-- convex/portalMembers.ts: the handlers in any order, with what other parts commit between them.
use fw_gatekeeper.Prelude.{ℕ, Bool, Option, ◌≡◌}
use fw_gatekeeper.Prelude.Text.{Text}
use fw_gatekeeper.Prelude.Result.{ok}
use fw_gatekeeper.Schema.{Role, PortalMember, Db, Platform}
use fw_gatekeeper.Access.{Caller}
use fw_gatekeeper.Members.Sessions.{revoke_session_batch}
use fw_gatekeeper.Members.Rows.{MemberAnswer, AuthStore}
use fw_gatekeeper.Members.Accounts.{
  set_role, set_active, reset_account_password, create_account_and_member,
}
use fw_gatekeeper.Members.Password.{
  OwnPasswordAccount, reserve_attempt, record_verified, complete_password_change,
}
use fw_gatekeeper.Members.LastAdmin.{
  HasAdministrator, KeepsMembers, KeepsMembers-HasAdministrator, KeepsMembers-revoke,
}
use fw_gatekeeper.Members.Roles.{set_role-HasAdministrator, set_active-HasAdministrator}
use fw_gatekeeper.Members.Resets.{
  LeavesMembers, create-HasAdministrator, reset-HasAdministrator, complete-HasAdministrator,
  KeepsMembers-reserve_attempt, KeepsMembers-record_verified,
}

module _ (p : Platform) (f : Text → Option ℕ) (store : AuthStore) where
  -- A transaction that commits: a handler of accounts that is accepted, or one of another part,
  -- which leaves the accounts.
  pub data MemberStep (db db' : Db) : Type 0 where
    role_set :
        (user : ℕ) (role : Role) (c : Caller)
        → set_role p f user role c db ≡ ok db'
        → MemberStep db db'
    activity_set :
        (user : ℕ) (active : Bool) (c : Caller) (more : Bool)
        → set_active p f user active c db ≡ ok (more, db')
        → MemberStep db db'
    account_made :
        (email password : Text) (role : Role) (c : Caller) (answer : MemberAnswer)
        → create_account_and_member p f store email password role c db ≡ ok (answer, db')
        → MemberStep db db'
    password_reset :
        (email password : Text) (role : Role) (c : Caller) (m : PortalMember) (more : Bool)
        → reset_account_password p f store email password role c db ≡ ok (m, (more, db'))
        → MemberStep db db'
    attempt_reserved :
        (expected : OwnPasswordAccount) (c : Caller)
        → reserve_attempt p f expected c db ≡ ok db'
        → MemberStep db db'
    password_verified :
        (expected : OwnPasswordAccount) (c : Caller)
        → record_verified p f expected c db ≡ ok db'
        → MemberStep db db'
    own_password_changed :
        (expected : OwnPasswordAccount) (hash : Text) (c : Caller) (more : Bool)
        → complete_password_change p f expected hash c db ≡ ok (more, db')
        → MemberStep db db'
    sessions_cleaned :
        (user cutoff : ℕ) → (revoke_session_batch user cutoff db).1 ≡ db' → MemberStep db db'
    elsewhere : KeepsMembers db db' → MemberStep db db'

  pub data Reach (db : Db) : Db → Type 0 where
    start : Reach db db
    step : {mid after : Db} → Reach db mid → MemberStep mid after → Reach db after

  MemberStep-HasAdministrator :
      (db db' : Db)
      → LeavesMembers store
      → MemberStep db db'
      → HasAdministrator db
      → HasAdministrator db'
  MemberStep-HasAdministrator db db' leaves (role_set user role c h) v =
      set_role-HasAdministrator p f user role c db db' v h
  MemberStep-HasAdministrator db db' leaves (activity_set user active c more h) v =
      set_active-HasAdministrator p f user active c db more db' v h
  MemberStep-HasAdministrator db db' leaves (account_made email password role c answer h) v =
      create-HasAdministrator p f store email password role c db answer db' leaves v h
  MemberStep-HasAdministrator db db' leaves (password_reset email password role c m more h) v =
      reset-HasAdministrator p f store email password role c db m more db' leaves v h
  MemberStep-HasAdministrator db db' leaves (attempt_reserved expected c h) v =
      KeepsMembers-HasAdministrator db db' (KeepsMembers-reserve_attempt p f expected c db db' h) v
  MemberStep-HasAdministrator db db' leaves (password_verified expected c h) v =
      KeepsMembers-HasAdministrator db db' (KeepsMembers-record_verified p f expected c db db' h) v
  MemberStep-HasAdministrator db db' leaves (own_password_changed expected hash c more h) v =
      complete-HasAdministrator p f expected hash c db more db' v h
  MemberStep-HasAdministrator db db' leaves (sessions_cleaned user cutoff h) v =
      rw (← h) (KeepsMembers-HasAdministrator db _ (KeepsMembers-revoke user cutoff db) v)
  MemberStep-HasAdministrator db db' leaves (elsewhere k) v =
      KeepsMembers-HasAdministrator db db' k v

  -- A portal that has an active administrator, and whose ids of accounts are in order, has both
  -- after any run of accepted handlers of accounts and of transactions that leave the accounts,
  -- where the library leaves them too.
  pub Reach-HasAdministrator :
      (db db' : Db)
      → LeavesMembers store
      → Reach db db'
      → HasAdministrator db
      → HasAdministrator db'
  Reach-HasAdministrator db db' leaves start v = v
  Reach-HasAdministrator db db' leaves (step {mid} r s) v =
      MemberStep-HasAdministrator mid db' leaves s (Reach-HasAdministrator db mid leaves r v)
