-- ===== src/Members/Resets.antt =====
-- convex/portalMembers.ts: an account that is made, a password that is reset or changed, and an attempt
-- that is counted leave an administrator.
use fw_gatekeeper.Prelude.{
  ℕ, suc, ◌-◌, Bool, true, ◌&&◌, Option, none, some, List, [], ◌∷◌, ◌++◌, ◌≡◌, inl, inr, refl, sym,
  subst, arith,
}
use fw_gatekeeper.Prelude.Tests.{Bool-cases, Option-cases, nat_eq, ltb, ◌==◌, bool_eq}
use fw_gatekeeper.Prelude.Lists.{any}
use fw_gatekeeper.Prelude.Text.{Text}
use fw_gatekeeper.Prelude.Result.{ok, Result-cases}
use fw_gatekeeper.Prelude.Table.{patch_row}
use fw_gatekeeper.Prelude.Ids.{HasIds-append, HasIds-suc}
use fw_gatekeeper.Schema.{
  Role, role_eq, admin, PortalMember, member_row, AuthAccount, account_row, RateLimit, Db, Platform,
}
use fw_gatekeeper.Access.{Caller, member_of}
use fw_gatekeeper.Members.Sessions.{revoke_session_batch, cutoff_for}
use fw_gatekeeper.Members.Rows.{
  MemberAnswer, AuthStore, or_zero, is_email, assert_valid_password, password_account, patch_member,
  owing_password,
}
use fw_gatekeeper.Members.Accounts.{
  is_admin, administrator, normalize_email, protect_last_admin, add_member, reset_cutoff,
  reset_account_password, create_account_and_member,
}
use fw_gatekeeper.Members.LastAdmin.{
  HasAdministrator, KeepsMembers, KeepsMembers-HasAdministrator, KeepsMembers-revoke,
  patch-HasAdministrator, same_patch-HasAdministrator,
}
use fw_gatekeeper.Members.Roles.{audited}
use fw_gatekeeper.Members.Password.{
  OwnPasswordAccount, password_changed, with_secret, assert_unchanged, limit_of, parts_left, spend,
  forget, attempt, reserve_attempt, record_verified, write_password, complete_password_change,
}

-- What the code relies on: the library makes accounts and users, and leaves the portal's accounts.
pub record LeavesMembers (store : AuthStore) : Type 0 where
  pub creates :
      (email password : Text) (db db' : Db) (user : ℕ)
      → store.create_account email password db ≡ some (user, db')
      → KeepsMembers db db'
  pub modifies :
      (email password : Text) (db db' : Db)
      → store.modify_account email password db ≡ some db'
      → KeepsMembers db db'

any-append :
    (m : PortalMember) (xs : List PortalMember)
    → any is_admin xs ≡ true
    → any is_admin (xs ++ m ∷ []) ≡ true
unfolding any
any-append m [] h = cc
any-append m (x ∷ xs) h = elim (Bool-cases (is_admin x)) [
  | inl e ↦ ground arith
  | inr e ↦ let rest = any-append m xs (ground arith) in ground arith
]

same_protection :
    (t : PortalMember) (role : Role) (active : Bool) (db db1 : Db)
    → db1.members ≡ db.members
    → protect_last_admin t role active db ≡ ok tt
    → protect_last_admin t role active db1 ≡ ok tt
unfolding protect_last_admin
same_protection t role active db db1 same h =
    subst (λ ms. protect_last_admin t role active (record db1 { members = ms }) ≡ ok tt) (sym same)
      h

module _ (p : Platform) (f : Text → Option ℕ) where
  add_member-HasAdministrator :
      (user : ℕ) (email : Text) (role : Role) (actor now : ℕ) (db : Db)
      → HasAdministrator db
      → HasAdministrator (add_member p user email role actor now db)
  unfolding add_member
  add_member-HasAdministrator user email role actor now db v = record {
    ids =
        HasIds-suc (suc db.next_id) (add_member p user email role actor now db).members
          (HasIds-append db.next_id db.members _ refl v.ids);
    one = any-append _ db.members v.one;
  }

  pub create-HasAdministrator :
      (store : AuthStore) (email password : Text) (role : Role) (c : Caller) (db : Db)
      (answer : MemberAnswer) (db' : Db)
      → LeavesMembers store
      → HasAdministrator db
      → create_account_and_member p f store email password role c db ≡ ok (answer, db')
      → HasAdministrator db'
  unfolding create_account_and_member
  create-HasAdministrator store email password role c db answer db' leaves v h =
      elim (Result-cases (administrator p f c db)) [
        | inr (bad, e) ↦ absurd (ground arith)
        | inl (actor, e) ↦ elim (Bool-cases (is_email (normalize_email p email))) [
          | inr bad ↦ absurd (ground arith)
          | inl good ↦ elim (Result-cases (assert_valid_password password)) [
            | inr (bad, e2) ↦ absurd (ground arith)
            | inl (t, e2) ↦ elim (Result-cases (password_account (normalize_email p email) db)) [
              | inr (bad, e3) ↦ absurd (ground arith)
              | inl (some x, e3) ↦ absurd (ground arith)
              | inl (none, e3) ↦
                  elim (Option-cases (store.create_account (normalize_email p email) password db)) [
                    | inl e4 ↦ absurd (ground arith)
                    | inr ((user, db1), e4) ↦
                        let eq : add_member p user (normalize_email p email) role actor.user_id
                              c.now db1
                            ≡ db' =
                          ground arith in
                        subst HasAdministrator eq (
                          add_member-HasAdministrator user (normalize_email p email) role
                            actor.user_id c.now db1
                            (KeepsMembers-HasAdministrator db db1
                              (leaves.creates (normalize_email p email) password db db1 user e4) v))
                  ]
            ]
          ]
        ]
      ]

  -- What both a reset and a change of a password write to the account.
  patched-HasAdministrator :
      (user cutoff : ℕ) (t : PortalMember) (g : PortalMember → PortalMember) (role : Role) (db : Db)
      → HasAdministrator db
      → member_of user db ≡ ok (some t)
      → protect_last_admin t role t.active db ≡ ok tt
      → ((x : PortalMember) → (g x).id ≡ x.id)
      → ((t.active && role == admin) ≡ true → is_admin (g t) ≡ true)
      → HasAdministrator (revoke_session_batch user cutoff (patch_member t.id g db)).1
  patched-HasAdministrator user cutoff t g role db v found safe keeps becomes =
      KeepsMembers-HasAdministrator (patch_member t.id g db)
        (revoke_session_batch user cutoff (patch_member t.id g db)).1
        (KeepsMembers-revoke user cutoff (patch_member t.id g db))
        (patch-HasAdministrator user t g role t.active db v found safe keeps becomes)

  pub reset-HasAdministrator :
      (store : AuthStore) (email password : Text) (role : Role) (c : Caller) (db : Db)
      (m : PortalMember) (more : Bool) (db' : Db)
      → LeavesMembers store
      → HasAdministrator db
      → reset_account_password p f store email password role c db ≡ ok (m, (more, db'))
      → HasAdministrator db'
  unfolding reset_account_password
  reset-HasAdministrator store email password role c db m more db' leaves v h =
      elim (Result-cases (administrator p f c db)) [
        | inr (bad, e) ↦ absurd (ground arith)
        | inl (actor, e) ↦ elim (Result-cases (assert_valid_password password)) [
          | inr (bad, e2) ↦ absurd (ground arith)
          | inl (t, e2) ↦ elim (Result-cases (password_account email db)) [
            | inr (bad, e3) ↦ absurd (ground arith)
            | inl (none, e3) ↦ absurd (ground arith)
            | inl (some a, e3) ↦ elim (Result-cases (member_of a.user_id db)) [
              | inr (bad, e4) ↦ absurd (ground arith)
              | inl (none, e4) ↦ absurd (ground arith)
              | inl (some target, e4) ↦
                  elim (Result-cases (protect_last_admin target role target.active db)) [
                    | inr (bad, e5) ↦ absurd (ground arith)
                    | inl (t2, e5) ↦ elim (Bool-cases (target.role == role)) [
                      | inr other ↦ absurd (ground arith)
                      | inl same ↦ elim (Option-cases (store.modify_account email password db)) [
                        | inl e6 ↦ absurd (ground arith)
                        | inr (db1, e6) ↦
                            let k = leaves.modifies email password db db1 e6 in
                            let cutoff = reset_cutoff p f c.now a.user_id target db1 in
                            let g = owing_password cutoff (p.iso c.now) in
                            audited
                              (revoke_session_batch a.user_id cutoff
                                (patch_member target.id g db1)).1
                              db' (ground arith) (ground arith)
                              (patched-HasAdministrator a.user_id cutoff target g role db1
                                (KeepsMembers-HasAdministrator db db1 k v) (rw k.members e4)
                                (same_protection target role target.active db db1 k.members e5)
                                (λ x. refl) (λ q. ground arith))
                      ]
                    ]
                  ]
            ]
          ]
        ]
      ]

  write_password-HasAdministrator :
      (member : PortalMember) (account : AuthAccount) (hash : Text) (now : ℕ) (db : Db)
      → HasAdministrator db
      → HasAdministrator (write_password p f member account hash now db).1
  write_password-HasAdministrator member account hash now db v =
      let cutoff = cutoff_for now member.user_id (or_zero member.session_revoked_at) db in
      let patched =
        patch_member member.id (password_changed cutoff (p.iso now))
          (record db { accounts = patch_row account.id (with_secret hash) db.accounts }) in
      KeepsMembers-HasAdministrator patched (revoke_session_batch member.user_id cutoff patched).1
        (KeepsMembers-revoke member.user_id cutoff patched)
        (same_patch-HasAdministrator member.id (password_changed cutoff (p.iso now))
          (record db { accounts = patch_row account.id (with_secret hash) db.accounts }) (λ x. refl)
          (λ x. refl)
          (audited db (record db { accounts = patch_row account.id (with_secret hash) db.accounts })
            refl refl v))

  pub complete-HasAdministrator :
      (expected : OwnPasswordAccount) (hash : Text) (c : Caller) (db : Db) (more : Bool) (db' : Db)
      → HasAdministrator db
      → complete_password_change p f expected hash c db ≡ ok (more, db')
      → HasAdministrator db'
  unfolding complete_password_change
  complete-HasAdministrator expected hash c db more db' v h =
      elim (Result-cases (assert_unchanged p f expected c db)) [
        | inr (bad, e) ↦ absurd (ground arith)
        | inl ((member, account), e) ↦
            audited (write_password p f member account hash c.now db).1 db' (ground arith)
              (ground arith) (write_password-HasAdministrator member account hash c.now db v)
      ]

  KeepsMembers-spend :
      (o : Option RateLimit) (account left now : ℕ) (db : Db)
      → KeepsMembers db (spend o account left now db)
  KeepsMembers-spend none account left now db = record { members = refl; next_id = omega arith }
  KeepsMembers-spend (some l) account left now db = record { members = refl; next_id = omega arith }

  KeepsMembers-forget : (o : Option RateLimit) (db : Db) → KeepsMembers db (forget o db)
  KeepsMembers-forget none db = record { members = refl; next_id = omega arith }
  KeepsMembers-forget (some l) db = record { members = refl; next_id = omega arith }

  pub KeepsMembers-reserve_attempt :
      (expected : OwnPasswordAccount) (c : Caller) (db db' : Db)
      → reserve_attempt p f expected c db ≡ ok db'
      → KeepsMembers db db'
  unfolding reserve_attempt
  KeepsMembers-reserve_attempt expected c db db' h =
      elim (Result-cases (assert_unchanged p f expected c db)) [
        | inr (bad, e) ↦ absurd (ground arith)
        | inl ((member, account), e) ↦ elim (Result-cases (limit_of account.id db)) [
          | inr (bad, e2) ↦ absurd (ground arith)
          | inl (limit, e2) ↦ elim (Bool-cases (ltb (parts_left limit c.now) attempt)) [
            | inl low ↦ absurd (ground arith)
            | inr high ↦
                let eq : spend limit account.id (parts_left limit c.now - attempt) c.now db ≡ db' =
                  ground arith in
                subst (KeepsMembers db) eq
                  (KeepsMembers-spend limit account.id (parts_left limit c.now - attempt) c.now db)
          ]
        ]
      ]

  pub KeepsMembers-record_verified :
      (expected : OwnPasswordAccount) (c : Caller) (db db' : Db)
      → record_verified p f expected c db ≡ ok db'
      → KeepsMembers db db'
  unfolding record_verified
  KeepsMembers-record_verified expected c db db' h =
      elim (Result-cases (assert_unchanged p f expected c db)) [
        | inr (bad, e) ↦ absurd (ground arith)
        | inl ((member, account), e) ↦ elim (Result-cases (limit_of account.id db)) [
          | inr (bad, e2) ↦ absurd (ground arith)
          | inl (limit, e2) ↦
              let eq : forget limit db ≡ db' = ground arith in
              subst (KeepsMembers db) eq (KeepsMembers-forget limit db)
        ]
      ]
