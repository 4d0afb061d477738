-- ===== src/Members/Roles.antt =====
-- convex/portalMembers.ts: a change of a role or of activity leaves an administrator.
use fw_gatekeeper.Prelude.{ℕ, Bool, true, false, Option, some, ◌≡◌, inl, inr, refl, subst, arith}
use fw_gatekeeper.Prelude.Tests.{Bool-cases, Option-cases, nat_eq, ◌==◌, bool_eq}
use fw_gatekeeper.Prelude.Text.{Text}
use fw_gatekeeper.Prelude.Result.{ok, Result-cases}
use fw_gatekeeper.Schema.{Role, role_eq, PortalMember, member_row, Db, Platform}
use fw_gatekeeper.Access.{Caller, member_of}
use fw_gatekeeper.Members.Sessions.{revoke_session_batch, cutoff_for}
use fw_gatekeeper.Members.Rows.{patch_member, with_role, reactivated, disabled}
use fw_gatekeeper.Members.Accounts.{
  administrator, protect_last_admin, write_active, require_target, set_role, set_active,
}
use fw_gatekeeper.Members.LastAdmin.{
  HasAdministrator, KeepsMembers-HasAdministrator, KeepsMembers-revoke, patch-HasAdministrator,
}

pub audited :
    (db after : Db)
    → after.members ≡ db.members
    → after.next_id ≡ db.next_id
    → HasAdministrator db
    → HasAdministrator after
audited db after same ids v =
    KeepsMembers-HasAdministrator db after (record { members = same; next_id = omega arith }) v

module _ (p : Platform) (f : Text → Option ℕ) where
  pub require_target_lem :
      (user : ℕ) (c : Caller) (db : Db) (actor target : PortalMember)
      → require_target p f user c db ≡ ok (actor, target)
      → member_of user db ≡ ok (some target)
  unfolding require_target
  require_target_lem user c db actor target h = elim (Result-cases (administrator p f c db)) [
    | inr (bad, e) ↦ absurd (ground arith)
    | inl (a, e) ↦ elim (Result-cases (member_of user db)) [
      | inr (bad, e2) ↦ absurd (ground arith)
      | inl (o, e2) ↦ elim (Option-cases o) [
        | inl e3 ↦ absurd (ground arith)
        | inr (t, e3) ↦ ground arith
      ]
    ]
  ]

  pub set_role-HasAdministrator :
      (user : ℕ) (role : Role) (c : Caller) (db db' : Db)
      → HasAdministrator db
      → set_role p f user role c db ≡ ok db'
      → HasAdministrator db'
  unfolding set_role
  set_role-HasAdministrator user role c db db' v h =
      elim (Result-cases (require_target p f user c db)) [
        | inr (bad, e) ↦ absurd (ground arith)
        | inl ((actor, target), e) ↦ elim (Bool-cases (target.role == role)) [
          | inl same ↦ let eq : db ≡ db' = ground arith in subst HasAdministrator eq v
          | inr other ↦ elim (Result-cases (protect_last_admin target role target.active db)) [
            | inr (bad, e2) ↦ absurd (ground arith)
            | inl (t, e2) ↦
                audited (patch_member target.id (with_role role (p.iso c.now)) db) db'
                  (ground arith) (ground arith)
                  (patch-HasAdministrator user target (with_role role (p.iso c.now)) role
                    target.active db v (require_target_lem user c db actor target e) e2 (λ x. refl)
                    (λ k. k))
          ]
        ]
      ]

  write_active-HasAdministrator :
      (user : ℕ) (target : PortalMember) (active : Bool) (now : ℕ) (db : Db)
      → HasAdministrator db
      → member_of user db ≡ ok (some target)
      → protect_last_admin target target.role active db ≡ ok tt
      → HasAdministrator (write_active p f target user active now db).1
  write_active-HasAdministrator user target true now db v found safe =
      patch-HasAdministrator user target (reactivated (p.iso now)) target.role true db v found safe
        (λ x. refl) (λ k. k)
  write_active-HasAdministrator user target false now db v found safe =
      let cutoff = cutoff_for now user 0 db in
      let patched = patch_member target.id (disabled cutoff (p.iso now)) db in
      KeepsMembers-HasAdministrator patched (revoke_session_batch user cutoff patched).1
        (KeepsMembers-revoke user cutoff patched)
        (patch-HasAdministrator user target (disabled cutoff (p.iso now)) target.role false db v
          found safe (λ x. refl) (λ k. cc))

  pub set_active-HasAdministrator :
      (user : ℕ) (active : Bool) (c : Caller) (db : Db) (more : Bool) (db' : Db)
      → HasAdministrator db
      → set_active p f user active c db ≡ ok (more, db')
      → HasAdministrator db'
  unfolding set_active
  set_active-HasAdministrator user active c db more db' v h =
      elim (Result-cases (require_target p f user c db)) [
        | inr (bad, e) ↦ absurd (ground arith)
        | inl ((actor, target), e) ↦ elim (Bool-cases (target.active == active)) [
          | inl same ↦ let eq : db ≡ db' = ground arith in subst HasAdministrator eq v
          | inr other ↦ elim (Result-cases (protect_last_admin target target.role active db)) [
            | inr (bad, e2) ↦ absurd (ground arith)
            | inl (t, e2) ↦
                audited (write_active p f target user active c.now db).1 db' (ground arith)
                  (ground arith)
                  (write_active-HasAdministrator user target active c.now db v
                    (require_target_lem user c db actor target e) e2)
          ]
        ]
      ]
