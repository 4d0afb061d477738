-- ===== src/Members/Accounts.antt =====
-- convex/portalMembers.ts: the handlers that make accounts, change their roles, disable them and
-- reset their passwords.
use fw_gatekeeper.Prelude.{
  ℕ, suc, Bool, true, false, not, ◌&&◌, ◌||◌, Option, none, some, [], ◌∷◌, ◌++◌,
}
use fw_gatekeeper.Prelude.Tests.{bool_eq, if◌then◌else◌, ◌==◌, ◌!=◌, nat_eq, option_eq}
use fw_gatekeeper.Prelude.Lists.{take, filter, any}
use fw_gatekeeper.Prelude.Text.{Text, text, text_eq, trim}
use fw_gatekeeper.Prelude.Result.{Result, ok, ◌>>=◌, ◌>>◌, require, refuse, present}
use fw_gatekeeper.Schema.{Role, role_eq, admin, PortalMember, member_row, PersonKind, Db, Platform}
use fw_gatekeeper.Access.{
  AccessError, Caller, member_of, must_change, has_current_session, assert_portal_role,
}
use fw_gatekeeper.Members.Sessions.{revoke_session_batch, cutoff_for}
use fw_gatekeeper.Members.Rows.{
  AuthStore, CurrentMember, MemberAnswer, MemberError, access_part, account_exists, account_missing,
  account_not_created, assert_valid_password, audit_member, change_of_role, denied, disabled,
  invalid_email, is_email, last_administrator, or_zero, owing_password, password_account,
  password_not_modified, patch_member, reactivated, role_details, role_differs, role_text,
  show_member, with_role,
}

abbrev pub is_admin : PortalMember → Bool
is_admin m = m.active && m.role == admin

-- `protectLastAdmin`.
unfoldable pub protect_last_admin : PortalMember → Role → Bool → Db → Result MemberError (Unit {0})
protect_last_admin target next_role next_active db =
    if not target.active || target.role != admin || (next_active && next_role == admin)
    then ok tt
    else require
        (any (λ (a : PortalMember). a.id != target.id) (take 2 (filter is_admin db.members)))
        last_administrator

module _ (p : Platform) where
  -- `normalizeEmail`.
  abbrev pub normalize_email : Text → Text
  normalize_email email = p.lower (trim email)

  -- What an administrator who may makes: the row of the account, its audit, and the alert on it.
  unfoldable pub add_member : ℕ → Text → Role → ℕ → ℕ → Db → Db
  add_member user email role actor now db =
      let inserted = record db {
        next_id = suc db.next_id;
        members =
            db.members
            ++ record {
              id = db.next_id;
              user_id = user;
              role = role;
              active = true;
              created_at = p.iso now;
              updated_at = some (p.iso now);
              session_revoked_at = none;
              must_change_password = some true;
            }
              ∷ [];
      } in
      let audited =
        audit_member actor (text "portalMembers.create") db.next_id (some (role_details role))
          (p.iso now) inserted in
      record audited {
        next_id = suc audited.next_id;
        alert_events =
            audited.alert_events
            ++ record {
              id = audited.next_id;
              kind = PersonKind.portal_account;
              target_id = db.next_id;
              label = email;
              detail = some (role_text role);
              created_at = p.iso now;
              delivered = false;
              delivered_at = none;
              claimed_until = none;
            }
              ∷ [];
      }

  module _ (session_id_of : Text → Option ℕ) where
    abbrev pub administrator : Caller → Db → Result MemberError PortalMember
    administrator c db = access_part (assert_portal_role p session_id_of (admin ∷ []) c db)

    abbrev pub current_of : Caller → ℕ → Db → Result MemberError (Option PortalMember)
    current_of c user db = do
      found ← access_part (member_of user db)
      elim found [
        | none ↦ ok none
        | some m ↦
            if m.active
            then (access_part (has_current_session p session_id_of c user db) >>= λ live.
                ok (if live then some m else none))
            else ok none
      ]

    -- `current`.
    unfoldable pub current : Caller → Db → Result MemberError (Option CurrentMember)
    current c db = elim c.user [
      | none ↦ ok none
      | some user ↦ current_of c user db >>= λ found.
          ok (elim found [ none ↦ none | some m ↦ some (show_member m) ])
    ]

    -- `getActiveMemberByUserId`.
    unfoldable pub get_active_member : Caller → ℕ → Db → Result MemberError (Option CurrentMember)
    get_active_member c user db = current_of c user db >>= λ found. elim found [
      | none ↦ ok none
      | some m ↦ do
        refuse (must_change m) (denied AccessError.password_change_required)
        ok (some (show_member m))
    ]

    -- `createAccountAndMember`; what it schedules is a run of the alerts' delivery.
    unfoldable pub create_account_and_member :
        AuthStore → Text → Text → Role → Caller → Db → Result MemberError (MemberAnswer × Db)
    create_account_and_member store email password role c db = do
      actor ← administrator c db
      let address = normalize_email email
      require (is_email address) invalid_email
      assert_valid_password password
      existing ← password_account address db
      refuse (elim existing [ none ↦ false | some a ↦ true ]) account_exists
      (user, db1) ← present (store.create_account address password db) account_not_created
      ok (
        record { email = address; role = role; active = true },
        add_member user address role actor.user_id c.now db1,
      )

    -- `requireTarget`.
    unfoldable pub require_target :
        ℕ → Caller → Db → Result MemberError (PortalMember × PortalMember)
    require_target user c db = do
      actor ← administrator c db
      found ← access_part (member_of user db)
      target ← present found account_missing
      ok (actor, target)

    -- `setRole`.
    unfoldable pub set_role : ℕ → Role → Caller → Db → Result MemberError Db
    set_role user role c db = do
      (actor, target) ← require_target user c db
      (if target.role == role then ok db else do
        protect_last_admin target role target.active db
        ok (
            audit_member actor.user_id (text "portalMembers.setRole") target.id
              (some (change_of_role target.role role)) (p.iso c.now)
              (patch_member target.id (with_role role (p.iso c.now)) db)))

    -- What `setActive` writes: whether a cleanup of sessions is scheduled, and the store.
    abbrev pub write_active : PortalMember → ℕ → Bool → ℕ → Db → Bool × Db
    write_active target user active now db =
        if active
        then (false, patch_member target.id (reactivated (p.iso now)) db)
        else revoke_session_batch user (cutoff_for now user 0 db)
            (patch_member target.id (disabled (cutoff_for now user 0 db) (p.iso now)) db)

    -- `setActive`.
    unfoldable pub set_active : ℕ → Bool → Caller → Db → Result MemberError (Bool × Db)
    set_active user active c db = do
      (actor, target) ← require_target user c db
      (if target.active == active then ok (false, db) else do
        protect_last_admin target target.role active db
        let written = write_active target user active c.now db
        ok (
          written.0,
          audit_member actor.user_id
              (text (if active then "portalMembers.reactivate" else "portalMembers.disable"))
              target.id none (p.iso c.now) written.1,
        ))

    abbrev pub reset_cutoff : ℕ → ℕ → PortalMember → Db → ℕ
    reset_cutoff now user target db = cutoff_for now user (or_zero target.session_revoked_at) db

    -- `resetAccountPassword`.
    unfoldable pub reset_account_password :
        AuthStore
        → Text
        → Text
        → Role
        → Caller
        → Db
        → Result MemberError (PortalMember × (Bool × Db))
    reset_account_password store email password role c db = do
      actor ← administrator c db
      assert_valid_password password
      found ← password_account email db
      account ← present found account_missing
      member ← access_part (member_of account.user_id db)
      target ← present member account_missing
      protect_last_admin target role target.active db
      require (target.role == role) role_differs
      db1 ← present (store.modify_account email password db) password_not_modified
      let cutoff = reset_cutoff c.now account.user_id target db1
      let written =
          revoke_session_batch account.user_id cutoff
            (patch_member target.id (owing_password cutoff (p.iso c.now)) db1)
      ok (
        target,
        (
          written.0,
          audit_member actor.user_id (text "portalMembers.resetPassword") target.id none
              (p.iso c.now) written.1,
        ),
      )
