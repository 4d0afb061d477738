-- ===== src/Members/Tests.antt =====
-- Runs of the handlers of accounts, and their theorems at them.
use fw_gatekeeper.Prelude.{ℕ, ◌+◌, ◌*◌, ◌≤◌, ◌<◌, false, none, some, [], ◌∷◌, ◌≡◌, refl, arith}
use fw_gatekeeper.Prelude.Tests.{◌==◌}
use fw_gatekeeper.Prelude.Lists.{All, find, filter, any}
use fw_gatekeeper.Prelude.Text.{Text, text, text_beq, text_eq, trim, is_digit}
use fw_gatekeeper.Prelude.Result.{ok, err}
use fw_gatekeeper.Prelude.Table.{get_row, patch_row, delete_row}
use fw_gatekeeper.Schema.{admin, viewer, PortalMember, AuthAccount, AuthSession, Db}
use fw_gatekeeper.Samples.{platform, session_of, operator_account, operator_call, records}
use fw_gatekeeper.Access.{
  AccessError, before_bar, after_bar, has_current_session, assert_portal_member, assert_portal_role,
  delete_tokens,
}
use fw_gatekeeper.Members.Sessions.{revoke_each, revoke_session_batch, cleanup_runs}
use fw_gatekeeper.Members.Rows.{AuthStore, last_administrator, assert_valid_password}
use fw_gatekeeper.Members.Accounts.{protect_last_admin, require_target, set_role, set_active}
use fw_gatekeeper.Members.Password.{
  OwnPasswordAccount, Scrypt, Pause, attempt, max_attempts, parts_left, read_own_account,
  assert_unchanged, get_own_account, reserve_attempt, record_verified, complete_password_change,
  change_reserved, change_password,
}
use fw_gatekeeper.Members.LastAdmin.{HasAdministrator}
use fw_gatekeeper.Members.Resets.{LeavesMembers}
use fw_gatekeeper.Members.Reach.{Reach-HasAdministrator, start, step, role_set}
use fw_gatekeeper.Members.Cutoff.{password_change_shuts_out}
use fw_gatekeeper.Members.Cleanup.{cleanup_runs_remove_all}
use fw_gatekeeper.Members.Budget.{begin, admitted, Attempts-le}
use fw_gatekeeper.Members.Change.{IsVerified, change_password-IsVerified}

members : Unit {0}
unfolding get_row patch_row delete_row find filter any text_beq trim is_digit before_bar after_bar
    has_current_session assert_portal_member assert_portal_role delete_tokens revoke_each
    revoke_session_batch cleanup_runs assert_valid_password protect_last_admin require_target
    set_role set_active parts_left read_own_account assert_unchanged get_own_account reserve_attempt
    record_verified complete_password_change change_reserved change_password
members = tt

-- Two administrators, 66 ("B"), who has a session, and 68 ("D"); B has a password account.
abbrev chief : PortalMember
chief = record operator_account { role = admin }

abbrev deputy : PortalMember
deputy = record operator_account { id = 2; user_id = 68; role = admin }

abbrev old_secret : Text
old_secret = text "Before-1"

abbrev new_secret : Text
new_secret = text "After-22"

abbrev login : AuthAccount
login = record {
  id = 5;
  user_id = 66;
  provider = text "password";
  provider_account_id = text "b@west";
  secret = some old_secret;
}

abbrev portal : Db
portal = record records { next_id = 100; members = chief ∷ deputy ∷ []; accounts = login ∷ [] }

abbrev demoted : Db
demoted = record portal {
  members = record chief { role = viewer; updated_at = some (3000 ∷ []) } ∷ deputy ∷ [];
  audit_log =
      record {
        actor_user_id = 66;
        action = text "portalMembers.setRole";
        target_table = text "portalMembers";
        target_id = 1;
        reason = none;
        details = some (text "{\"from\":\"admin\",\"to\":\"viewer\"}");
        created_at = 3000 ∷ [];
      }
      ∷ [];
}

-- A library that refuses every call.
abbrev refusing : AuthStore
refusing = record {
  create_account = λ email password db. none;
  modify_account = λ email password db. none;
}

refusing-LeavesMembers : LeavesMembers refusing
refusing-LeavesMembers = record {
  creates = λ email password db db' user h. absurd (ground arith);
  modifies = λ email password db db' h. absurd (ground arith);
}

abbrev scrypt : Scrypt
scrypt = record { verify = λ hash password. hash == password; hash = λ password. password }

abbrev pause : Pause
pause = record { commits = λ db. db; time = 3000 }

abbrev snapshot : OwnPasswordAccount
snapshot = record { account_id = 5; stored_hash = old_secret; must_change_password = false }

abbrev reserved : Db
reserved = record portal {
  next_id = 101;
  rate_limits =
      record { id = 100; identifier = 5; parts_left = 3240000; last_attempt_time = 3000 } ∷ [];
}

abbrev changed_account : ℕ → Db
changed_account next_id = record portal {
  next_id = next_id;
  members =
      record chief {
        session_revoked_at = some 3000;
        must_change_password = some false;
        updated_at = some (3000 ∷ []);
      }
      ∷ deputy
      ∷ [];
  sessions = [];
  accounts = record login { secret = some new_secret } ∷ [];
  audit_log =
      record {
        actor_user_id = 66;
        action = text "portalMembers.changePassword";
        target_table = text "portalMembers";
        target_id = 1;
        reason = none;
        details = none;
        created_at = 3000 ∷ [];
      }
      ∷ [];
}

runs :
    (set_role platform session_of 66 viewer (operator_call 3000) portal ≡ ok demoted)
    × (set_role platform session_of 66 viewer
          (operator_call 3000)
          (record portal { members = chief ∷ [] })
        ≡ err last_administrator)
    × (reserve_attempt platform session_of snapshot (operator_call 3000) portal ≡ ok reserved)
    × (complete_password_change platform session_of snapshot new_secret (operator_call 3000) portal
        ≡ ok (false, changed_account 100))
    × (change_password platform session_of scrypt pause pause pause old_secret new_secret
          (operator_call 2500)
          portal
        ≡ (ok false, changed_account 101))
unfolding members
runs = (refl, refl, refl, refl, refl)

portal-HasAdministrator : HasAdministrator portal
unfolding members
portal-HasAdministrator = record {
  ids = record { below = omega arith; distinct = omega arith };
  one = refl;
}

Reach-HasAdministrator_example : HasAdministrator demoted
Reach-HasAdministrator_example =
    Reach-HasAdministrator platform session_of refusing portal demoted refusing-LeavesMembers
      (step start (role_set 66 viewer (operator_call 3000) runs.0)) portal-HasAdministrator

password_change_shuts_out_example :
    (bad : AccessError) × (assert_portal_role platform session_of
        (admin ∷ [])
        (operator_call 3500)
        (changed_account 100)
      ≡ err bad)
password_change_shuts_out_example =
    password_change_shuts_out platform session_of snapshot new_secret (operator_call 3000) portal
      false (changed_account 100) (admin ∷ []) (operator_call 3500) (tt, tt) runs.3 refl

cleanup_runs_remove_all_example :
    (db' : Db) × (cleanup_runs 4 66 3000 portal ≡ some db')
    × All (λ (s : AuthSession). s.user_id ≡ 66 → 3000 < s.creation_time) db'.sessions
cleanup_runs_remove_all_example = cleanup_runs_remove_all 4 66 3000 portal (tt, tt) (omega arith)

Attempts-le_example : 1 * attempt + 2000 ≤ max_attempts * attempt + 3000
Attempts-le_example =
    Attempts-le platform session_of 5 2000 portal 1 3000 reserved
      (admitted snapshot (operator_call 3000) 3000 begin (omega arith) refl refl runs.2)

change_password-IsVerified_example :
    IsVerified platform session_of scrypt pause pause pause old_secret new_secret
      (operator_call 2500)
      portal
      (changed_account 101)
change_password-IsVerified_example =
    change_password-IsVerified platform session_of scrypt pause pause pause old_secret new_secret
      (operator_call 2500) portal false (changed_account 101) runs.4
