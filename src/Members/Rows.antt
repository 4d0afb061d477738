-- ===== src/Members/Rows.antt =====
-- convex/portalMembers.ts: what its handlers answer, the check of a password, and what they write to
-- the row of an account and to the audit log.
use fw_gatekeeper.Prelude.{ℕ, Bool, true, false, ◌&&◌, ◌||◌, Option, none, some, [], ◌∷◌, ◌++◌}
use fw_gatekeeper.Prelude.Tests.{ltb, leb, bool_eq, ◌==◌, nat_eq, option_eq}
use fw_gatekeeper.Prelude.Lists.{filter, any, length, sole}
use fw_gatekeeper.Prelude.Text.{Text, text, text_eq, is_digit}
use fw_gatekeeper.Prelude.Result.{Result, ok, err, ◌>>◌, require, refuse, present}
use fw_gatekeeper.Prelude.Table.{patch_row}
use fw_gatekeeper.Schema.{
  Role, role_eq, admin, enrollment, viewer, PortalMember, member_row, AuthAccount, Db,
}
use fw_gatekeeper.Access.{AccessError, must_change}

pub data MemberError : Type 0 where
  denied : AccessError → MemberError
  invalid_email short_password weak_password account_exists account_not_created : MemberError
  account_missing ambiguous_account last_administrator role_differs : MemberError
  password_account_missing password_change_conflict too_many_attempts : MemberError
  invalid_current_password same_password password_not_modified : MemberError

-- `auth:store` of the library: it makes a user with an account, or throws, or answers without a
-- user; and it gives an account another secret, or throws.
pub record AuthStore : Type 0 where
  pub create_account : Text → Text → Db → Option (ℕ × Db)
  pub modify_account : Text → Text → Db → Option Db

pub record CurrentMember : Type 0 where
  pub user_id : ℕ
  pub role : Role
  pub active : Bool
  pub must_change_password : Bool

pub record MemberAnswer : Type 0 where
  pub email : Text
  pub role : Role
  pub active : Bool

abbrev pub role_text : Role → Text
role_text admin = text "admin"
role_text enrollment = text "enrollment"
role_text viewer = text "viewer"

abbrev pub between : ℕ → ℕ → ℕ → Bool
between low high c = leb low c && leb c high

-- `/[0-9!@#$%^&*()_+\-=\[\]{};':"\\|,.<>/?`~]/`.
abbrev pub symbols : Text
symbols = text "!@#$%^&*()_+-=[]{};':\"\\|,.<>/?`~"

abbrev pub is_symbol : ℕ → Bool
is_symbol c = is_digit c || any (λ s. s == c) symbols

-- `assertValidPassword`.
unfoldable pub assert_valid_password : Text → Result MemberError (Unit {0})
assert_valid_password password = do
  refuse (ltb (length password) 8) short_password
  require
      (any (between b'A' b'Z') password
        && any (between b'a' b'z') password
        && any is_symbol password)
      weak_password

abbrev pub access_part : {A : Type 0} → Result AccessError A → Result MemberError A
access_part (ok a) = ok a
access_part (err bad) = err (denied bad)

abbrev pub audit_member : ℕ → Text → ℕ → Option Text → Text → Db → Db
audit_member actor action id details now db = record db {
  audit_log =
      db.audit_log
      ++ record {
        actor_user_id = actor;
        action = action;
        target_table = text "portalMembers";
        target_id = id;
        reason = none;
        details = details;
        created_at = now;
      }
        ∷ [];
}

abbrev pub patch_member : ℕ → (PortalMember → PortalMember) → Db → Db
patch_member id f db = record db { members = patch_row id f db.members }

abbrev pub password_account : Text → Db → Result MemberError (Option AuthAccount)
password_account email db =
    present
      (sole (
        filter
          (λ (a : AuthAccount). a.provider == text "password" && a.provider_account_id == email)
          db.accounts))
      ambiguous_account

-- `email.includes('@')`, which an empty text does not.
abbrev pub is_email : Text → Bool
is_email email = ltb 0 (length email) && any (λ c. c == b'@') email

abbrev pub role_details : Role → Text
role_details role = text "{\"role\":\"" ++ role_text role ++ text "\"}"

abbrev pub change_of_role : Role → Role → Text
change_of_role old new =
    text "{\"from\":\"" ++ role_text old ++ text "\",\"to\":\"" ++ role_text new ++ text "\"}"

abbrev pub or_zero : Option ℕ → ℕ
or_zero none = 0
or_zero (some t) = t

abbrev pub with_role : Role → Text → PortalMember → PortalMember
with_role role now m = record m { role = role; updated_at = some now }

abbrev pub reactivated : Text → PortalMember → PortalMember
reactivated now m = record m { active = true; updated_at = some now }

abbrev pub disabled : ℕ → Text → PortalMember → PortalMember
disabled cutoff now m = record m {
  active = false;
  updated_at = some now;
  session_revoked_at = some cutoff;
}

abbrev pub owing_password : ℕ → Text → PortalMember → PortalMember
owing_password cutoff now m = record m {
  must_change_password = some true;
  session_revoked_at = some cutoff;
  updated_at = some now;
}

abbrev pub show_member : PortalMember → CurrentMember
show_member m = record {
  user_id = m.user_id;
  role = m.role;
  active = m.active;
  must_change_password = must_change m;
}
