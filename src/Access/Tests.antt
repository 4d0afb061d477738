-- ===== src/Access/Tests.antt =====
-- Runs of the access check and of the removal of sessions, and their theorems at two accounts.
use fw_gatekeeper.Prelude.{ℕ, true, false, Option, none, some, [], ◌∷◌, ◌≡◌, refl, arith}
use fw_gatekeeper.Prelude.Tests.{◌==◌, nat_eq}
use fw_gatekeeper.Prelude.Lists.{find, filter, any, All, sort_by, insert_by}
use fw_gatekeeper.Prelude.Text.{Text, text, text_beq}
use fw_gatekeeper.Prelude.Result.{ok, err}
use fw_gatekeeper.Prelude.Table.{get_row, delete_row}
use fw_gatekeeper.Schema.{admin, enrollment, PortalMember, AuthSession, session_row, Db, empty_db}
use fw_gatekeeper.Samples.{platform}
use fw_gatekeeper.Access.{
  Caller, AccessError, unauthorized, insufficient, before_bar, after_bar, has_current_session,
  assert_portal_member, assert_portal_role, has_expired, delete_sessions, expire_sessions,
  delete_tokens, remove_session_tokens,
}
use fw_gatekeeper.Access.Granted.{HasAccess, assert_portal_role-HasAccess, revoked_sessions_fail}
use fw_gatekeeper.Access.Expiry.{expire_sessions_keeps_live, expire_runs, expire_runs_remove_all}

access : Unit {0}
unfolding get_row find filter any text_beq before_bar after_bar has_current_session
    assert_portal_member assert_portal_role delete_row delete_sessions expire_sessions expire_runs
    sort_by insert_by delete_tokens remove_session_tokens
access = tt

abbrev session_of : Text → Option ℕ
session_of (c ∷ []) = some c
session_of _ = none

-- The account of user 66 ("B"), an operator.
abbrev operator : PortalMember
operator = record {
  id = 1;
  user_id = 66;
  role = enrollment;
  active = true;
  created_at = text "2026-01-01";
  updated_at = none;
  session_revoked_at = some 1000;
  must_change_password = none;
}

-- Session 67 ("C") is from after the cutoff, 68 ("D") from before it.
abbrev current_session : AuthSession
current_session = record { id = 67; user_id = 66; expiration_time = 9000; creation_time = 2000 }

abbrev old_session : AuthSession
old_session = record { id = 68; user_id = 66; expiration_time = 5000; creation_time = 900 }

abbrev portal : Db
portal = record empty_db {
  members = operator ∷ [];
  sessions = current_session ∷ old_session ∷ [];
  refresh_tokens = record { id = 5; session_id = 68 } ∷ record { id = 6; session_id = 67 } ∷ [];
}

abbrev cut_off : Db
cut_off = record portal { sessions = old_session ∷ [] }

abbrev call : Text → Caller
call subject = record { user = some 66; subject = some subject; now = 3000 }

calls :
    (assert_portal_role platform session_of (admin ∷ enrollment ∷ []) (call (text "B|C")) portal
      ≡ ok operator)
    × (assert_portal_role platform session_of (admin ∷ []) (call (text "B|C")) portal
        ≡ err insufficient)
    × (assert_portal_role platform session_of (enrollment ∷ []) (call (text "B|D")) portal
        ≡ err unauthorized)
    × (assert_portal_role platform session_of (enrollment ∷ []) (call (text "B")) portal
        ≡ err unauthorized)
unfolding access
calls = (refl, refl, refl, refl)

assert_portal_role-HasAccess_example :
    HasAccess platform session_of (admin ∷ enrollment ∷ []) (call (text "B|C")) operator portal
assert_portal_role-HasAccess_example =
    assert_portal_role-HasAccess platform session_of (admin ∷ enrollment ∷ []) (call (text "B|C"))
      portal operator calls.0

only_operator : filter (λ (x : PortalMember). x.user_id == 66) cut_off.members ≡ operator ∷ []
unfolding access
only_operator = refl

revoked_sessions_fail_example :
    (e : AccessError) × (assert_portal_role platform session_of
        (enrollment ∷ [])
        (call (text "B|D"))
        cut_off
      ≡ err e)
revoked_sessions_fail_example =
    revoked_sessions_fail platform session_of (enrollment ∷ []) (call (text "B|D")) cut_off operator
      66 1000 refl only_operator refl (λ e. omega arith, tt)

current_found : get_row 67 portal.sessions ≡ some current_session
unfolding access
current_found = refl

-- At 6000 the second session has expired, and its token goes once it is gone.
removals :
    ((expire_sessions 6000 portal).1.sessions ≡ current_session ∷ [])
    × ((remove_session_tokens 68 (expire_sessions 6000 portal).1).1.refresh_tokens
        ≡ record { id = 6; session_id = 67 } ∷ [])
    × ((remove_session_tokens 67 portal).1.refresh_tokens ≡ portal.refresh_tokens)
unfolding access
removals = (refl, refl, refl)

expire_sessions_keeps_live_example :
    get_row 67 (expire_sessions 6000 portal).1.sessions ≡ some current_session
expire_sessions_keeps_live_example =
    expire_sessions_keeps_live 6000 67 current_session portal ((λ e. ground arith, tt), (tt, tt))
      current_found (omega arith)

expire_runs_remove_all_example :
    (db' : Db) × (expire_runs 3 9500 portal ≡ some db')
    × All (λ s. has_expired 9500 s ≡ false) db'.sessions
expire_runs_remove_all_example = expire_runs_remove_all 3 9500 portal (omega arith)
