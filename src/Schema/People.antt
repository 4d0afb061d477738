-- ===== src/Schema/People.antt =====
-- convex/schema.ts: portal accounts and sessions, workers, the roster counter, the audit trail,
-- people alerts and uploads that wait to be attached.
use fw_gatekeeper.Prelude.{ℕ, Bool, true, false, Option, List, ◌≡◌, ◌↔◌, arith}
use fw_gatekeeper.Prelude.Tests.{StrictEquality}
use fw_gatekeeper.Prelude.Text.{Text}
use fw_gatekeeper.Prelude.Number.{JsNumber}
use fw_gatekeeper.Prelude.Table.{Row}

pub data Role : Type 0 where
  admin enrollment viewer : Role

abbrev pub role_beq : Role → Role → Bool
role_beq admin admin = true
role_beq enrollment enrollment = true
role_beq viewer viewer = true
role_beq _ _ = false

pub role_beq_iff : (a b : Role) → (role_beq a b ≡ true) ↔ (a ≡ b)
role_beq_iff a b = ground arith

instance abbrev pub role_eq : StrictEquality Role
role_eq = record { equal = role_beq; equal_iff = role_beq_iff }

pub record PortalMember : Type 0 where
  pub id : ℕ
  pub user_id : ℕ
  pub role : Role
  pub active : Bool
  pub created_at : Text
  pub updated_at : Option Text
  pub session_revoked_at : Option ℕ
  pub must_change_password : Option Bool

instance abbrev pub member_row : Row PortalMember
member_row = record { row_id = λ m. m.id }

pub record AuthSession : Type 0 where
  pub id : ℕ
  pub user_id : ℕ
  pub expiration_time : ℕ
  pub creation_time : ℕ

instance abbrev pub session_row : Row AuthSession
session_row = record { row_id = λ s. s.id }

pub record RefreshToken : Type 0 where
  pub id : ℕ
  pub session_id : ℕ

instance abbrev pub token_row : Row RefreshToken
token_row = record { row_id = λ t. t.id }

-- `authAccounts` of the authentication library, of which convex/portalMembers.ts reads and writes rows.
pub record AuthAccount : Type 0 where
  pub id : ℕ
  pub user_id : ℕ
  pub provider : Text
  pub provider_account_id : Text
  pub secret : Option Text

instance abbrev pub account_row : Row AuthAccount
account_row = record { row_id = λ a. a.id }

-- `authRateLimits` of that library. The code counts attempts, a double; here they are counted in
-- parts, 360000 to an attempt, so that the refill of ten attempts an hour is a part a millisecond.
pub record RateLimit : Type 0 where
  pub id : ℕ
  pub identifier : ℕ
  pub parts_left : ℕ
  pub last_attempt_time : ℕ

instance abbrev pub limit_row : Row RateLimit
limit_row = record { row_id = λ l. l.id }

pub record Worker : Type 0 where
  pub id : ℕ
  pub creation_time : ℕ
  pub name : Text
  pub employee_id : Option Text
  pub department : Text
  pub photo_storage_ids : Option (List ℕ)
  pub face_encoding : Option (List JsNumber)
  pub enrolled_at : Text
  pub updated_at : Option Text
  pub roster_sequence : Option ℕ
  pub active : Bool
  pub consent_at : Option Text
  pub consent_recorded_by : Option ℕ
  pub biometrics_purged_at : Option Text

instance abbrev pub worker_row : Row Worker
worker_row = record { row_id = λ w. w.id }

-- The singleton row of `rosterSequence`.
pub record RosterCounter : Type 0 where
  pub value : Option ℕ
  pub last_purge_sequence : Option ℕ

pub record AuditLogRow : Type 0 where
  pub actor_user_id : ℕ
  pub action : Text
  pub target_table : Text
  pub target_id : ℕ
  pub reason : Option Text
  pub details : Option Text
  pub created_at : Text

pub data PersonKind : Type 0 where
  worker portal_account : PersonKind

pub record PeopleAlertEvent : Type 0 where
  pub id : ℕ
  pub kind : PersonKind
  pub target_id : ℕ
  pub label : Text
  pub detail : Option Text
  pub created_at : Text
  pub delivered : Bool
  pub delivered_at : Option Text
  pub claimed_until : Option ℕ

instance abbrev pub alert_event_row : Row PeopleAlertEvent
alert_event_row = record { row_id = λ e. e.id }

pub record PendingPhoto : Type 0 where
  pub id : ℕ
  pub storage_id : ℕ
  pub owner_id : ℕ
  pub expires_at : ℕ

instance abbrev pub photo_row : Row PendingPhoto
photo_row = record { row_id = λ p. p.id }
