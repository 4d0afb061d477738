-- ===== src/Kiosks/Tests.antt =====
-- Runs of the kiosk handlers, and their theorems at one kiosk.
use fw_gatekeeper.Prelude.{
  ℕ, ◌≤◌, true, false, Option, none, some, [], ◌∷◌, ◌++◌, ◌≡◌, ◌≢◌, refl, arith,
}
use fw_gatekeeper.Prelude.Lists.{find, filter, any, all}
use fw_gatekeeper.Prelude.Text.{Text, text, text_beq, trim, trim_start, is_space, is_digit}
use fw_gatekeeper.Prelude.Decimal.{read_nat}
use fw_gatekeeper.Prelude.Result.{ok, err}
use fw_gatekeeper.Prelude.Table.{get_row, patch_row}
use fw_gatekeeper.Schema.{Kiosk, kiosk_row, StoredQueue, reported, Db, admin}
use fw_gatekeeper.Samples.{platform, session_of, operator_call, operator_account, records}
use fw_gatekeeper.Access.{
  before_bar, after_bar, has_current_session, assert_portal_member, assert_portal_role,
}
use fw_gatekeeper.Attendance.Ingest.{is_digest}
use fw_gatekeeper.Kiosks.Queue.{
  string, other, canonical_count, parse_queue_count, stored_queue, next_queue, observe,
}
use fw_gatekeeper.Kiosks.Caveat.{after_reports, caveat_stays}
use fw_gatekeeper.Kiosks.Lookup.{resolve, find_active_kiosk}
use fw_gatekeeper.Kiosks.Registry.{new_kiosk, register, create, identifier_conflict}
use fw_gatekeeper.Kiosks.Contact.{instant_of, accept_contact, update_last_sync}
use fw_gatekeeper.Kiosks.Forward.{update_last_sync_moves_forward}
use fw_gatekeeper.Kiosks.Credentials.{
  identity_for, authenticate_device, authenticate_legacy, rotate, revoke, rotate_credential,
  revoke_credential,
}
use fw_gatekeeper.Kiosks.Secrets.{rotated_credential_lets_in, revoked_credential_shuts_out}

kiosks : Unit {0}
unfolding get_row patch_row find filter any text_beq trim trim_start is_space is_digit is_digest
    read_nat before_bar after_bar has_current_session assert_portal_member assert_portal_role
    canonical_count parse_queue_count stored_queue next_queue observe after_reports resolve
    find_active_kiosk register create accept_contact update_last_sync authenticate_device
    authenticate_legacy rotate revoke rotate_credential revoke_credential all
kiosks = tt

counts :
    (parse_queue_count (string (text "42")) ≡ some 42)
    × (parse_queue_count (string (text "042")) ≡ none)
    × (parse_queue_count (string (text "9007199254740992")) ≡ none)
    × (parse_queue_count (string (text "-1")) ≡ none)
unfolding kiosks
counts = (refl, refl, refl, refl)

abbrev three_waiting : Option StoredQueue
three_waiting = some (record { last_valid_count = 3; observed_at = text "t0"; latest = reported })

caveat_there :
    ((observe three_waiting none).caveat ≡ true)
    × (parse_queue_count (string (text "junk")) ≢ some 0)
    × (parse_queue_count other ≢ some 0)
unfolding kiosks
caveat_there = (refl, ground arith, ground arith)

caveat_stays_example :
    (observe
      (after_reports
        (record { value = other; health = none; at = text "t1" }
          ∷ record { value = string (text "junk"); health = none; at = text "t2" }
          ∷ [])
        three_waiting
        none)
      none).caveat
    ≡ true
caveat_stays_example =
    caveat_stays (record { value = string (text "junk"); health = none; at = text "t2" } ∷ [])
      (record { value = other; health = none; at = text "t1" }) three_waiting none none
      caveat_there.0 (caveat_there.2, (caveat_there.1, tt))

-- An administrator, and a fleet of one kiosk, 81 ("Q").
abbrev fleet : Db
fleet = record records {
  next_id = 90;
  members = record operator_account { role = admin } ∷ [];
  kiosks =
      record (new_kiosk 81 (record {
        name = text " Gate ";
        kiosk_id = some (text "k-1");
        type = text "entry";
        location = none;
      })) { last_sync = some (500 ∷ []) }
      ∷ [];
}

abbrev gate : Kiosk
gate =
    record (new_kiosk 81 (record {
      name = text " Gate ";
      kiosk_id = some (text "k-1");
      type = text "entry";
      location = none;
    })) { last_sync = some (500 ∷ []) }

abbrev synced : Db
synced = record fleet { kiosks = record gate { last_sync = some (700 ∷ []) } ∷ [] }

contact_runs :
    (update_last_sync platform (text "Gate") (700 ∷ []) none 800 fleet ≡ ok (true, synced))
    × (update_last_sync platform (text " k-1 ") (600 ∷ []) none 800 synced ≡ ok (true, synced))
    × (update_last_sync platform (text "Exit") (600 ∷ []) none 800 synced ≡ ok (false, synced))
    × (get_row 81 fleet.kiosks ≡ some gate)
unfolding kiosks
contact_runs = (refl, refl, refl, refl)

update_last_sync_moves_forward_example :
    (x : Kiosk) × (s : ℕ) × (get_row 81 synced.kiosks ≡ some x)
    × (instant_of platform x.last_sync ≡ some s)
    × (500 ≤ s)
update_last_sync_moves_forward_example =
    update_last_sync_moves_forward platform (text "Gate") (700 ∷ []) none 800 fleet true synced 81
      gate 500 refl (tt, tt) contact_runs.3 refl (omega arith) contact_runs.0

-- A name that an active kiosk has is refused for a second one.
conflict :
    create platform session_of
      (record { name = text "Gate"; kiosk_id = none; type = text "exit"; location = none })
      (operator_call 3000)
      fleet
    ≡ err identifier_conflict
unfolding kiosks
conflict = refl

abbrev secret : Text
secret = text "0123456789abcdef0123456789abcdef0123456789abcdef0123456789abcdef"

abbrev rotated_fleet : Db
rotated_fleet = record fleet {
  kiosks =
      record gate {
        credential_hash = some secret;
        credential_issued_at = some (3000 ∷ []);
        legacy_disabled_at = some (3000 ∷ []);
      }
      ∷ [];
  audit_log =
      record {
        actor_user_id = 66;
        action = text "kiosk_credential_issued";
        target_table = text "kiosks";
        target_id = 81;
        reason = none;
        details = none;
        created_at = 3000 ∷ [];
      }
      ∷ [];
}

rotate_runs :
    (rotate_credential platform session_of 81 secret (operator_call 3000) fleet
      ≡ ok (text "k-1", rotated_fleet))
    × (authenticate_legacy platform (text "Gate") fleet ≡ some (identity_for platform gate))
    × (authenticate_legacy platform (text "Gate") rotated_fleet ≡ none)
unfolding kiosks
rotate_runs = (refl, refl, refl)

rotated_credential_lets_in_example :
    (k : Kiosk) × (get_row 81 rotated_fleet.kiosks ≡ some k)
    × (authenticate_device platform secret rotated_fleet ≡ ok (some (identity_for platform k)))
rotated_credential_lets_in_example =
    rotated_credential_lets_in platform session_of 81 secret (operator_call 3000) fleet (text "k-1")
      rotated_fleet (tt, tt) rotate_runs.0

abbrev revoked_fleet : Db
revoked_fleet = record rotated_fleet {
  kiosks =
      record gate {
        credential_issued_at = some (3000 ∷ []);
        credential_revoked_at = some (4000 ∷ []);
        legacy_disabled_at = some (3000 ∷ []);
      }
      ∷ [];
  audit_log =
      rotated_fleet.audit_log
      ++ record {
        actor_user_id = 66;
        action = text "kiosk_credential_revoked";
        target_table = text "kiosks";
        target_id = 81;
        reason = none;
        details = some (text "{\"legacyOnly\":false}");
        created_at = 4000 ∷ [];
      }
        ∷ [];
}

revoke_runs :
    (authenticate_device platform secret rotated_fleet ≡ ok (some (identity_for platform gate)))
    × (revoke_credential platform session_of 81 true (operator_call 4000) rotated_fleet
        ≡ ok revoked_fleet)
unfolding kiosks
revoke_runs = (refl, refl)

revoked_credential_shuts_out_example : authenticate_device platform secret revoked_fleet ≡ ok none
revoked_credential_shuts_out_example =
    revoked_credential_shuts_out platform session_of 81 secret (identity_for platform gate) true
      (operator_call 4000) rotated_fleet revoked_fleet (tt, tt) revoke_runs.0 refl revoke_runs.1
