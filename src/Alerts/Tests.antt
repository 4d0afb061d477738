-- ===== src/Alerts/Tests.antt =====
-- Runs of the alert queue, and its theorems at one event.
use fw_gatekeeper.Prelude.{true, false, none, some, [], ◌∷◌, ◌≡◌, ◌≢◌, refl, arith}
use fw_gatekeeper.Prelude.Lists.{find, filter, any, sort_by, insert_by}
use fw_gatekeeper.Prelude.Text.{text, trim, trim_start, is_space}
use fw_gatekeeper.Prelude.Table.{get_row, patch_row}
use fw_gatekeeper.Schema.{worker, PeopleAlertEvent, alert_event_row, Db, empty_db}
use fw_gatekeeper.Samples.{platform}
use fw_gatekeeper.Alerts.{
  Environment, ClaimedEvent, split_onto, addresses, drop_slash, read_config, distinct,
  claim_pending, finish_delivery, build_alert, deliver_turns, deliver_pending,
}
use fw_gatekeeper.Alerts.Claims.{claim_pending_exclusive, delivered_not_claimed}

alerts : Unit {0}
unfolding find filter any sort_by insert_by trim trim_start is_space get_row patch_row split_onto
    addresses drop_slash read_config distinct claim_pending finish_delivery build_alert
    deliver_turns deliver_pending
alerts = tt

abbrev ann_added : PeopleAlertEvent
ann_added = record {
  id = 5;
  kind = worker;
  target_id = 97;
  label = text "Ann";
  detail = some (text "Line 1");
  created_at = text "t0";
  delivered = false;
  delivered_at = none;
  claimed_until = none;
}

abbrev bob_added : PeopleAlertEvent
bob_added = record ann_added { id = 6; label = text "Bob" }

abbrev queue : Db
queue = record empty_db { next_id = 7; alert_events = ann_added ∷ bob_added ∷ [] }

abbrev as_claimed : PeopleAlertEvent → ClaimedEvent
as_claimed e = record {
  id = e.id;
  kind = e.kind;
  label = e.label;
  detail = e.detail;
  created_at = e.created_at;
}

claims :
    ((claim_pending [] 100 queue).0 ≡ some (as_claimed ann_added))
    × ((claim_pending [] 200 (claim_pending [] 100 queue).1).0 ≡ some (as_claimed bob_added))
    × ((claim_pending [] 200 (finish_delivery platform 5 true 150 queue)).0
        ≡ some (as_claimed bob_added))
    × (get_row 5 queue.alert_events ≡ some ann_added)
unfolding alerts
claims = (refl, refl, refl, refl)

abbrev environment : Environment
environment = record {
  resend_api_key = some (text "key");
  alert_email_from = some (text "a@b");
  people_alert_email_to = some (text "x@y, z@w");
  people_alert_webhook_url = none;
  site_url = some (text "https://site/");
}

-- A run delivers both events, and a second run has nothing to do.
deliveries :
    ((deliver_pending platform (λ c e m. true) environment (λ n. 1000) queue).0 ≡ (2, true))
    × ((deliver_pending platform
          (λ c e m. true)
          environment
          (λ n. 90000)
          (deliver_pending platform (λ c e m. true) environment (λ n. 1000) queue).1).0
        ≡ (0, true))
    × ((read_config environment).site_url ≡ text "https://site")
    × ((build_alert (as_claimed ann_added) (text "s")).subject
        ≡ text "[FW Gatekeeper] Worker added: Ann")
unfolding alerts
deliveries = (refl, refl, refl, refl)

claim_pending_exclusive_example : bob_added.id ≢ ann_added.id
claim_pending_exclusive_example =
    claim_pending_exclusive [] [] 100 200 queue (as_claimed ann_added) (as_claimed bob_added)
      claims.0 (omega arith) claims.1

delivered_not_claimed_example : bob_added.id ≢ 5
delivered_not_claimed_example =
    delivered_not_claimed platform 5 150 200 [] ann_added queue (as_claimed bob_added)
      (((λ e. ground arith), tt), (tt, tt)) claims.3 claims.2
