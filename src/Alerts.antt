-- ===== src/Alerts.antt =====
-- convex/peopleAlerts.ts: the queue of alerts on people who were added, and its delivery.
pub mod Claims
mod Tests
use Prim.Native.String.{String}
use fw_gatekeeper.Prelude.{
  ℕ, zero, suc, ◌+◌, Bool, true, false, not, ◌&&◌, ◌||◌, Option, none, some, List, [], ◌∷◌, ◌++◌,
}
use fw_gatekeeper.Prelude.Tests.{leb, if◌then◌else◌, ◌==◌, nat_eq}
use fw_gatekeeper.Prelude.Lists.{take, find, filter, any, length, sort_by}
use fw_gatekeeper.Prelude.Text.{Text, text, trim, text_eq}
use fw_gatekeeper.Prelude.Table.{get_row, patch_row}
use fw_gatekeeper.Schema.{
  PersonKind, worker, portal_account, PeopleAlertEvent, alert_event_row, Db, Platform,
}

-- The environment's variables.
pub record Environment : Type 0 where
  pub resend_api_key : Option Text
  pub alert_email_from : Option Text
  pub people_alert_email_to : Option Text
  pub people_alert_webhook_url : Option Text
  pub site_url : Option Text

pub record EmailConfig : Type 0 where
  pub api_key : Text
  pub from : Text
  pub to : List Text

pub record AlertConfig : Type 0 where
  pub email : Option EmailConfig
  pub webhook_url : Option Text
  pub site_url : Text

-- `value?.trim()`, and nothing where that is empty.
abbrev pub trimmed : Option Text → Option Text
trimmed none = none
trimmed (some t) = elim (trim t) [ [] ↦ none | c ∷ s ↦ some (c ∷ s) ]

-- `text.split(",")`: `word` is what was read since the last comma.
unfoldable pub split_onto : Text → Text → List Text
split_onto word [] = word ∷ []
split_onto word (c ∷ t) =
    if c == b',' then word ∷ split_onto [] t else split_onto (word ++ c ∷ []) t

unfoldable pub addresses : List Text → List Text
addresses [] = []
addresses (t ∷ ts) = elim (trim t) [ [] ↦ addresses ts | c ∷ s ↦ (c ∷ s) ∷ addresses ts ]

abbrev or_blank : Option Text → Text
or_blank none = []
or_blank (some t) = t

-- `replace(/\/$/, "")`.
unfoldable pub drop_slash : Text → Text
drop_slash [] = []
drop_slash (c ∷ []) = if c == b'/' then [] else c ∷ []
drop_slash (c ∷ d ∷ t) = c ∷ drop_slash (d ∷ t)

abbrev or_default : Option Text → Text
or_default none = text "https://fw-gatekeeper.onrender.com"
or_default (some t) = t

abbrev pub email_config : Option Text → Option Text → List Text → Option EmailConfig
email_config (some key) (some from) (a ∷ to) =
    some (record { api_key = key; from = from; to = a ∷ to })
email_config _ _ _ = none

-- `readPeopleAlertConfig`.
unfoldable pub read_config : Environment → AlertConfig
read_config env = record {
  email =
      email_config (trimmed env.resend_api_key) (trimmed env.alert_email_from)
        (addresses (split_onto [] (or_blank env.people_alert_email_to)));
  webhook_url = trimmed env.people_alert_webhook_url;
  site_url = drop_slash (or_default (trimmed env.site_url));
}

abbrev pub claim_ms : ℕ
claim_ms = 60000

abbrev pub retry_delay_ms : ℕ
retry_delay_ms = 60000

pub record ClaimedEvent : Type 0 where
  pub id : ℕ
  pub kind : PersonKind
  pub label : Text
  pub detail : Option Text
  pub created_at : Text

abbrev pub is_among : List ℕ → ℕ → Bool
is_among ids i = any (λ j. j == i) ids

-- `new Set(ids)`.
unfoldable pub distinct : List ℕ → List ℕ
distinct [] = []
distinct (i ∷ ids) = let rest = distinct ids in if is_among ids i then rest else i ∷ rest

-- Unclaimed, or claimed until a time that has come.
abbrev pub is_due : ℕ → PeopleAlertEvent → Bool
is_due now e = elim e.claimed_until [ none ↦ true | some t ↦ leb t now ]

-- The index by_delivered_and_claimed_until, at what is not delivered and due.
abbrev pub is_eligible : ℕ → PeopleAlertEvent → Bool
is_eligible now e = not e.delivered && is_due now e

-- The order of the index: what has no claim comes first.
abbrev pub claim_order : PeopleAlertEvent → ℕ
claim_order e = elim e.claimed_until [ none ↦ 0 | some t ↦ suc t ]

abbrev pub candidates : ℕ → List ℕ → Db → List PeopleAlertEvent
candidates now attempted db =
    take (suc (length attempted)) (sort_by claim_order (filter (is_eligible now) db.alert_events))

abbrev claimed : PeopleAlertEvent → ClaimedEvent
claimed e = record {
  id = e.id;
  kind = e.kind;
  label = e.label;
  detail = e.detail;
  created_at = e.created_at;
}

-- `claimPending`.
unfoldable pub claim_pending : List ℕ → ℕ → Db → Option ClaimedEvent × Db
claim_pending attempted_ids now db =
    let attempted = distinct (take 20 attempted_ids) in
    elim (find (λ (e : PeopleAlertEvent). not (is_among attempted e.id))
      (candidates now attempted db)) [
        | none ↦ (none, db)
        | some e ↦ (
          some (claimed e),
          record db {
            alert_events =
                patch_row e.id
                  (λ (x : PeopleAlertEvent). record x { claimed_until = some (now + claim_ms) })
                  db.alert_events;
          },
        )
      ]

abbrev pub finished : Platform → Bool → ℕ → PeopleAlertEvent → PeopleAlertEvent
finished p true now e = record e {
  delivered = true;
  delivered_at = some (p.iso now);
  claimed_until = none;
}
finished p false now e = record e { claimed_until = some (now + retry_delay_ms) }

-- `finishDelivery`.
unfoldable pub finish_delivery : Platform → ℕ → Bool → ℕ → Db → Db
finish_delivery p id delivered now db = elim (get_row id db.alert_events) [
  | none ↦ db
  | some e ↦
      if e.delivered
      then db
      else record db { alert_events = patch_row id (finished p delivered now) db.alert_events }
]

pub record Message : Type 0 where
  pub subject : Text
  pub body : Text
  pub link : Text

abbrev is_worker : PersonKind → Bool
is_worker worker = true
is_worker portal_account = false

-- A text that is there and is not empty.
abbrev detail_line : Bool → Option Text → Text
detail_line w none = []
detail_line w (some []) = []
detail_line w (some (c ∷ t)) =
    (if w then text "Department" else text "Role") ++ text ": " ++ (c ∷ t) ++ 10 ∷ []

-- `buildPeopleAlert`; 10 is the line feed that joins the lines.
unfoldable pub build_alert : ClaimedEvent → Text → Message
build_alert e site_url =
    let w = is_worker e.kind in
    let kind = if w then text "Worker" else text "Portal account" in
    let link = site_url ++ text "/" ++ (if w then text "workers" else text "accounts") in
    record {
      subject = text "[FW Gatekeeper] " ++ kind ++ text " added: " ++ e.label;
      body =
          kind
          ++ text " added to FW Gatekeeper"
          ++ (10 ∷ text "Name or email: ")
          ++ e.label
          ++ (10 ∷ detail_line w e.detail)
          ++ text "Added at: "
          ++ e.created_at
          ++ (10 ∷ text "Review: ")
          ++ link;
      link = link;
    }

abbrev is_there {ℓ} : {A : Type ℓ} → Option A → Bool
is_there none = false
is_there (some a) = true

-- `send` is whether the mail service or the webhook accepts a message: the network.
module _ (p : Platform) (send : AlertConfig → ClaimedEvent → Message → Bool) where
  -- The loop of `deliverPending`, with the events still allowed; `now` is the time of each turn.
  unfoldable pub deliver_turns : ℕ → AlertConfig → (ℕ → ℕ) → List ℕ → Db → (ℕ × List ℕ) × Db
  deliver_turns zero config now attempted db = ((0, attempted), db)
  deliver_turns (suc turns) config now attempted db =
      let claim = claim_pending attempted (now turns) db in
      elim claim.0 [
        | none ↦ ((0, attempted), claim.1)
        | some e ↦
            let accepted = send config e (build_alert e config.site_url) in
            let rest =
              deliver_turns turns config now (attempted ++ e.id ∷ [])
                (finish_delivery p e.id accepted (now turns) claim.1) in
            (((if accepted then suc rest.0.0 else rest.0.0), rest.0.1), rest.1)
      ]

  -- `deliverPending`: the number delivered, and whether a way to deliver is configured.
  unfoldable pub deliver_pending : Environment → (ℕ → ℕ) → Db → (ℕ × Bool) × Db
  deliver_pending env now db =
      let config = read_config env in
      if is_there config.email || is_there config.webhook_url
      then (let run = deliver_turns 20 config now [] db in ((run.0.0, true), run.1))
      else ((0, false), db)
