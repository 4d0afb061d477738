-- ===== src/Schema.antt =====
-- convex/schema.ts: the rows of each table, and the store that the handlers work on.
-- `next_id` stands for the platform's supply of document ids: they are opaque, and never repeat.
mod People
mod Evidence
mod Devices
pub use People.*
pub use Evidence.*
pub use Devices.*
use fw_gatekeeper.Prelude.{ℕ, Option, none, List, []}
use fw_gatekeeper.Prelude.Text.{Text}

pub record Db : Type 0 where
  pub next_id : ℕ
  pub members : List PortalMember
  pub sessions : List AuthSession
  pub refresh_tokens : List RefreshToken
  pub accounts : List AuthAccount
  pub rate_limits : List RateLimit
  pub workers : List Worker
  pub roster_counter : Option RosterCounter
  pub audit_log : List AuditLogRow
  pub alert_events : List PeopleAlertEvent
  pub pending_photos : List PendingPhoto
  pub attendance : List AttendanceRow
  pub ingest_receipts : List IngestReceipt
  pub corrections : List Correction
  pub reversals : List Reversal
  pub kiosks : List Kiosk
  pub roster_receipts : List RosterReceipt
  pub schedules : List Schedule
  -- The ids of the files that `ctx.storage` holds.
  pub storage : List ℕ

abbrev pub empty_db : Db
empty_db = record {
  next_id = 0;
  members = [];
  sessions = [];
  refresh_tokens = [];
  accounts = [];
  rate_limits = [];
  workers = [];
  roster_counter = none;
  audit_log = [];
  alert_events = [];
  pending_photos = [];
  attendance = [];
  ingest_receipts = [];
  corrections = [];
  reversals = [];
  kiosks = [];
  roster_receipts = [];
  schedules = [];
  storage = [];
}

-- What the handlers take from the platform and from the language's run time.
pub record Platform : Type 0 where
  -- `ctx.db.normalizeId(table, text)`: the id that a text spells in the table of workers, kiosks.
  pub worker_id_of : Text → Option ℕ
  pub kiosk_id_of : Text → Option ℕ
  -- The text of a document id.
  pub id_text : ℕ → Text
  -- `new Date(ms).toISOString()` and `Date.parse`.
  pub iso : ℕ → Text
  pub parse_date : Text → Option ℕ
  -- `toLowerCase` and `toLocaleLowerCase`, `toLocaleUpperCase`.
  pub lower : Text → Text
  pub upper : Text → Text
