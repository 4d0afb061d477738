-- ===== src/Kiosks/Queue.antt =====
-- src/lib/attendance-queue.ts and convex/attendanceQueue.ts: what is known of a kiosk's upload queue.
use fw_gatekeeper.Prelude.{ℕ, Bool, false, Option, none, some, [], ◌∷◌}
use fw_gatekeeper.Prelude.Tests.{ltb, leb, if◌then◌else◌, nat_beq}
use fw_gatekeeper.Prelude.Text.{Text}
use fw_gatekeeper.Prelude.Number.{JsNumber, safe_count, max_safe_integer}
use fw_gatekeeper.Prelude.Decimal.{read_nat}
use fw_gatekeeper.Schema.{Health, reported, unknown, StoredQueue}

-- A value that a kiosk reports, of whatever type.
pub data Reported : Type 0 where
  number : JsNumber → Reported
  string : Text → Reported
  other : Reported

-- `/^(?:0|[1-9][0-9]*)$/`, with the number that is spelled.
unfoldable pub canonical_count : Text → Option ℕ
canonical_count [] = none
canonical_count (c ∷ []) = read_nat (c ∷ [])
canonical_count (c ∷ d ∷ t) = if nat_beq c b'0' then none else read_nat (c ∷ d ∷ t)

-- `Number.isSafeInteger(count) ? count : undefined` on a count that is an integer.
abbrev safe : Option ℕ → Option ℕ
safe none = none
safe (some n) = if leb n max_safe_integer then some n else none

unfoldable pub parse_queue_count : Reported → Option ℕ
parse_queue_count (number x) = safe_count x
parse_queue_count (string t) = safe (canonical_count t)
parse_queue_count other = none

-- `kiosk.health?.queuedLogs`.
abbrev queued_logs_of : Option JsNumber → Reported
queued_logs_of none = other
queued_logs_of (some x) = number x

unfoldable pub stored_queue : Option StoredQueue → Option Health → Option StoredQueue
stored_queue (some q) health = some q
stored_queue none none = none
stored_queue none (some h) = elim (parse_queue_count (queued_logs_of h.queued_logs)) [
  | none ↦ none
  | some count ↦
      some (record { last_valid_count = count; observed_at = h.reported_at; latest = reported })
]

-- The queue after an accepted report, `count` being what its value parses to.
unfoldable pub next_queue :
    Option StoredQueue → Option Health → Option ℕ → Text → Option StoredQueue
next_queue queue health (some count) at =
    some (record { last_valid_count = count; observed_at = at; latest = reported })
next_queue queue health none at = elim (stored_queue queue health) [
  | none ↦ none
  | some prior ↦ some (record prior { latest = unknown })
]

pub data QueueStatus : Type 0 where
  pending clear uncertain : QueueStatus

pub record Observation : Type 0 where
  pub status : QueueStatus
  pub last_valid_count : Option ℕ
  pub observed_at : Option Text
  pub caveat : Bool

abbrev status_of : StoredQueue → QueueStatus
status_of q = elim q.latest [
  | unknown ↦ uncertain
  | reported ↦ if ltb 0 q.last_valid_count then pending else clear
]

unfoldable pub observe : Option StoredQueue → Option Health → Observation
observe queue health = elim (stored_queue queue health) [
  | none ↦ record {
    status = uncertain;
    last_valid_count = none;
    observed_at = none;
    caveat = false;
  }
  | some q ↦ record {
    status = status_of q;
    last_valid_count = some q.last_valid_count;
    observed_at = some q.observed_at;
    caveat = ltb 0 q.last_valid_count;
  }
]
