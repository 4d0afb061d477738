-- ===== src/Kiosks/Caveat.antt =====
-- convex/attendanceQueue.ts: a queue that was seen to hold punches stays a caveat until it is
-- reported empty.
use fw_gatekeeper.Prelude.{ℕ, true, Option, none, some, List, [], ◌∷◌, ◌≡◌, ◌≢◌, arith}
use fw_gatekeeper.Prelude.Lists.{All}
use fw_gatekeeper.Prelude.Text.{Text}
use fw_gatekeeper.Schema.{Health, StoredQueue}
use fw_gatekeeper.Kiosks.Queue.{Reported, parse_queue_count, stored_queue, next_queue, observe}

-- A report: its value, the health that it replaces the last one with, and the time of its arrival.
pub record Report : Type 0 where
  pub value : Reported
  pub health : Option Health
  pub at : Text

-- The queue after reports that were accepted, the last of them first.
unfoldable pub after_reports : List Report → Option StoredQueue → Option Health → Option StoredQueue
after_reports [] queue health = queue
after_reports (r ∷ rs) queue health =
    after_reports rs (next_queue queue health (parse_queue_count r.value) r.at) r.health

next_caveat :
    (queue : Option StoredQueue) (health health' : Option Health) (count : Option ℕ) (at : Text)
    → (observe queue health).caveat ≡ true
    → count ≢ some 0
    → (observe (next_queue queue health count at) health').caveat ≡ true
unfolding observe next_queue stored_queue
next_caveat queue health health' (some n) at h k = ground arith
next_caveat (some q) health health' none at h k = h
next_caveat none none health' none at h k = ground arith
next_caveat none (some r) health' none at h k = ground arith

-- A queue that is a caveat stays one through any reports, malformed ones included, none of which
-- is a valid count of zero.
pub caveat_stays :
    (rs : List Report) (r : Report) (queue : Option StoredQueue) (health last : Option Health)
    → (observe queue health).caveat ≡ true
    → All (λ (x : Report). parse_queue_count x.value ≢ some 0) (r ∷ rs)
    → (observe (after_reports (r ∷ rs) queue health) last).caveat ≡ true
unfolding after_reports
caveat_stays [] r queue health last h (k, _) = next_caveat queue health last _ r.at h k
caveat_stays (s ∷ rs) r queue health last h (k, ks) =
    caveat_stays rs s (next_queue queue health (parse_queue_count r.value) r.at) r.health last
      (next_caveat queue health r.health _ r.at h k) ks
