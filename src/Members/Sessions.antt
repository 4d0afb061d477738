-- ===== src/Members/Sessions.antt =====
-- convex/portalMembers.ts: the removal of the sessions that an account's cutoff denies, in batches.
use fw_gatekeeper.Prelude.{ℕ, zero, suc, ◌-◌, Bool, false, Option, none, some, List, [], ◌∷◌}
use fw_gatekeeper.Prelude.Tests.{ltb, leb, max, if◌then◌else◌, ◌==◌, nat_eq}
use fw_gatekeeper.Prelude.Lists.{take, filter, length, last}
use fw_gatekeeper.Prelude.Table.{delete_row}
use fw_gatekeeper.Schema.{AuthSession, session_row, RefreshToken, Db}
use fw_gatekeeper.Access.{delete_tokens}

abbrev pub max_sessions : ℕ
max_sessions = 10

abbrev pub token_budget : ℕ
token_budget = 100

-- The index of sessions by user, in the order of creation.
abbrev pub sessions_of : ℕ → Db → List AuthSession
sessions_of user db = filter (λ (s : AuthSession). s.user_id == user) db.sessions

abbrev pub tokens_of : ℕ → Db → List RefreshToken
tokens_of session db = filter (λ (t : RefreshToken). t.session_id == session) db.refresh_tokens

-- The tokens that one turn deletes, and the store without them.
abbrev pub without_tokens : List RefreshToken → Db → Db
without_tokens batch db = record db { refresh_tokens = delete_tokens batch db.refresh_tokens }

-- The loop of `revokeSessionBatch`, with the budget of tokens that is left.
unfoldable pub revoke_each : List AuthSession → ℕ → ℕ → Db → Db
revoke_each [] budget cutoff db = db
revoke_each (s ∷ sessions) budget cutoff db =
    let tokens = take (suc budget) (tokens_of s.id db) in
    let without = without_tokens (take budget tokens) db in
    let rest =
      revoke_each sessions (budget - length tokens) cutoff
        (record without { sessions = delete_row s.id without.sessions }) in
    if ltb cutoff s.creation_time then db else if ltb budget (length tokens) then without else rest

-- The first session of the user that is left is from before the cutoff.
abbrev pub has_revoked : ℕ → ℕ → Db → Bool
has_revoked user cutoff db = elim (take 1 (sessions_of user db)) [
  | [] ↦ false
  | s ∷ _ ↦ leb s.creation_time cutoff
]

-- `revokeSessionBatch`, and `cleanupRevokedSessions`, which is it: whether another run is scheduled.
unfoldable pub revoke_session_batch : ℕ → ℕ → Db → Bool × Db
revoke_session_batch user cutoff db =
    let after = revoke_each (take max_sessions (sessions_of user db)) token_budget cutoff db in
    (has_revoked user cutoff after, after)

abbrev pub created_at_or_zero : Option AuthSession → ℕ
created_at_or_zero none = 0
created_at_or_zero (some s) = s.creation_time

-- The cutoff that denies every session there is, and what an earlier cutoff denies.
abbrev pub cutoff_for : ℕ → ℕ → ℕ → Db → ℕ
cutoff_for now user earlier db =
    max (max now (created_at_or_zero (last (sessions_of user db)))) earlier

-- `revokeSessionBatch`, and the runs of `cleanupRevokedSessions` that it and they schedule, with
-- nothing else in between; each takes a unit of fuel, and `none` is that the fuel is spent and a run is
-- still to come.
unfoldable pub cleanup_runs : ℕ → ℕ → ℕ → Db → Option Db
cleanup_runs zero user cutoff db = none
cleanup_runs (suc fuel) user cutoff db =
    let answer = revoke_session_batch user cutoff db in
    let rest = cleanup_runs fuel user cutoff answer.1 in if answer.0 then rest else some answer.1
