-- ===== src/Roster.antt =====
-- The roster protocol of convex/rosterSequence.ts, convex/kiosks.ts and convex/workers.ts: every
-- write of a worker takes the next sequence number, a kiosk acknowledges what it has applied by a
-- receipt, and a purge stays pending until the kiosk has acknowledged a later state.
pub mod Sequence
pub mod Cursor
pub mod Receipts
pub mod Sync
pub mod Outcomes
pub mod Invariant
pub mod Reach
pub mod Purge
pub mod Certify
pub mod Delta
mod Tests
