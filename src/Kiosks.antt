-- ===== src/Kiosks.antt =====
-- The fleet of kiosks: convex/attendanceQueue.ts, convex/kioskLookup.ts, and of convex/kiosks.ts the
-- registration, the reports of contact, and the credentials.
pub mod Queue
pub mod Caveat
pub mod Lookup
pub mod Registry
pub mod Contact
pub mod Forward
pub mod Credentials
pub mod Secrets
pub mod Fleet
mod Tests
