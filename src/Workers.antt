-- ===== src/Workers.antt =====
-- convex/workers.ts: the life of a worker's record, its identity and its biometric data.
pub mod Photos
pub mod Identity
pub mod Rows
pub mod Handlers
pub mod Update
pub mod Outcomes
pub mod Edits
pub mod Erasure
pub mod Files
pub mod Shown
mod Tests
mod UpdateTests
