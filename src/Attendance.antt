-- ===== src/Attendance.antt =====
-- Attendance evidence: the ingestion of punches (convex/attendance.ts, convex/attendanceValidation.ts),
-- and the corrections that supervisors make (convex/attendanceCorrections.ts).
pub mod Ingest
pub mod Corrections
pub mod Reversals
pub mod Validation
pub mod Uploads
pub mod DateKeys
pub mod Effective
