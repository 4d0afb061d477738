-- ===== src/Shifts.antt =====
-- convex/attendanceShifts.ts: punches of one worker, paired to shifts.
pub mod Pairing
pub mod Pointer
pub mod Plausible
pub mod Justified
mod Tests
