-- ===== src/Lib.antt =====
-- The verification library of the FW Gatekeeper backend: the handlers of convex/ that keep a
-- factory's attendance evidence, the roster that its kiosks match faces against, and the fleet of
-- kiosks, with who may call them.
--
-- Parts and files
--   Prelude      Helpers. Result is a handler that returns or throws; a transaction that throws
--                commits nothing, so an error has no store. Table, Ids: a table of the document
--                store is the list of its rows in the order of creation; a row has an id and no id
--                is given twice. Text: a string is the list of its UTF-16 units. Number: a double is
--                a count of units of 2^-1074, so safe integers are exact. Decimal: numerals.
--   Schema       convex/schema.ts: a record for each table's rows (People, Evidence, Devices), and
--                Db, the store. Platform holds what the handlers take from the platform: the ids
--                that texts spell, ISO times, Date.parse and the case of letters.
--   Attendance   Ingest: convex/attendance.ts, insertAttendanceEvent, bulkCreateFromHttp and
--                receiptStatus, with the error paths. Stored says what an accepted event did;
--                Evidence, Keys, Retry, Batch and Receipts carry this to uploads.
--                Corrections, Reversals: convex/attendanceCorrections.ts, create and reverse. The
--                record Evidences is their interface to the calendar, to the timestamps and to the
--                exception report, which are not modelled here.
--                Effective: the attendance of a date with the corrections that stand,
--                listEffectiveAttendanceByTimestampRange of convex/attendance.ts and the reads of
--                convex/attendanceReads.ts; FactoryCalendar is its interface to the calendar.
--                Dates: listEffectiveAttendanceByFactoryDates. DateKeys: the
--                test of a date key of convex/localDate.ts.
--                Validation, Uploads: convex/attendanceValidation.ts and the mutations that
--                validate before they store.
--   Roster       Sequence: convex/rosterSequence.ts, the counter that every write of a worker
--                takes. Cursor: the cursors. Receipts: convex/kiosks.ts, receipts of devices and the
--                cursors of old clients. Sync: listWorkersForSync of convex/workers.ts, over a
--                paginate that is the platform's. Reach: runs of these handlers in any order.
--   Access       convex/access.ts: assertPortalRole and its parts, and the removal of sessions.
--   Kiosks       Queue: src/lib/attendance-queue.ts and convex/attendanceQueue.ts. Lookup:
--                convex/kioskLookup.ts. Registry, Contact, Credentials: the mutations of
--                convex/kiosks.ts. Fleet: its list and health snapshot.
--   Workers      Photos: convex/enrollmentPhotos.ts and deleteReplacedPhotos. Identity, Rows,
--                Handlers, Update: convex/workers.ts, enrolment, update, removal, purge and backfill, and
--                src/lib/worker-revision.ts; the record Enrolment is their interface to src/lib
--                (encoding, consent, directory).
--   Members      convex/portalMembers.ts. Sessions: revokeSessionBatch and the cutoff. Rows: what the
--                handlers write. Accounts: the handlers of administrators. Password: changePassword, an action over transactions
--                between which others commit (a Pause says what they do and when it goes on), and
--                the budget of attempts, which is counted in parts of 1/360000 of an attempt. The
--                records AuthStore and Scrypt stand for the libraries.
--   Shifts       convex/attendanceShifts.ts, pairShiftEvents. The record ShiftClock is what
--                createShiftClock and the calendar give for an event.
--   Alerts       convex/peopleAlerts.ts: claims, delivery, and the message.
--   Schedules    convex/schedules.ts, scheduleValidation.ts, scheduleAssignment.ts, and the range of
--                times of scheduleTimes.ts.
--   Samples      Inputs that the tests share; each Tests module runs its handlers on them.
--
-- Correspondence
--   A handler is a function from its arguments, the caller or the time, and a Db to a Result of its
--   answer and the next Db. A query of an index is a find or a filter of the table, `.unique()` is
--   `sole`, which throws on a second row. The time is an argument, in milliseconds.
--
-- Fuel
--   Access.Expiry.expire_runs and Members.Sessions.cleanup_runs, the runs that a removal of sessions
--   schedules, have fuel: one more than the sessions, or than the sessions and the tokens, is
--   enough, and a run that is still to come when it is spent is no result. A run
--   of deliverPending has its 20 turns. show_nat has one more than the number.
--
-- Not modelled
--   The exception report, briefings, closeouts with their signed evidence, recognition attempts, and
--   the calendar, which stands on Intl; queries that only prepare data for display; the two actions
--   of convex/portalMembers.ts that check and forward; the web pages and API routes; the kiosk's and
--   the face service's Python programs. Rows of the audit log have no id. Instants before 1970 are
--   not represented, and the creation time of a session is a whole number, of which only the order is
--   used. A read that a transaction shares (convex/attendanceReads.ts) is read again.
pub mod Prelude
pub mod Schema
mod Samples
pub mod Attendance
pub mod Roster
pub mod Access
pub mod Kiosks
pub mod Members
pub mod Alerts
pub mod Workers
pub mod Schedules
pub mod Shifts
