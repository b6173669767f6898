-- ===== src/Lib.antt =====
-- allocube: reservations of machines and of resource groups on them, and the maintenance that takes
-- their time away. The server (server/*.ts) keeps everything in one SQLite database, and each
-- operation is one synchronous function over it inside withImmediateTransaction (server/db.ts).
--
-- The parts and their files:
--   Prelude      Boolean tests on numbers, lists, predicates over lists.
--   Interval     Half-open spans and the sweep over them: splitByBusy (server/scheduling.ts),
--                subtractBusyTimeRanges and mergeTimeRanges (src/calendar-state.ts),
--                intersectCalendarInterval (src/calendar-interval.ts). Cover says which moments are
--                kept, Shape which order the results have.
--   Store        The tables (server/schema.ts) as lists of rows in a record Db, the errors
--                (server/business-error.ts) and the statements on rows.
--   Schedule     When a schedule is consistent, and which changes of rows keep it so.
--   Booking      server/scheduling.ts. Segment: segmentSchema, normalizeSegmentStart,
--                validateSegmentTimes. Access: canAccessMachine, userCanAccessMachine,
--                assertMachineAccessEnd (server/machine-access.ts), assertUserCanSubmitReservations
--                (server/reservation-policy.ts), assertUserCanAccessSegments. Preview:
--                getBusyIntervals, splitByBusy, previewSegments, previewAvailableSegments. Overlap:
--                validateNoInternalOverlap, availableSegments, segmentsAdjusted. Commit:
--                insertReservationBatch, commitReservationBatch. Manage: updateReservation,
--                cancelReservation, endReservationEarly and their previews. Replace:
--                replaceMultipleReservations. The other files prove what their names say.
--   Maintenance  server/unavailability.ts. Target: resolveUnavailabilityTarget. Impact:
--                classifyImpact, reservationImpacts, previewSummary. Apply: applyReservationImpacts.
--                Plan: normalizePlannedTimes, previewUnavailability, createPlannedUnavailability,
--                cancelUnavailability. Disable: disableLongTerm, enableTarget. CancelWindow: when a
--                window can be cancelled, and what that writes.
--   Membership   trimMachineAccessReservations and releaseMachineResources
--                (server/machine-access.ts).
--   Resources    validateResourceConfiguration (server/resources.ts): the pools of a machine and what
--                its groups get of them. Loop says how a loop carries an invariant; Ranges, Items
--                and Quantities follow one pool, Names and Answer the identifiers and the result.
--                Group: validateAndResolveGroupAllocations and replaceGroupAllocations; Beside,
--                GroupLoop and GroupSafe: what they keep of an exclusive pool.
--   Drafts       The calendar's drafts (src/calendar-state.ts): eraseCalendarDraftRange and
--                mergeCalendarDrafts; Advance: advanceCalendarDrafts; Adjust: previewsByDraftId,
--                splitDrafts, adjustDraftsToAvailability; Issues: calendarDraftFieldIssues,
--                calendarDraftIssues. The other files prove what their names say.
--   Projection   mergeProjectedWindows, mergeProjectedUnavailability, mergeProjectedDisableHistory
--                (src/calendar-unavailability.ts); Moments: what they draw.
--   RateLimit    SourceRateLimiter (server/source-rate-limit.ts).
--   RefreshQueue RefreshQueue (src/refresh-queue.ts). Steps: the events that reach a queue; Latest:
--                the arguments it keeps; Promises and Progress: what becomes of the promises it
--                gives.
--   EditConflict claimEdit and confirmedEdit (src/edit-conflict.ts).
--   System       Every operation that writes, as a step of one database.
--   Tests        Runs and theorems at a small database.
--
-- How the code is modelled:
--   * An operation takes the database and returns a Result: a value with the database after it, or
--     an Error. An error carries no database, since withImmediateTransaction rolls back.
--   * An identifier is a number, a text a list of UTF-16 code units, an instant a number of
--     milliseconds. The code compares the texts that toISOString prints, whose order is that of the
--     instants; it is assumed that stored instants have that form.
--   * zod reads a request; a RawSegment is what it has read. The checks on minutes and lengths and
--     the defaults of the schema are part of parse_segment.
--   * The world is a parameter, Env: the readings of the clock by the place that reads it, random
--     identifiers by the place that draws them, and the digest of a row (node:crypto).
--   * UPDATE and DELETE by a primary key act on the first row with that key, or on all rows that
--     meet a condition; an INSERT of a key that is there is an error. CHECK(end_at > start_at) of
--     resource_unavailability and ON DELETE SET NULL of parent_reservation_id are kept.
--   * In Resources a Map is a function of its keys, a Set a list, lower case a parameter. In the
--     check of a whole configuration a quantity is a double, by its place in the order of doubles,
--     and the addition of doubles, which rounds, is a parameter `plus`; in that of one group it is
--     a number of thousandths, in which the code counts there.
--   * In Drafts and Projection a time is a text that is a date, with its milliseconds, or another
--     text, where two texts of one date are the same text, as those of toISOString; createId is a
--     parameter from the count of its calls, and the count is passed along. The orders of texts
--     (`<`, localeCompare) are parameters.
--   * Loops recurse on their lists, so there is no fuel.
--
-- A schedule is consistent when identifiers are unique, confirmed rows and all windows have a
-- positive length, a row stands on the machine of its group, no two confirmed rows of one group, or
-- of one machine where one of them takes the whole machine, overlap, and no confirmed row overlaps
-- an active window of its machine that is for the machine, for its group, or meets a row for the
-- whole machine.
--
-- Not modelled: routes and sessions, mail, audits beyond actor, action and entity, the details and
-- texts of errors, reports, feedback, the rows of the pools and the revisions of the resource
-- configuration, the geometry of the calendar, the user interface and the terminal client.
pub mod Prelude
pub mod Interval
pub mod Store
pub mod Schedule
pub mod Booking
pub mod Maintenance
pub mod Membership
pub mod System
pub mod Resources
pub mod Drafts
pub mod Projection
pub mod RateLimit
pub mod RefreshQueue
pub mod EditConflict
pub mod Tests
