-- ===== src/Lib.antt =====
-- Chronos, an appointment scheduling service: clients book slots of providers, move and cancel
-- bookings, and get reminder mails. The HTTP controllers call the services, the services change a
-- PostgreSQL database and ask a job queue (BullMQ), and a worker sends what the queue hands it.
--
-- The parts, and the files that model them (paths from the repository's root):
--  Base: shared names, Boolean tests on numbers, tables as association lists.
--  Schema: the rows and status enums (packages/contracts/src/index.ts and
--    packages/db/migrations/002_phase2_full_schema.sql). Schema/World is what a handler acts on: the
--    tables as its connection sees them, the tables at the last BEGIN, and the effects made so far;
--    a statement that fails raises. Schema/Statements has the INSERT and UPDATE statements with their
--    constraints, Schema/Live the consistency of slots with bookings.
--  Bookings/Create: createBooking (apps/api/src/bookings/bookings.service.ts).
--  Bookings/Reschedule: rescheduleBooking (apps/api/src/bookings/reschedule.service.ts).
--  Bookings/Lifecycle: apps/api/src/bookings/lifecycle.service.ts.
--  Bookings/Prisma: apps/api/src/lifecycle/lifecycle.service.ts.
--  Bookings/Controller, with Status, Cancel and Reads:
--    apps/api/src/bookings/bookings.controller.ts.
--  Reminders/Queue: apps/api/src/reminders/reminder.queue.ts.
--  Reminders/Worker: apps/api/src/reminders/reminder.worker.ts.
--  System: these as steps, one after the other, and what every run of them keeps; of the requests on
--    bookings, setting a cancelled one to booked or completed is no step.
--  Email/Gateway: apps/api/src/email/email.gateway.ts.
--  Email/Token: apps/api/src/email/unsubscribe.token.ts and unsubscribe.controller.ts.
--  Email/Templates: apps/api/src/email/email.templates.ts, its texts word for word.
--  Auth: apps/api/src/auth. Auth/Cookie and Auth/Password are what the controllers and guards share;
--    Auth/Provider, Auth/Admin and Auth/Client are the three kinds of sessions, each a list of rows
--    and a function for each handler and guard.
--  Figures: the controllers of apps/api/src/analytics, reports and billing, over bookings as their
--    queries join them.
--  Providers: apps/api/src/providers/providers.controller.ts, the provider's own row.
--  Notifications: apps/api/src/notifications, the service and its handlers.
--  Contracts: packages/contracts/src/reschedule.ts, the older rescheduleBooking.
--  Web/Actions: the buttons of apps/web/src/app/appointments/page.tsx, with the handlers behind them.
--  Web/Adapter and Web/Forward: apps/web/src/app/api/appointments/route.ts, GET and PATCH, with
--    apps/api/src/appointments/appointments.controller.ts.
--  Web/Hours: the schedule that apps/web/src/app/availability/page.tsx edits.
--  Web/Middleware: apps/web/src/middleware.ts.
--  Time and Time/Slots: packages/time/src/time-core.ts.
--  Time/Materializer: apps/api/src/materialize/materializer.service.ts; Time/Texts its comparison of
--    times of day as texts.
--  Tests: concrete runs.
--
-- Each function of the source has a definition of its name in the library's spelling. A handler is a
-- function of the world; which of its statements fail, what the queue, the mail provider and the
-- pool answer, and the clock are fields of its environment, so a theorem speaks of every pattern of
-- failures. UUIDs are numbers, instants are milliseconds. Where a handler lets other sessions run
-- between its transactions, what they do to the tables is an argument; in System it is a run again.
-- What libraries give (scrypt, HMAC, JSON, percent encoding, toLocaleString, toLowerCase, rounding to
-- percent, sums of floating-point prices, what Temporal.Instant.from makes of a Date, the last day that
-- Temporal has) is an argument too, with what is asked of it as a hypothesis. A statement that fails
-- between BEGIN and COMMIT on one client undoes the transaction, also where the code sends no ROLLBACK.
--
-- Only generateSlots, and materialize which calls it, need fuel: one round for each day of the range,
-- or up to the last day of Temporal where the range ends before it begins, and one for each minute of a
-- day in the inner loop, which advances at least five minutes.
--
-- Not modelled: the HTTP framework, log lines, Temporal, PostgreSQL's concurrency (a transaction is one
-- run), how the bookings controller cuts its cookie (its session is an argument), statements of
-- Prisma that fail in the code of sessions, the rows that the materializer inserts, the upload of an
-- avatar, the search endpoint (its query for the clients is one that Prisma refuses), the Zod schemas
-- of packages/contracts, and the markup of the web pages.
pub mod Base
pub mod Schema
pub mod Email
pub mod Auth
pub mod Figures
pub mod Time
pub mod Reminders
pub mod Bookings
pub mod System
pub mod Providers
pub mod Notifications
pub mod Contracts
pub mod Web
pub mod Tests
