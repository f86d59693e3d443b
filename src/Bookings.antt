-- ===== src/Bookings.antt =====
-- apps/api/src/bookings.
pub mod Outcome
pub mod Create
pub mod Reschedule
pub mod Lifecycle
pub mod Controller
pub mod Prisma
