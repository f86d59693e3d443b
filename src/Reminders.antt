-- ===== src/Reminders.antt =====
-- apps/api/src/reminders: the queue manager, and the worker that a queued job calls.
pub mod Queue
pub mod Worker
pub mod Unsubscribed
