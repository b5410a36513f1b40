-- ===== src/Reminder.antt =====
-- Reminders: the table of internal/store/db.go and the delivery of internal/reminder/scheduler.go.
pub mod Row
pub mod State
pub mod Table
pub mod Scheduler
pub mod TimeParser
pub mod Tool
