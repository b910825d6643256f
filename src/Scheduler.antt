-- ===== src/Scheduler.antt =====
-- server/scheduler.cc, the part that launches the flow of a transfer and follows it.
pub mod State
pub mod Report
pub mod Finish
pub mod Status
pub mod Next
pub mod Progress
pub mod Failed
pub mod Account
pub mod Poll
pub mod Launch
pub mod Kept
pub mod Schedule
pub mod Life
pub mod Tests
