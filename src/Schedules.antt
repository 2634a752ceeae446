-- ===== src/Schedules.antt =====
-- src/schedule/service.ts: turns that a schedule starts. Rules reads a schedule's times and texts,
-- Service holds the operations of an operator, Due those of the planner.
pub mod Rules
pub mod Access
pub mod Runs
pub mod Service
pub mod Due
pub mod Delivered
pub mod Started
pub mod Turns
pub mod First
pub mod Drain
pub mod Alone
pub mod Manual
pub mod Stuck
