-- ===== src/Sched/Core.antt =====
-- The part of goldfish/kernel/sched/core.c that drives the scheduling classes: the priorities, the calls
-- that set and read a policy, forking, ticks, and the choice of the next task.
pub mod World
pub mod Policy
pub mod Calls
pub mod Switch
pub mod Nice
mod Ranges
mod Rights
mod Order
mod Children
mod Settings
mod Readback
mod Turns
mod Boosting
pub mod Joining
mod Tests
