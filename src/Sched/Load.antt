-- ===== src/Sched/Load.antt =====
-- The load averages of goldfish/kernel/sched/core.c.
pub mod Average
mod Bounds
mod Ends
mod Tests
