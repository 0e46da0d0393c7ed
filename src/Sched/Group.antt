-- ===== src/Sched/Group.antt =====
-- The task groups of goldfish/kernel/sched/core.c with CONFIG_RT_GROUP_SCHED: the walk over their tree, and
-- the settings of their real-time bandwidth.
pub mod Tree
pub mod Bandwidth
pub mod Checks
pub mod Walks
pub mod Fits
pub mod Settings
mod Sessions
mod Tests
