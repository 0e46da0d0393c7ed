-- ===== src/Sched.antt =====
-- The scheduler of goldfish/kernel/sched: its data, and the RAS scheduling class of ras.c.
pub mod Task
pub mod Ras
pub mod Core
pub mod Rt
pub mod Group
pub mod Wait
pub mod Load
