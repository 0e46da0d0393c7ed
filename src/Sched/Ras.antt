-- ===== src/Sched/Ras.antt =====
-- goldfish/kernel/sched/ras.c: the RAS scheduling class. A task's time slice grows with its weight,
-- and the weight falls with the number of page faults that the page trace counted for it.
pub mod Slice
pub mod Class
pub mod Bounds
pub mod Machine
pub mod Queue
pub mod Rotation
pub mod Turns
pub mod Interval
pub mod Rounds
pub mod Preemption
pub mod Accounting
mod Tests
