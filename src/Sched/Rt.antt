-- ===== src/Sched/Rt.antt =====
-- goldfish/kernel/sched/rt.c: the real-time class, on one processor and with CONFIG_RT_GROUP_SCHED as in
-- the configuration goldfish_armv7_defconfig.
pub mod Queues
pub mod Walk
pub mod Bandwidth
pub mod Log
pub mod Pick
pub mod Class
mod Bits
mod Array
mod Highest
mod Flat
mod Steps
mod Move
pub mod Machine
mod Reach
mod Periods
mod Below
mod Choice
mod Tests
