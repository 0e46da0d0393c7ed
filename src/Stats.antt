-- ===== src/Stats.antt =====
-- Project2/cmp/cmp.c: the program that reads the kernel's log and counts the cycles of each process.
pub mod Slots
pub mod Log
mod Lines
mod Counts
mod Traces
mod Files
mod Tests
