-- ===== src/Sched/Wait.antt =====
-- Sleeping and waking in goldfish/kernel/sched/core.c: try_to_wake_up, wait queues and completions.
pub mod Wake
pub mod Completion
mod Walks
mod Tokens
mod Pieces
mod Balance
mod Joins
mod Tests
