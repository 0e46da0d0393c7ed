-- ===== src/Lib.antt =====
-- Verification of Operating_system_Project_SJTU: the RAS scheduling class and its page trace in an Android
-- kernel (Project2) with the program that reads its log, and a process tree call and an encryption server
-- (Project1).
--
-- The parts and their files
--
-- * Sched is the scheduler of Project2/goldfish/kernel/sched. Sched/Task holds the data: a store gives the
--   structure of each task by its number, a list_head queue is the list of the tasks linked into it, and the
--   text of task_group_path is a field of the task. Sched/Ras is ras.c: Slice has calc_ras_weight and the
--   refill of a time slice, Class has the handlers of ras_sched_class under their names, each a function
--   from the kernel's state to the next one; Machine has the steps that the core makes by them. Bounds,
--   Queue, Rotation, Turns, Rounds, Interval, Preemption and Accounting hold the theorems.
-- * Sched/Core is what Project2/goldfish/kernel/sched/core.c does with the classes: World has the table of
--   classes and the wrappers of their handlers (enqueue_task, check_class_changed, check_preempt_curr),
--   Policy has __sched_setscheduler (setscheduler) and rt_mutex_setprio, Nice has set_user_nice, Calls has
--   the system calls, Switch has sched_fork, scheduler_tick, pick_next_task and one round of __schedule. The
--   RAS row of the table is Sched/Ras, and its real-time row can be Sched/Rt; the other rows, the clock and
--   what core.c calls in other files are the record Env, and the caller's rights are the record Caller.
--   Rights, Ranges, Order, Turns, Children, Settings, Readback, Boosting and Joining hold the theorems.
-- * Sched/Rt is Project2/goldfish/kernel/sched/rt.c with CONFIG_RT_GROUP_SCHED: Queues has the priority
--   array of an rt_rq, Walk the walks over a task's groups (enqueue_rt_entity, dequeue_rt_entity,
--   requeue_task_rt), Bandwidth the runtime of the groups and its timer, Log the traced lines, Pick and
--   Class the handlers of rt_sched_class. A queue is named by its group's number, and the record Groups says
--   how groups are nested. Bits, Array, Highest, Flat, Steps and Move lead to the theorems of Reach, Choice,
--   Periods and Below, the last one on both classes; Machine has the steps by which the core uses the class.
-- * Sched/Wait has sleeping and waking in Project2/goldfish/kernel/sched/core.c: Wake is try_to_wake_up with
--   the functions under it and __wake_up_common, over the scheduler of Sched/Core and the state of each
--   task; Completion has complete, complete_all and do_wait_for_common, cut where the thread sleeps. Walks,
--   Tokens, Pieces and Balance lead to the theorem on completions, Joins to that on RAS tasks.
-- * Sched/Load has the load averages of Project2/goldfish/kernel/sched/core.c: Average is calc_global_load
--   with the functions under it, Bounds and Ends hold the theorems.
-- * Sched/Group has the task groups of Project2/goldfish/kernel/sched/core.c: Tree is walk_tg_tree_from with
--   its two labels, Bandwidth the calls from to_ratio to sched_rt_handler. Walks, Checks, Fits, Settings and
--   Sessions lead to the theorems; the walk of Sched/Group is the one by which a setting is checked against
--   every group.
-- * Trace is the page trace. Fault is access_error of Project2/goldfish/arch/arm/mm/fault.c and Handler its
--   do_page_fault, over a record Mm of what the memory management answers; Mprotect is mprotect_s of
--   Project2/page-trace/start_trace.c, Calls has the system calls of page-trace, set_wcounts and
--   rr_fifo_trace, Table has the modules' hooks in the system call table; Termination, Session, Faults and
--   Signals hold the theorems. The fault handler counts in the field wcounts of the task, which the RAS
--   class reads.
-- * Ptree is the process tree: Dfs is Project1/Problem1/sys_ptree.c, Print the program
--   Project1/Problem2/ptree.c; Preorder holds the theorems on the walk.
-- * Chat is the server of Project1/Problem4/server: Reader is read_from_buf and read_line of general.h,
--   Cipher, Serve and Admission are serve and main of server.c; Lines describes a stream without its pieces.
-- * Stats is Project2/cmp/cmp.c: Slots has the nine slots in which the program counts the cycles of a log,
--   Log the reading of its lines; Lines, Files, Counts and Traces hold the theorems. The lines are those
--   that Sched/Rt/Log and task_tick_ras write.
-- * PageTest has the loops of Project2/page-trace-test/jni/page_trace_test.c and of
--   Project2/ras_page_trace_test/jni/ras_pt_test.c: Process is a process with its signal handler over
--   do_page_fault, Programs its loops and test_ras, Rounds and Loops hold the theorems. The record
--   UserMemory stands for the memory management behind the fault handler and for mprotect(2), with its laws
--   in IsUserMemory.
--
-- Conventions
--
-- Numbers are natural numbers with the wrap-around of the source's types written out; return codes are
-- integers. HZ is a parameter, since asm/param.h is not in the repository; so are the lookup of a pid, the
-- bit search of the real-time class (the record Bitmap), the answers of the memory management to a fault
-- (the records Mm and Context), the kernel's address space (the record Memory, with the documented laws in
-- IsMemory) and the answers of read(2). The loop of mprotect_s is a recursion on fuel, and 2 ^ 32 rounds are
-- enough, since each round moves the start of the range behind the end of an area; the loop of
-- pick_next_task_rt is one on `suc (height 0)`, the levels of groups below the root; the digits of a number
-- are written on fuel above the number; the loop of fixed_power_int has fuel for the 32 bits of its number;
-- a store that faults is run again on fuel for its faults, of which there are two at most; the walk over the
-- task groups has two visits of fuel for each group; every other loop is a recursion on its data. Locks are
-- taken where the source takes them: a handler runs as one step, and the server's steps are its critical
-- sections. There is one processor, as in the configuration goldfish_armv7_defconfig.
--
-- Not modelled: log lines but those of the traces, the code for several processors, the timer's start, the
-- configuration and the static initialisers, the page tables of the ARM fault handler, the fourth test of
-- page_trace_test.c, the set-up and the dialogues of the test programs, and the client; creating and
-- destroying task groups; of the kernel files that the repository copies, the parts that are not named
-- above.
pub mod Prelude
pub mod Sched
pub mod Trace
pub mod Ptree
pub mod Chat
pub mod Stats
pub mod PageTest
