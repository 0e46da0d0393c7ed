-- ===== src/Sched/Ras/Preemption.antt =====
-- When check_preempt_curr_ras of goldfish/kernel/sched/ras.c asks for the current task's rescheduling.
use operating_system_project.Sched.Ras.Bounds.{calc_ras_weight-antitone}
use operating_system_project.Sched.Ras.Slice.{calc_ras_weight}
use operating_system_project.Sched.Ras.Class.{check_preempt_curr_ras}
use operating_system_project.Sched.Ras.Rotation.{resched}
use operating_system_project.Prelude.{ℕ, ◌<◌, ◌≡◌, true, false, ◌||◌, arith, ltb}
use operating_system_project.Sched.Task.{Kernel}

-- A task that wakes up makes the current task reschedule exactly if its weight, computed anew, is
-- greater than the current task's; a flag that was set stays set, and the run queue stays.
pub check_preempt_curr_ras-resched :
    (k : Kernel) (p flags : ℕ)
    → (resched (check_preempt_curr_ras k p flags) k.rq.curr ≡ (
        resched k k.rq.curr
        || ltb (calc_ras_weight (k.tasks k.rq.curr).wcounts) (calc_ras_weight (k.tasks p).wcounts)))
      × ((check_preempt_curr_ras k p flags).rq ≡ k.rq)
unfolding check_preempt_curr_ras
check_preempt_curr_ras-resched k p flags = ground arith

-- So a task with at least as many counted faults as the current one never preempts it, and one that
-- does has fewer.
pub check_preempt_curr_ras-fewer :
    (k : Kernel) (p flags : ℕ)
    → resched k k.rq.curr ≡ false
    → resched (check_preempt_curr_ras k p flags) k.rq.curr ≡ true
    → (k.tasks p).wcounts < (k.tasks k.rq.curr).wcounts
check_preempt_curr_ras-fewer k p flags a b = ground (
  arith,
  (check_preempt_curr_ras-resched k p flags).0,
  calc_ras_weight-antitone (k.tasks k.rq.curr).wcounts (k.tasks p).wcounts,
)
