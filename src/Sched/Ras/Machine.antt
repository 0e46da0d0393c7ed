-- ===== src/Sched/Ras/Machine.antt =====
-- The RAS class of goldfish/kernel/sched/ras.c as a machine: the steps that its handlers make, the
-- states that it reaches, and the invariant of its queue.
use operating_system_project.Prelude.{
  count, false, length, member, true, ℕ, ◌+◌, ◌<◌, ◌^◌, ◌≡◌, ◌≤◌,
}
use operating_system_project.Sched.Task.{Rq, Kernel}
use operating_system_project.Sched.Ras.Class.{
  yield_task_ras, get_rr_interval_ras, init_ras_rq, dequeue_task_ras, check_preempt_curr_ras,
  switched_to_ras, set_curr_task_ras, enqueue_task_ras, task_tick_ras, pick_next_task_ras,
  put_prev_task_ras,
}

-- The queue holds each task at most once, its counter is its length, and the processor's counter of
-- runnable tasks covers it.
pub record Inv (q : Rq) : Type 0 where
  pub counted : q.ras.ras_nr_running ≡ length q.ras.run_list
  pub distinct : (p : ℕ) → count p q.ras.run_list ≤ 1
  pub covered : length q.ras.run_list ≤ q.nr_running
  pub small : q.nr_running < 2 ^ 32

-- The machine's history: the handlers that the core calls, each where the core may call it, and
-- whatever the other classes, the page trace and the system calls do between them.
pub data Step (hz : ℕ) (k : Kernel) : Kernel → Type 0 where
  enqueue :
      (p flags : ℕ)
      → member p k.rq.ras.run_list ≡ false
      → k.rq.nr_running + 1 < 2 ^ 32
      → Step hz k (enqueue_task_ras hz k p flags)
  dequeue :
      (p flags : ℕ) → member p k.rq.ras.run_list ≡ true → Step hz k (dequeue_task_ras k p flags)
  pick : Step hz k (pick_next_task_ras k).1
  put_prev : (p : ℕ) → Step hz k (put_prev_task_ras k p)
  yields : Step hz k (yield_task_ras k)
  preempt : (p flags : ℕ) → Step hz k (check_preempt_curr_ras k p flags)
  set_curr : Step hz k (set_curr_task_ras k)
  tick : (p : ℕ) → Step hz k (task_tick_ras hz k p)
  interval : (p : ℕ) → Step hz k (get_rr_interval_ras hz k p).1
  switched : (p : ℕ) → Step hz k (switched_to_ras k p)
  elsewhere :
      {l : Kernel}
      → l.rq.ras ≡ k.rq.ras
      → length k.rq.ras.run_list ≤ l.rq.nr_running
      → l.rq.nr_running < 2 ^ 32
      → Step hz k l

-- States that the machine can be in after init_ras_rq.
pub data Reach (hz : ℕ) : Kernel → Type 0 where
  boot : (k : Kernel) → k.rq.nr_running < 2 ^ 32 → Reach hz (init_ras_rq k)
  later : {k l : Kernel} → Reach hz k → Step hz k l → Reach hz l
