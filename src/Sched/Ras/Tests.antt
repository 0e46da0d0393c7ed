-- ===== src/Sched/Ras/Tests.antt =====
-- Runs of the RAS class on small run queues.
use operating_system_project.Sched.Ras.Interval.{querying-starves, querying}
use operating_system_project.Sched.Ras.Turns.{ticks-slice}
use operating_system_project.Sched.Ras.Queue.{Reach-Inv}
use operating_system_project.Sched.Ras.Bounds.{
  refill-slice_bounds, refill-slice_order, calc_ras_weight-brackets,
}
use operating_system_project.Sched.Ras.Rounds.{turns-rotate, turns}
use operating_system_project.Sched.Ras.Rotation.{next_slice, slice, resched, ticks}
use operating_system_project.Sched.Ras.Slice.{
  ras_inc_time, ras_fg_timeslice, ras_bg_timeslice, calc_ras_weight, refill,
}
use operating_system_project.Sched.Ras.Machine.{enqueue, boot, later, Reach, Inv}
use operating_system_project.Sched.Ras.Class.{
  requeue_tail, slice_over, count_down, update_curr_ras, watchdog, task_tick_ras, init_ras_rq,
  enqueue_task_ras,
}
use operating_system_project.Prelude.{
  ℕ, ◌+◌, ◌-◌, ◌*◌, ◌^◌, ◌≤◌, ◌<◌, ◌≡◌, refl, ◌⊎◌, inl, true, false, [], ◌∷◌, arith,
}
use operating_system_project.Sched.Task.{resched_task, Task, Kernel, ras_class}

-- A RAS task in the root group, with few counted faults and two ticks left.
abbrev some_task : ℕ → Task
some_task p = record {
  pid = p;
  wcounts = 20;
  trace_flag = 0;
  rr_fifo_trace = 0;
  policy = 6;
  prio = 120;
  static_prio = 120;
  normal_prio = 120;
  rt_priority = 0;
  reset_on_fork = false;
  has_mm = true;
  class = ras_class;
  on_rq = true;
  exec_start = 100;
  sum_exec_runtime = 7;
  exec_max = 0;
  sched_exp = 0;
  group = "/";
  soft = 5000;
  hard = 9000;
  need_resched = false;
  ras = record { timeout = 0; time_slice = 2; weight = 9 };
}

-- Tasks 1 and 2 are queued and 1 runs.
abbrev two_queued : Kernel
two_queued = record {
  rq = record {
    curr = 1;
    clock_task = 150;
    nr_running = 2;
    ras = record { run_list = 1 ∷ 2 ∷ []; ras_nr_running = 2; ras_time = 0 };
  };
  tasks = some_task;
}

two_queued-Inv : Inv two_queued.rq
two_queued-Inv = record {
  counted = refl;
  distinct = λ p. ground arith;
  covered = omega arith;
  small = omega arith;
}

abbrev booted : Kernel
booted = record two_queued {
  rq = record (two_queued.rq) {
    nr_running = 0;
    ras = record { run_list = []; ras_nr_running = 0; ras_time = 0 };
  };
}

-- The queue after a boot and one wake-up.
abbrev woken : Kernel
woken = enqueue_task_ras 100 (init_ras_rq booted) 3 1

woken-Reach : Reach 100 woken
unfolding init_ras_rq
woken-Reach = later (boot booted (omega arith)) (enqueue 3 1 refl (omega arith))

calc_ras_weight-brackets_example :
    (calc_ras_weight 300 ≤ 10)
    × ((calc_ras_weight 300 ≡ 0) ⊎ (300 < 2 ^ (14 - calc_ras_weight 300)))
    × ((calc_ras_weight 300 ≡ 10) ⊎ (2 ^ (13 - calc_ras_weight 300) ≤ 300))
calc_ras_weight-brackets_example = calc_ras_weight-brackets 300

refill-slice_bounds_example :
    (0 < (refill 100 (some_task 1)).ras.time_slice)
    × (ras_bg_timeslice 100 ≤ (refill 100 (some_task 1)).ras.time_slice)
    × ((refill 100 (some_task 1)).ras.time_slice ≤ ras_fg_timeslice 100 + 10 * ras_inc_time 100)
refill-slice_bounds_example = refill-slice_bounds 100 (some_task 1) (omega arith) (omega arith)

refill-slice_order_example :
    (refill 100 (record (some_task 2) { wcounts = 5000 })).ras.time_slice
    ≤ (refill 100 (some_task 1)).ras.time_slice
refill-slice_order_example =
    refill-slice_order 100 (some_task 1) (record (some_task 2) { wcounts = 5000 }) (omega arith)
      (inl refl) (omega arith)

Reach-Inv_example : Inv woken.rq
Reach-Inv_example = Reach-Inv woken-Reach

ticks-slice_example :
    ((m : ℕ)
      → m ≤ 1
      → ((ticks 100 m two_queued 1).rq ≡ two_queued.rq)
        × (resched (ticks 100 m two_queued 1) 1 ≡ resched two_queued 1))
    × ((ticks 100 2 two_queued 1).rq.ras.run_list ≡ 2 ∷ 1 ∷ [])
    × (slice (ticks 100 2 two_queued 1) 1 ≡ next_slice 100 two_queued 1)
    × (resched (ticks 100 2 two_queued 1) 1 ≡ true)
ticks-slice_example = ticks-slice 100 1 two_queued 1 (2 ∷ []) refl (omega arith) refl

turns-rotate_example : (turns 100 2 two_queued).rq.ras.run_list ≡ 1 ∷ 2 ∷ []
turns-rotate_example =
    turns-rotate 100 2 two_queued (1 ∷ 2 ∷ []) (omega arith) (omega arith) two_queued-Inv refl
      (omega arith) (omega arith)

-- The tick that ends the slice of task 1 hands the turn to task 2, and the refill gives 14 ticks.
tick_run :
    ((ticks 100 2 two_queued 1).rq.ras.run_list ≡ 2 ∷ 1 ∷ [])
    × (slice (ticks 100 2 two_queued 1) 1 ≡ 14)
unfolding ticks task_tick_ras count_down slice_over requeue_tail resched_task refill update_curr_ras
    watchdog
tick_run = (refl, refl)

querying-starves_example :
    ((querying 100 1000 two_queued 1).rq ≡ two_queued.rq)
    × (resched (querying 100 1000 two_queued 1) 1 ≡ false)
querying-starves_example = querying-starves 100 1000 two_queued 1 (omega arith) (omega arith)
