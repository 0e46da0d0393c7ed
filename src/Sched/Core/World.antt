-- ===== src/Sched/Core/World.antt =====
-- What goldfish/kernel/sched/core.c works on: the kernel's state, the table of scheduling classes, and
-- the steps that every call of a class's handler is wrapped in (update_rq_clock, enqueue_task,
-- dequeue_task, check_class_changed, check_preempt_curr). The RAS row of the table is the code of
-- goldfish/kernel/sched/ras.c; the other rows are parameters. Statistics (sched_info_queued,
-- nr_uninterruptible) and the load weights of the fair class are left out.
use operating_system_project.Prelude.{ℕ, Bool, true, false, not, ltb, ◌==◌, if◌then◌else◌}
use operating_system_project.Sched.Task.{
  Class, stop_class, rt_class, ras_class, fair_class, idle_class, Task, Kernel, set_task,
  resched_task,
}
use operating_system_project.Sched.Ras.Class.{
  Picked, enqueue_task_ras, dequeue_task_ras, pick_next_task_ras, put_prev_task_ras,
  check_preempt_curr_ras, set_curr_task_ras, task_tick_ras, get_rr_interval_ras, switched_to_ras,
}

-- The modelled state, and what the other classes keep for themselves.
pub record World (S : Type 0) : Type 0 where
  pub kernel : Kernel
  pub other : S

abbrev pub on_kernel : {S : Type 0} → (Kernel → Kernel) → World S → World S
on_kernel f w = record w { kernel = f w.kernel }

abbrev pub task : {S : Type 0} → World S → ℕ → Task
task w p = w.kernel.tasks p

abbrev pub put_task : {S : Type 0} → World S → ℕ → Task → World S
put_task w p t = on_kernel (λ k. set_task k p t) w

-- `struct sched_class`. A handler that is NULL is one that changes nothing.
pub record Handlers (S : Type 0) : Type 0 where
  pub enqueue : World S → ℕ → ℕ → World S
  pub dequeue : World S → ℕ → ℕ → World S
  pub check_preempt : World S → ℕ → ℕ → World S
  pub pick_next : World S → Picked × World S
  pub put_prev : World S → ℕ → World S
  pub set_curr : World S → World S
  pub tick : World S → ℕ → World S
  pub interval : World S → ℕ → ℕ × World S
  pub prio_changed : World S → ℕ → ℕ → World S
  pub switched_from : World S → ℕ → World S
  pub switched_to : World S → ℕ → World S
  pub fork : World S → ℕ → World S

abbrev pub with_world : {A S : Type 0} → World S → A × Kernel → A × World S
with_world w (a, k) = (a, record w { kernel = k })

-- ras_sched_class, on one processor
unfoldable pub ras_handlers : {S : Type 0} → ℕ → Handlers S
ras_handlers hz = record {
  enqueue = λ w p flags. on_kernel (λ k. enqueue_task_ras hz k p flags) w;
  dequeue = λ w p flags. on_kernel (λ k. dequeue_task_ras k p flags) w;
  check_preempt = λ w p flags. on_kernel (λ k. check_preempt_curr_ras k p flags) w;
  pick_next = λ w. with_world w (pick_next_task_ras w.kernel);
  put_prev = λ w p. on_kernel (λ k. put_prev_task_ras k p) w;
  set_curr = λ w. on_kernel set_curr_task_ras w;
  tick = λ w p. on_kernel (λ k. task_tick_ras hz k p) w;
  interval = λ w p. with_world w (get_rr_interval_ras hz w.kernel p);
  prio_changed = λ w p old. w;
  switched_from = λ w p. w;
  switched_to = λ w p. on_kernel (λ k. switched_to_ras k p) w;
  fork = λ w p. w;
}

-- What the code takes from elsewhere: HZ, the clock, the rows of the other classes, the priority that
-- rt_mutex_getprio gives, rt_mutex_adjust_pi, the processor's stop and idle threads, the number of
-- tasks in the fair class, and whether a task's group has no real-time runtime.
pub record Env (S : Type 0) : Type 0 where
  pub hz : ℕ
  pub clock : World S → ℕ
  pub rows : Class → Handlers S
  pub getprio : Task → ℕ
  pub adjust_pi : World S → ℕ → World S
  pub is_stop : ℕ → Bool
  pub is_idle : ℕ → Bool
  pub fair_running : S → ℕ
  pub no_rt_runtime : World S → ℕ → Bool

abbrev pub same_class : Class → Class → Bool
same_class stop_class stop_class = true
same_class rt_class rt_class = true
same_class ras_class ras_class = true
same_class fair_class fair_class = true
same_class idle_class idle_class = true
same_class _ _ = false

-- The place of a class in the order of for_each_class.
abbrev pub rank : Class → ℕ
rank stop_class = 0
rank rt_class = 1
rank ras_class = 2
rank fair_class = 3
rank idle_class = 4

module _ {S : Type 0} (e : Env S) where
  -- `p->sched_class->...`
  unfoldable pub handlers : Class → Handlers S
  unfolding ras_handlers
  handlers ras_class = ras_handlers e.hz
  handlers stop_class = e.rows stop_class
  handlers rt_class = e.rows rt_class
  handlers fair_class = e.rows fair_class
  handlers idle_class = e.rows idle_class

  -- update_rq_clock: the clock stands still where `e.clock` gives the same reading.
  abbrev pub update_rq_clock : World S → World S
  update_rq_clock w = on_kernel (λ k. record k { rq = record (k.rq) { clock_task = e.clock w } }) w

  -- enqueue_task
  unfoldable pub enqueue_task : World S → ℕ → ℕ → World S
  enqueue_task w p flags = (handlers (task w p).class).enqueue (update_rq_clock w) p flags

  -- dequeue_task
  unfoldable pub dequeue_task : World S → ℕ → ℕ → World S
  dequeue_task w p flags = (handlers (task w p).class).dequeue (update_rq_clock w) p flags

  -- check_class_changed
  unfoldable pub check_class_changed : World S → ℕ → Class → ℕ → World S
  check_class_changed w p prev old =
      if not (same_class prev (task w p).class)
      then (let v = (handlers prev).switched_from w p in
          (handlers (task v p).class).switched_to v p)
      else if not (old == (task w p).prio)
      then (handlers (task w p).class).prio_changed w p old
      else w

  -- check_preempt_curr: the loop over the classes meets the first of the two.
  unfoldable pub check_preempt_curr : World S → ℕ → ℕ → World S
  check_preempt_curr w p flags =
      let c : ℕ = w.kernel.rq.curr in
      if same_class (task w p).class (task w c).class
      then (handlers (task w c).class).check_preempt w p flags
      else if ltb (rank (task w p).class) (rank (task w c).class)
      then on_kernel (λ k. resched_task k c) w
      else w
