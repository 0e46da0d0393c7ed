-- ===== src/Sched/Rt/Class.antt =====
-- The handlers of rt_sched_class in goldfish/kernel/sched/rt.c. On one processor the lists of tasks that
-- could be pushed to other processors, and the handlers under CONFIG_SMP, are empty.
use operating_system_project.Sched.Rt.Bits.{Bitmap}
use operating_system_project.Prelude.{
  ℕ, zero, suc, ◌+◌, ◌*◌, ◌/◌, Bool, false, not, ◌&&◌, ◌||◌, List, [], ◌∷◌, ◌++◌, ltb, ◌==◌,
  if◌then◌else◌, update,
}
use operating_system_project.Prelude.{dec32, inc32, has_flag}
use operating_system_project.Sched.Task.{
  resched_task, inc_nr_running, dec_nr_running, enqueue_wakeup, enqueue_head, sched_rr,
}
use operating_system_project.Sched.Ras.Class.{rttime_ticks, rlim_infinity}
use operating_system_project.Sched.Core.World.{World, Handlers, task, put_task, on_kernel}
use operating_system_project.Sched.Rt.Queues.{Entity, Rt, holds_entity}
use operating_system_project.Sched.Core.Policy.{max_rt_prio}
use operating_system_project.Sched.Rt.Walk.{
  Groups, Place, task_places, rt_rq, enqueue_rt_entity, dequeue_rt_entity, requeue_task_rt,
}
use operating_system_project.Sched.Rt.Bandwidth.{update_curr_rt}
use operating_system_project.Sched.Rt.Log.{fifo_line, rr_line}
use operating_system_project.Sched.Rt.Pick.{pick_next_task_rt}

-- RR_TIMESLICE, for HZ
abbrev pub rr_timeslice : ℕ → ℕ
rr_timeslice hz = 100 * hz / 1000

-- `run_list.prev != run_list.next`: the entity's list has another entity.
abbrev pub has_neighbour : Entity → List Entity → Bool
has_neighbour x [] = false
has_neighbour x (y ∷ []) = false
has_neighbour x (y ∷ z ∷ l) = holds_entity x (y ∷ z ∷ l)

unfoldable pub has_neighbour_on : Entity → (ℕ → List Entity) → ℕ → ℕ → Bool
has_neighbour_on x queue i zero = false
has_neighbour_on x queue i (suc left) =
    has_neighbour x (queue i) || has_neighbour_on x queue (i + 1) left

module _ {S : Type 0} ⦃bm : Bitmap⦄ where
  abbrev pub set_timeout : World (Rt S) → ℕ → ℕ → World (Rt S)
  set_timeout w p n = record w { other = record (w.other) { timeout = update w.other.timeout p n } }

  abbrev pub set_time_slice : World (Rt S) → ℕ → ℕ → World (Rt S)
  set_time_slice w p n = record w {
    other = record (w.other) { time_slice = update w.other.time_slice p n };
  }

  abbrev pub printk : World (Rt S) → List ℕ → World (Rt S)
  printk w l = record w { other = record (w.other) { log = w.other.log ++ l ∷ [] } }

  -- watchdog
  unfoldable pub watchdog_rt : ℕ → World (Rt S) → ℕ → World (Rt S)
  watchdog_rt hz w p =
      let t = task w p in
      let ticks : ℕ = inc32 (w.other.timeout p) in
      let v = set_timeout w p ticks in
      if t.soft == rlim_infinity
      then w
      else if ltb (rttime_ticks hz t.soft t.hard) ticks
      then put_task v p (record t { sched_exp = t.sum_exec_runtime })
      else v

  -- The loop at the end of task_tick_rt: one of the entities is not alone in its list.
  unfoldable pub some_neighbour : World (Rt S) → List Place → Bool
  some_neighbour w [] = false
  some_neighbour w (s ∷ ss) =
      has_neighbour_on s.entity (rt_rq w s.on).queue 0 max_rt_prio || some_neighbour w ss

  -- check_preempt_curr_rt
  unfoldable pub check_preempt_curr_rt : World (Rt S) → ℕ → ℕ → World (Rt S)
  check_preempt_curr_rt w p flags =
      let c : ℕ = w.kernel.rq.curr in
      if ltb (task w p).prio (task w c).prio then on_kernel (λ k. resched_task k c) w else w

  -- set_curr_task_rt
  unfoldable pub set_curr_task_rt : World (Rt S) → World (Rt S)
  set_curr_task_rt w =
      let c : ℕ = w.kernel.rq.curr in
      put_task w c (record (task w c) { exec_start = w.kernel.rq.clock_task })

  -- switched_to_rt
  unfoldable pub switched_to_rt : World (Rt S) → ℕ → World (Rt S)
  switched_to_rt w p =
      let c : ℕ = w.kernel.rq.curr in
      if (task w p).on_rq && not (c == p) && ltb (task w p).prio (task w c).prio
      then on_kernel (λ k. resched_task k c) w
      else w

  -- prio_changed_rt
  unfoldable pub prio_changed_rt : World (Rt S) → ℕ → ℕ → World (Rt S)
  prio_changed_rt w p old =
      let c : ℕ = w.kernel.rq.curr in
      if not (task w p).on_rq
      then w
      else if c == p
      then (if ltb old (task w p).prio then on_kernel (λ k. resched_task k p) w else w)
      else if ltb (task w p).prio (task w c).prio
      then on_kernel (λ k. resched_task k c) w
      else w

  -- The log line of task_tick_rt for a task that is traced
  abbrev pub trace_tick : World (Rt S) → ℕ → World (Rt S)
  trace_tick w p =
      let t = task w p in
      if t.rr_fifo_trace == 1
      then printk w
          (if t.policy == sched_rr then rr_line t.pid (w.other.time_slice p) else fifo_line t.pid)
      else w

  -- get_rr_interval_rt
  unfoldable pub get_rr_interval_rt : ℕ → World (Rt S) → ℕ → ℕ × World (Rt S)
  get_rr_interval_rt hz w p = (if (task w p).policy == sched_rr then rr_timeslice hz else 0, w)

  module _ (gs : Groups) where
    -- enqueue_task_rt
    unfoldable pub enqueue_task_rt : World (Rt S) → ℕ → ℕ → World (Rt S)
    unfolding inc_nr_running
    enqueue_task_rt w p flags =
        let v = if has_flag flags enqueue_wakeup then set_timeout w p 0 else w in
        on_kernel inc_nr_running
          (enqueue_rt_entity v (task_places gs p) (has_flag flags enqueue_head))

    -- dequeue_task_rt
    unfoldable pub dequeue_task_rt : World (Rt S) → ℕ → ℕ → World (Rt S)
    unfolding dec_nr_running
    dequeue_task_rt w p flags =
        on_kernel dec_nr_running (dequeue_rt_entity (update_curr_rt gs w) (task_places gs p))

    -- yield_task_rt
    unfoldable pub yield_task_rt : World (Rt S) → World (Rt S)
    yield_task_rt w = requeue_task_rt false w (task_places gs w.kernel.rq.curr)

    -- put_prev_task_rt
    unfoldable pub put_prev_task_rt : World (Rt S) → ℕ → World (Rt S)
    put_prev_task_rt w p = update_curr_rt gs w

  module _ (hz : ℕ) (gs : Groups) where
    -- The end of a time slice of SCHED_RR
    unfoldable pub rr_slice_over : World (Rt S) → ℕ → World (Rt S)
    rr_slice_over w p =
        let v = set_time_slice w p (rr_timeslice hz) in
        let ss = task_places gs p in
        if some_neighbour v ss
        then on_kernel (λ k. resched_task k p) (requeue_task_rt false v ss)
        else v

    -- task_tick_rt
    unfoldable pub task_tick_rt : World (Rt S) → ℕ → World (Rt S)
    task_tick_rt w p =
        let v = trace_tick (watchdog_rt hz (update_curr_rt gs w) p) p in
        let left : ℕ = dec32 (v.other.time_slice p) in
        let u = set_time_slice v p left in
        if not ((task v p).policy == sched_rr)
        then v
        else if left == 0
        then rr_slice_over u p
        else u

    -- rt_sched_class
    unfoldable pub rt_handlers : Handlers (Rt S)
    rt_handlers = record {
      enqueue = enqueue_task_rt gs;
      dequeue = dequeue_task_rt gs;
      check_preempt = check_preempt_curr_rt;
      pick_next = pick_next_task_rt gs;
      put_prev = put_prev_task_rt gs;
      set_curr = set_curr_task_rt;
      tick = task_tick_rt;
      interval = get_rr_interval_rt hz;
      prio_changed = prio_changed_rt;
      switched_from = λ w p. w;
      switched_to = switched_to_rt;
      fork = λ w p. w;
    }
