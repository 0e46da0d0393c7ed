-- ===== src/Sched/Rt/Bandwidth.antt =====
-- The runtime of the groups in goldfish/kernel/sched/rt.c: sched_rt_runtime_exceeded, update_curr_rt,
-- sched_rt_rq_enqueue and do_sched_rt_period_timer. `balance_runtime` is empty on one processor, and
-- every queue has a group. The start of the timer and the message that is printed once are left out.
use operating_system_project.Sched.Rt.Bits.{Bitmap}
use operating_system_project.Prelude.{
  ℕ, ◌+◌, ◌-◌, ◌*◌, ◌^◌, Bool, true, false, not, ◌&&◌, ◌||◌, List, [], ◌∷◌, ltb, leb, ◌==◌,
  if◌then◌else◌,
}
use operating_system_project.Prelude.{u64, min, max}
use operating_system_project.Sched.Task.{Class, rt_class, resched_task}
use operating_system_project.Sched.Ras.Class.{delta_exec}
use operating_system_project.Sched.Core.World.{World, task, put_task, on_kernel}
use operating_system_project.Sched.Rt.Queues.{RtRq, Rt, on_rt_rq, rt_rq_throttled}
use operating_system_project.Sched.Rt.Walk.{
  Groups, Place, task_places, group_places, rt_rq, set_rt_rq, enqueue_rt_entity, dequeue_rt_entity,
}

-- RUNTIME_INF, the u64 of -1
abbrev pub runtime_inf : ℕ
runtime_inf = 2 ^ 64 - 1

abbrev pub is_rt : Class → Bool
is_rt rt_class = true
is_rt _ = false

abbrev pub is_nil : List Place → Bool
is_nil [] = true
is_nil (s ∷ ss) = false

-- What sched_rt_runtime_exceeded makes of a queue that ran too long: no group without runtime is
-- throttled.
abbrev pub over_runtime : ℕ → RtRq → RtRq
over_runtime runtime r =
    if runtime == 0 then record r { rt_time = 0 } else record r { rt_throttled = true }

-- The queue behind a period of the timer: `rt_time -= min(rt_time, overrun * runtime)`, and the end of
-- the throttling
abbrev pub replenished : ℕ → RtRq → RtRq
replenished overrun r =
    let left : ℕ = r.rt_time - min r.rt_time (u64 (overrun * r.rt_runtime)) in
    record r { rt_time = left; rt_throttled = r.rt_throttled && not (ltb left r.rt_runtime) }

-- Whether do_sched_rt_period_timer enqueues the group again
abbrev pub comes_back : RtRq → RtRq → Bool
comes_back r r' =
    if r.rt_time == 0
    then not (r.rt_nr_running == 0) && not (rt_rq_throttled r)
    else r.rt_throttled && not r'.rt_throttled

module _ {S : Type 0} ⦃bm : Bitmap⦄ (gs : Groups) where
  -- The group's own entity, which the root group does not have, is linked.
  abbrev pub group_linked : World (Rt S) → ℕ → List Place → Bool
  group_linked w g [] = false
  group_linked w g (s ∷ ss) = on_rt_rq s.entity (rt_rq w s.on)

  -- sched_rt_rq_enqueue
  unfoldable pub sched_rt_rq_enqueue : World (Rt S) → ℕ → World (Rt S)
  unfolding enqueue_rt_entity
  sched_rt_rq_enqueue w g =
      let ss = group_places gs g in
      let c : ℕ = w.kernel.rq.curr in
      let v = if is_nil ss || group_linked w g ss then w else enqueue_rt_entity w ss false in
      if (rt_rq w g).rt_nr_running == 0
      then w
      else if ltb (rt_rq v g).highest_prio (task v c).prio
      then on_kernel (λ k. resched_task k c) v
      else v

  -- sched_rt_rq_dequeue
  unfoldable pub sched_rt_rq_dequeue : World (Rt S) → ℕ → World (Rt S)
  unfolding dequeue_rt_entity
  sched_rt_rq_dequeue w g =
      let ss = group_places gs g in if group_linked w g ss then dequeue_rt_entity w ss else w

  -- sched_rt_runtime_exceeded
  unfoldable pub sched_rt_runtime_exceeded : World (Rt S) → ℕ → Bool × World (Rt S)
  sched_rt_runtime_exceeded w g =
      let r = rt_rq w g in
      let r' = over_runtime (gs.bandwidth g) r in
      let v = set_rt_rq w g r' in
      if r.rt_throttled
      then (rt_rq_throttled r, w)
      else if leb (gs.rt_period g) r.rt_runtime
          || r.rt_runtime == runtime_inf
          || leb r.rt_time r.rt_runtime
      then (false, w)
      else if rt_rq_throttled r'
      then (true, sched_rt_rq_dequeue v g)
      else (false, v)

  abbrev pub resched_if : Bool × World (Rt S) → World (Rt S)
  resched_if (true, w) = on_kernel (λ k. resched_task k k.rq.curr) w
  resched_if (false, w) = w

  -- The loop of update_curr_rt
  unfoldable pub charge : ℕ → World (Rt S) → List Place → World (Rt S)
  charge d w [] = w
  charge d w (s ∷ ss) =
      let r = rt_rq w s.on in
      let v = set_rt_rq w s.on (record r { rt_time = u64 (r.rt_time + d) }) in
      charge d
        (if r.rt_runtime == runtime_inf then w else resched_if (sched_rt_runtime_exceeded v s.on))
        ss

  -- update_curr_rt, up to the bandwidth: the current task's own times
  unfoldable pub charge_task : World (Rt S) → ℕ → ℕ → World (Rt S)
  charge_task w c d =
      let t = task w c in
      put_task w c (record t {
        exec_max = max t.exec_max d;
        sum_exec_runtime = u64 (t.sum_exec_runtime + d);
        exec_start = w.kernel.rq.clock_task;
      })

  -- update_curr_rt
  unfoldable pub update_curr_rt : World (Rt S) → World (Rt S)
  update_curr_rt w =
      let c : ℕ = w.kernel.rq.curr in
      let d : ℕ = delta_exec w.kernel.rq.clock_task (task w c).exec_start in
      let v = charge_task w c d in
      if is_rt (task w c).class
      then (if gs.bandwidth_enabled then charge d v (task_places gs c) else v)
      else w

  -- do_sched_rt_period_timer: whether the timer may stop, and the state
  unfoldable pub do_sched_rt_period_timer : World (Rt S) → ℕ → ℕ → Bool × World (Rt S)
  unfolding sched_rt_rq_enqueue
  do_sched_rt_period_timer w g overrun =
      let r = rt_rq w g in
      let r' = if r.rt_time == 0 then r else replenished overrun r in
      let v = set_rt_rq w g r' in
      let idle = r'.rt_time == 0 && r'.rt_nr_running == 0 in
      (
        (not r'.rt_throttled && (not gs.bandwidth_enabled || gs.bandwidth g == runtime_inf))
            || idle,
        if comes_back r r' then sched_rt_rq_enqueue v g else v,
      )
