-- ===== src/Sched/Core/Switch.antt =====
-- Forking, ticks and the choice of the next task in goldfish/kernel/sched/core.c: __sched_fork,
-- sched_fork, wake_up_new_task, scheduler_tick, put_prev_task, pick_next_task and __schedule.
use operating_system_project.Prelude.{ℕ, Bool, true, false, List, [], ◌∷◌, ltb, ◌==◌, if◌then◌else◌}
use operating_system_project.Sched.Task.{
  Class, stop_class, rt_class, ras_class, fair_class, idle_class, Task, sched_normal,
}
use operating_system_project.Sched.Ras.Class.{Picked, nothing, picked, wild}
use operating_system_project.Sched.Core.World.{
  World, task, put_task, on_kernel, Env, handlers, enqueue_task, dequeue_task, update_rq_clock,
  check_preempt_curr,
}
use operating_system_project.Sched.Core.Policy.{rt_policy, rt_prio}

-- __sched_fork, as far as the task's fields are modelled: the node of the copy is in no list.
unfoldable pub sched_fork_basic : Task → Task
sched_fork_basic t = record t { on_rq = false; exec_start = 0; sum_exec_runtime = 0; exec_max = 0 }

-- NICE_TO_PRIO(0)
abbrev pub default_prio : ℕ
default_prio = 120

-- The policy and priorities of a task that asked for a reset on forking.
abbrev pub reset_policy : Task → Task
reset_policy t =
    if rt_policy t.policy
    then record t { policy = sched_normal; static_prio = default_prio; rt_priority = 0 }
    else if ltb t.static_prio default_prio
    then record t { static_prio = default_prio }
    else t

-- The fields that sched_fork gives to a copy of its parent's structure, for the parent's normal_prio.
unfoldable pub forked : ℕ → Task → Task
unfolding sched_fork_basic
forked parent_prio t =
    let t1 = record (sched_fork_basic t) { prio = parent_prio } in
    let r = reset_policy t1 in
    let t2 =
      if t1.reset_on_fork
      then record r { prio = r.static_prio; normal_prio = r.static_prio; reset_on_fork = false }
      else t1 in
    if rt_prio t2.prio then t2 else record t2 { class = fair_class }

abbrev pub dequeue_sleep : ℕ
dequeue_sleep = 1

-- How __schedule ends: with a task on the processor, with a pointer to no task, or with BUG().
pub data Switched (S : Type 0) : Type 0 where
  runs : World S → Switched S
  derails : World S → Switched S
  bug : Switched S

abbrev pub all_classes : List Class
all_classes = stop_class ∷ rt_class ∷ ras_class ∷ fair_class ∷ idle_class ∷ []

module _ {S : Type 0} (e : Env S) where
  -- sched_fork, for the new task `p` and the current one
  unfoldable pub sched_fork : World S → ℕ → World S
  unfolding forked
  sched_fork w p =
      let t = forked (task w w.kernel.rq.curr).normal_prio (task w p) in
      let v = put_task w p t in (handlers e t.class).fork v p

  -- wake_up_new_task
  unfoldable pub wake_up_new_task : World S → ℕ → World S
  unfolding enqueue_task check_preempt_curr
  wake_up_new_task w p =
      let v = enqueue_task e w p 0 in
      check_preempt_curr e (put_task v p (record (task v p) { on_rq = true })) p 2

  -- scheduler_tick
  unfoldable pub scheduler_tick : World S → World S
  scheduler_tick w =
      let v = update_rq_clock e w in
      let c : ℕ = v.kernel.rq.curr in (handlers e (task v c).class).tick v c

  -- put_prev_task
  unfoldable pub put_prev_task : World S → ℕ → World S
  put_prev_task w p = (handlers e (task w p).class).put_prev (update_rq_clock e w) p

  -- What a class's answer does to the loop.
  abbrev pub unless_picked : (World S → Picked × World S) → Picked × World S → Picked × World S
  unless_picked next (nothing, w) = next w
  unless_picked next (picked p, w) = (picked p, w)
  unless_picked next (wild, w) = (wild, w)

  -- for_each_class
  unfoldable pub pick_classes : List Class → World S → Picked × World S
  pick_classes [] w = (nothing, w)
  pick_classes (k ∷ ks) w = unless_picked (pick_classes ks) ((handlers e k).pick_next w)

  -- pick_next_task
  unfoldable pub pick_next_task : World S → Picked × World S
  unfolding pick_classes
  pick_next_task w =
      if w.kernel.rq.nr_running == e.fair_running w.other
      then unless_picked (pick_classes all_classes) ((handlers e fair_class).pick_next w)
      else pick_classes all_classes w

  abbrev pub clear_resched : World S → ℕ → World S
  clear_resched w p = put_task w p (record (task w p) { need_resched = false })

  abbrev pub switch_to : ℕ → Picked × World S → Switched S
  switch_to prev (nothing, w) = bug
  switch_to prev (picked p, w) =
      runs (on_kernel (λ k. record k { rq = record (k.rq) { curr = p } }) (clear_resched w prev))
  switch_to prev (wild, w) = derails (clear_resched w prev)

  -- The part of __schedule for a task that goes to sleep. `woken` is what the workqueue does when one
  -- of its workers sleeps.
  abbrev pub fall_asleep : (World S → World S) → World S → ℕ → World S
  fall_asleep woken w p =
      let v = dequeue_task e w p dequeue_sleep in
      woken (put_task v p (record (task v p) { on_rq = false }))

  -- One round of __schedule. `sleeps` says that the task is not runnable, was not preempted, and has
  -- no signal to take.
  unfoldable pub schedule : Bool → (World S → World S) → World S → Switched S
  schedule sleeps woken w =
      let prev : ℕ = w.kernel.rq.curr in
      let v = if sleeps then fall_asleep woken w prev else w in
      switch_to prev (pick_next_task (put_prev_task v prev))
