-- ===== src/Sched/Core/Nice.antt =====
-- The change of a task's nice value in goldfish/kernel/sched/core.c: effective_prio and set_user_nice.
use operating_system_project.Prelude.{ℕ, ◌&&◌, ◌||◌, ltb, ◌==◌, if◌then◌else◌}
use operating_system_project.Sched.Task.{Task, resched_task}
use operating_system_project.Sched.Core.World.{
  World, Env, task, put_task, on_kernel, enqueue_task, dequeue_task,
}
use operating_system_project.Sched.Core.Policy.{normal_prio, rt_prio, rt_policy}

-- effective_prio: the task with its normal priority set, and the value.
unfoldable pub effective_prio : Task → ℕ × Task
unfolding normal_prio
effective_prio t =
    let n : ℕ = normal_prio t in
    let u = record t { normal_prio = n } in (if rt_prio u.prio then u.prio else n, u)

module _ {S : Type 0} (e : Env S) where
  -- set_user_nice, for `nice = static - 120`
  unfoldable pub set_user_nice : World S → ℕ → ℕ → World S
  unfolding enqueue_task dequeue_task effective_prio
  set_user_nice w p static =
      let w1 = if (task w p).on_rq then dequeue_task e w p 0 else w in
      let old : ℕ = (task w1 p).prio in
      let (prio, t) = effective_prio (record (task w1 p) { static_prio = static }) in
      let w2 = put_task w1 p (record t { prio = prio }) in
      let w3 = enqueue_task e w2 p 0 in
      if (task w p).static_prio == static || ltb static 100 || ltb 139 static
      then w
      else if rt_policy (task w p).policy
      then put_task w p (record (task w p) { static_prio = static })
      else if (task w p).on_rq
      then (if ltb prio old || (ltb old prio && w3.kernel.rq.curr == p)
          then on_kernel (λ k. resched_task k k.rq.curr) w3
          else w3)
      else w2
