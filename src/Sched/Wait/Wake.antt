-- ===== src/Sched/Wait/Wake.antt =====
-- Waking in goldfish/kernel/sched/core.c, from activate_task to wake_up_state, and __wake_up_common. There is one
-- processor, and the counters of CONFIG_SCHEDSTATS are left out.
use operating_system_project.Prelude.{
  ℕ, ◌+◌, Bool, true, false, not, ◌&&◌, List, [], ◌∷◌, ◌==◌, if◌then◌else◌, update,
}
use operating_system_project.Prelude.{bit_and, inc32, dec32}
use operating_system_project.Sched.Task.{enqueue_wakeup}
use operating_system_project.Sched.Core.World.{
  World, Env, task, put_task, enqueue_task, dequeue_task, check_preempt_curr,
}

-- The scheduler, `state` of each task, and `nr_uninterruptible` of the queue
pub record Sleepers (S : Type 0) : Type 0 where
  pub world : World S
  pub state : ℕ → ℕ
  pub nr_uninterruptible : ℕ

abbrev pub task_running : ℕ
task_running = 0

abbrev pub task_interruptible : ℕ
task_interruptible = 1

abbrev pub task_uninterruptible : ℕ
task_uninterruptible = 2

-- TASK_WAKEKILL | TASK_UNINTERRUPTIBLE
abbrev pub task_killable : ℕ
task_killable = 130

-- TASK_INTERRUPTIBLE | TASK_UNINTERRUPTIBLE
abbrev pub task_normal : ℕ
task_normal = 3

-- ENQUEUE_WAKING for one processor
abbrev pub enqueue_waking : ℕ
enqueue_waking = 0

-- What is taken from elsewhere: PF_FROZEN of a task, and wq_worker_waking_up where the task is a worker
pub record Workers (S : Type 0) : Type 0 where
  pub frozen : World S → ℕ → Bool
  pub waking_up : World S → ℕ → World S

-- `wait_queue_t` with default_wake_function as its `func`
pub record Waiting : Type 0 where
  pub exclusive : Bool
  pub waiter : ℕ

module _ {S : Type 0} (e : Env S) (k : Workers S) where
  -- task_contributes_to_load
  abbrev pub task_contributes_to_load : Sleepers S → ℕ → Bool
  task_contributes_to_load s p =
      not (bit_and (s.state p) task_uninterruptible == 0) && not (k.frozen s.world p)

  -- activate_task
  unfoldable pub activate_task : Sleepers S → ℕ → ℕ → Sleepers S
  activate_task s p flags = record s {
    world = enqueue_task e s.world p flags;
    nr_uninterruptible =
        if task_contributes_to_load s p then dec32 s.nr_uninterruptible else s.nr_uninterruptible;
  }

  -- deactivate_task
  unfoldable pub deactivate_task : Sleepers S → ℕ → ℕ → Sleepers S
  deactivate_task s p flags = record s {
    world = dequeue_task e s.world p flags;
    nr_uninterruptible =
        if task_contributes_to_load s p then inc32 s.nr_uninterruptible else s.nr_uninterruptible;
  }

  -- ttwu_activate
  unfoldable pub ttwu_activate : Sleepers S → ℕ → ℕ → Sleepers S
  unfolding activate_task
  ttwu_activate s p flags =
      let v = activate_task s p flags in
      record v {
        world = k.waking_up (put_task v.world p (record (task v.world p) { on_rq = true })) p;
      }

  -- ttwu_do_wakeup
  unfoldable pub ttwu_do_wakeup : Sleepers S → ℕ → ℕ → Sleepers S
  ttwu_do_wakeup s p wake_flags = record s {
    world = check_preempt_curr e s.world p wake_flags;
    state = update s.state p task_running;
  }

  -- ttwu_do_activate, which is what ttwu_queue does
  unfoldable pub ttwu_do_activate : Sleepers S → ℕ → ℕ → Sleepers S
  unfolding ttwu_activate ttwu_do_wakeup
  ttwu_do_activate s p wake_flags =
      ttwu_do_wakeup (ttwu_activate s p (enqueue_wakeup + enqueue_waking)) p wake_flags

  -- ttwu_remote, with its value
  unfoldable pub ttwu_remote : Sleepers S → ℕ → ℕ → Bool × Sleepers S
  unfolding ttwu_do_wakeup
  ttwu_remote s p wake_flags =
      if (task s.world p).on_rq then (true, ttwu_do_wakeup s p wake_flags) else (false, s)

  abbrev pub unless_remote : Bool × Sleepers S → ℕ → Sleepers S
  unless_remote (true, s) p = s
  unless_remote (false, s) p = ttwu_do_activate s p 0

  -- try_to_wake_up
  unfoldable pub try_to_wake_up : Sleepers S → ℕ → ℕ → ℕ → Bool × Sleepers S
  unfolding ttwu_do_activate ttwu_remote
  try_to_wake_up s p state wake_flags =
      if bit_and (s.state p) state == 0
      then (false, s)
      else (true, unless_remote (ttwu_remote s p wake_flags) p)

  -- try_to_wake_up_local, for a task that is not the current one
  unfoldable pub try_to_wake_up_local : Sleepers S → ℕ → Sleepers S
  unfolding ttwu_activate ttwu_do_wakeup
  try_to_wake_up_local s p =
      if bit_and (s.state p) task_normal == 0
      then s
      else ttwu_do_wakeup (if (task s.world p).on_rq then s else ttwu_activate s p enqueue_wakeup) p
          0

  -- wake_up_process and wake_up_state
  unfoldable pub wake_up_process : Sleepers S → ℕ → Bool × Sleepers S
  unfolding try_to_wake_up
  wake_up_process s p = try_to_wake_up s p task_normal 0

  unfoldable pub wake_up_state : Sleepers S → ℕ → ℕ → Bool × Sleepers S
  unfolding try_to_wake_up
  wake_up_state s p state = try_to_wake_up s p state 0

  -- What a wake-up leaves of nr_exclusive, and whether the walk ends with it
  abbrev pub left_of : Bool → Waiting → ℕ → ℕ
  left_of woken w nr_exclusive = if woken && w.exclusive then dec32 nr_exclusive else nr_exclusive

  abbrev pub ends : Bool → Waiting → ℕ → Bool
  ends woken w nr_exclusive = woken && w.exclusive && dec32 nr_exclusive == 0

  -- __wake_up_common
  unfoldable pub wake_up_common : List Waiting → ℕ → ℕ → ℕ → Sleepers S → Sleepers S
  unfolding try_to_wake_up
  wake_up_common [] mode nr_exclusive wake_flags s = s
  wake_up_common (w ∷ ws) mode nr_exclusive wake_flags s =
      let r = try_to_wake_up s w.waiter mode wake_flags in
      let rest = wake_up_common ws mode (left_of r.0 w nr_exclusive) wake_flags r.1 in
      if ends r.0 w nr_exclusive then r.1 else rest

  -- __wake_up and __wake_up_sync_key
  unfoldable pub wake_up : List Waiting → ℕ → ℕ → Sleepers S → Sleepers S
  unfolding wake_up_common
  wake_up q mode nr_exclusive s = wake_up_common q mode nr_exclusive 0 s

  unfoldable pub wake_up_sync_key : List Waiting → ℕ → ℕ → Sleepers S → Sleepers S
  unfolding wake_up_common
  wake_up_sync_key q mode nr_exclusive s =
      wake_up_common q mode nr_exclusive (if nr_exclusive == 0 then 0 else 1) s
